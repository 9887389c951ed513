-- ===== src/Http/ContentType.antt =====
-- Header.cpp, `GetContentType` and `ParseContentDisposition`, with their consumers of key and value.
use mini_web_srv.Base.{
  ℕ, Bool, true, false, none, some, List, [], ◌∷◌, Bytes, ◌==◌, if◌then◌else◌, codes,
}
use mini_web_srv.Query.Params.{str_eq}
use mini_web_srv.Strings.{Sign, less, same, greater, cmp_i}
use mini_web_srv.Http.RequestLine.{split_at}
use mini_web_srv.Http.HeaderLine.{HeaderName, content_type, content_disposition, Header}
use mini_web_srv.Http.Delimited.{KeyValue, parse_delimited_key_value}

pub data ContentType : Type 0 where
  ct_unknown : ContentType
  ct_url_encoded : ContentType
  ct_form_multipart : ContentType

abbrev pub is_same : Sign → Bool
is_same same = true
is_same less = false
is_same greater = false

abbrev pub is_content_type : HeaderName → Bool
is_content_type content_type = true
is_content_type _ = false

abbrev pub is_content_disposition : HeaderName → Bool
is_content_disposition content_disposition = true
is_content_disposition _ = false

abbrev pub is_semicolon : ℕ → Bool
is_semicolon c = c == b';'

-- `SingleKeyExtractor`: the last value of a key, or the target as it was.
unfoldable pub extract_key : Bytes → Bytes → List KeyValue → Bytes
extract_key key target [] = target
extract_key key target ((k, none) ∷ kvs) = extract_key key target kvs
extract_key key target ((k, some v) ∷ kvs) =
    extract_key key (if str_eq key k then v else target) kvs

abbrev pub is_null : Bytes → Bool
is_null [] = true
is_null (c ∷ cs) = false

abbrev pub multipart_form : Bytes
multipart_form = codes "multipart/form-data"

abbrev pub url_encoded_form : Bytes
url_encoded_form = codes "application/x-www-form-urlencoded"

-- The type, and the boundary that is written through the reference.
unfoldable pub get_content_type : Header → Bytes → ContentType × Bytes
unfolding extract_key
get_content_type h boundary =
    if is_content_type h.int_name
    then elim (split_at is_semicolon h.value) [
      | none ↦ (
        (if is_same (cmp_i h.value url_encoded_form) then ct_url_encoded else ct_unknown),
        boundary,
      )
      | some (before, c, behind) ↦
          if is_same (cmp_i multipart_form before)
          then (let found =
                extract_key (codes "boundary") [] (parse_delimited_key_value (c ∷ behind)) in
              ((if is_null found then ct_unknown else ct_form_multipart), found))
          else (
            (if is_same (cmp_i url_encoded_form before) then ct_url_encoded else ct_unknown),
            boundary,
          )
    ]
    else (ct_unknown, boundary)

-- What `ContentDisposExtractor` finds: the name, the file name, and whether there is one.
pub record Disposition : Type 0 where
  pub name : Bytes
  pub file_name : Bytes
  pub file_name_exists : Bool

unfoldable pub extract_disposition : Disposition → List KeyValue → Disposition
extract_disposition d [] = d
extract_disposition d ((k, none) ∷ kvs) = extract_disposition d kvs
extract_disposition d ((k, some v) ∷ kvs) =
    extract_disposition
      (if str_eq (codes "name") k
        then record d { name = v }
        else if str_eq (codes "filename") k
        then record d { file_name = v; file_name_exists = true }
        else d)
      kvs

-- Of another header the strings are cleared, and the flag stays as the caller left it.
unfoldable pub parse_content_disposition : Header → Disposition → Disposition
unfolding extract_disposition
parse_content_disposition h d =
    if is_content_disposition h.int_name
    then extract_disposition (record d { file_name_exists = false })
        (parse_delimited_key_value h.value)
    else record d { name = []; file_name = [] }
