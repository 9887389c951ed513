-- ===== src/Http/Content/Tests.antt =====
-- The content handler at concrete inputs.
use mini_web_srv.Base.{
  ℕ, ◌-◌, ◌≡◌, ◌≤◌, refl, Option, none, some, List, [], ◌∷◌, ◌++◌, Bytes, arith, length, take, drop,
  codes, replicate,
}
use mathlib.Core.List.{flatten}
use mini_web_srv.ReadBuff.{
  Buff, available_data, relevant_data, reset_relevant, consume, request_data, receive,
}
use mini_web_srv.ReadBuff.Inv.{IsValid}
use mini_web_srv.Query.Boundary.{
  on_boundary_parsed, fresh_splitter, append_form_multipart, append_chunks,
}
use mini_web_srv.Query.Boundary.Stream.{items}
use mini_web_srv.Query.Params.{str_eq}
use mini_web_srv.Http.HeaderLine.{to_lower, Header, content_length, content_type}
use mini_web_srv.Http.ContentType.{ct_form_multipart, ct_url_encoded, get_content_type}
use mini_web_srv.Strings.{cmp_i}
use mini_web_srv.Http.RequestLine.{split_at}
use mini_web_srv.Http.Delimited.{is_ws, parse_step, parse_delimited_key_value}
use mini_web_srv.Http.Head.Reads.{stream}
use mini_web_srv.Http.Content.{
  Found, whole, parts, find_header, find_headers, is_url_encoded, content_handler,
}
use mini_web_srv.Http.Content.Laws.{AwaitFits}
use mini_web_srv.Http.Content.Multipart.{PartsFit}
use mini_web_srv.Http.Content.Handler.{no_headers, content_handler-multipart, content_handler-whole}

abbrev storage : Buff
storage = record { mem = replicate 16 0; read_pos = 0; relevant = 0; data_end = 0; req_end = 8 }

abbrev dirty : ℕ → ℕ
dirty n = 7

-- A number of one digit.
abbrev digit : Bytes → Option ℕ
digit [] = none
digit (c ∷ cs) = some (c - b'0')

abbrev announced : Option Header
announced =
    some (record { name = codes "content-length"; value = codes "4"; int_name = content_length })

abbrev typed : Bytes → Option Header
typed value = some (record { name = codes "content-type"; value = value; int_name = content_type })

abbrev form : List (Option Header)
form = announced ∷ typed (codes "application/x-www-form-urlencoded") ∷ []

abbrev multipart : List (Option Header)
multipart = announced ∷ typed (codes "multipart/form-data; boundary=b") ∷ []

abbrev found_form : Found
found_form = record {
  content_length = some 4;
  content_type = some ct_url_encoded;
  boundary = codes "\r\n--";
}

abbrev found_multipart : Found
found_multipart = record {
  content_length = some 4;
  content_type = some ct_form_multipart;
  boundary = codes "\r\n--b";
}

form-found : find_headers digit (no_headers []) form ≡ some found_form
unfolding find_headers find_header get_content_type on_boundary_parsed split_at cmp_i to_lower
form-found = refl

multipart-found : find_headers digit (no_headers []) multipart ≡ some found_multipart
unfolding find_headers find_header get_content_type on_boundary_parsed split_at cmp_i to_lower
    parse_delimited_key_value parse_step is_ws str_eq
multipart-found = refl

abbrev reads : List Bytes
reads = codes "a=" ∷ codes "bGET" ∷ codes " /" ∷ []

reads-AwaitFits : AwaitFits dirty 4 storage reads
unfolding request_data receive
reads-AwaitFits = ((omega arith, omega arith), ((omega arith, omega arith), tt))

reads-PartsFit : PartsFit dirty 8 4 (reset_relevant storage) reads
unfolding request_data receive consume reset_relevant
reads-PartsFit = ((omega arith, omega arith), ((omega arith, omega arith), tt))

storage-IsValid : IsValid storage
storage-IsValid = omega arith

content_handler-multipart_example :
    (chunks : List Bytes) × (b' : Buff) × (rs : List Bytes) × (content_handler dirty digit 9 8 []
        multipart storage reads
      ≡ some (parts found_multipart.boundary chunks b' rs))
    × (items (append_chunks found_multipart.boundary fresh_splitter chunks).0
        ≡ items
            (append_form_multipart found_multipart.boundary fresh_splitter
              (take 4 (stream storage reads))).0)
    × ((append_chunks found_multipart.boundary fresh_splitter chunks).1
        ≡ (append_form_multipart found_multipart.boundary fresh_splitter
            (take 4 (stream storage reads))).1)
    × (stream b' rs ≡ drop 4 (stream storage reads))
unfolding flatten
content_handler-multipart_example =
    content_handler-multipart dirty digit 9 8 [] multipart storage reads found_multipart 4
      fresh_splitter multipart-found refl refl (omega arith) (omega arith) (omega arith)
      storage-IsValid reads-PartsFit (omega arith) (omega arith)

content_handler-whole_example :
    (body : Bytes) × (b' : Buff) × (rs : List Bytes) × (content_handler dirty digit 9 8 [] form
        storage reads
      ≡ some (whole (is_url_encoded found_form.content_type) body b' rs))
    × (4 ≤ length body)
    × (body ++ flatten rs ≡ stream storage reads)
    × (available_data b' ≡ [])
    × (relevant_data b' ≡ relevant_data storage ++ body)
unfolding flatten
content_handler-whole_example =
    content_handler-whole dirty digit 9 8 [] form storage reads found_form 4 form-found refl refl
      (omega arith) (omega arith) (omega arith) storage-IsValid reads-AwaitFits (omega arith)
