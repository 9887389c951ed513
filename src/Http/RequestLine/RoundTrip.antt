-- ===== src/Http/RequestLine/RoundTrip.antt =====
-- A request line, read back by `ParseRequestLine`.
use mini_web_srv.Base.{
  if◌then◌else◌, ℕ, ◌≡◌, refl, ap, Bool, true, false, some, List, [], ◌∷◌, ◌++◌, Bytes, arith,
  codes,
}
use mini_web_srv.Query.Params.{ParamMap}
use mini_web_srv.Query.Url.RoundTrip.{is_unreserved, hex_digit, encode, encode_byte}
use mini_web_srv.Query.Url.Forms.{encode_form, put_all, AllBytes, add_url_encoded-encode_form}
use mini_web_srv.Http.RequestLine.{
  Request, Version, version_10, version_11, parse_method, split_at, is_space, ends_resource,
  parse_version, parse_query, parse_resource, parse_request_line,
}

abbrev pub Lacks : (ℕ → Bool) → Bytes → Type 0
Lacks p [] = Unit {0}
Lacks p (x ∷ xs) = (p x ≡ false) × Lacks p xs

-- The same as a test.
abbrev pub lacks : (ℕ → Bool) → Bytes → Bool
lacks p [] = true
lacks p (x ∷ xs) = if p x then false else lacks p xs

pub lacks-Lacks : (p : ℕ → Bool) (xs : Bytes) → lacks p xs ≡ true → Lacks p xs
lacks-Lacks p [] e = tt
lacks-Lacks p (x ∷ xs) e = ground (arith, lacks-Lacks p xs)

Lacks-append : (p : ℕ → Bool) (xs ys : Bytes) → Lacks p xs → Lacks p ys → Lacks p (xs ++ ys)
Lacks-append p [] ys h k = k
Lacks-append p (x ∷ xs) ys h k = (h.0, Lacks-append p xs ys h.1 k)

pub split_at-append :
    (p : ℕ → Bool) (xs rest : Bytes) (d : ℕ)
    → Lacks p xs
    → p d ≡ true
    → split_at p (xs ++ d ∷ rest) ≡ some (xs, d, rest)
unfolding split_at
split_at-append p [] rest d h k = rw k refl
split_at-append p (x ∷ xs) rest d h k = rw (h.0, split_at-append p xs rest d h.1 k) refl

encode_byte-Lacks : (c : ℕ) → Lacks is_space (encode_byte c)
unfolding encode_byte is_unreserved hex_digit
encode_byte-Lacks c = ground arith

encode-Lacks : (bs : Bytes) → Lacks is_space (encode bs)
unfolding encode
encode-Lacks [] = tt
encode-Lacks (c ∷ cs) =
    Lacks-append is_space (encode_byte c) (encode cs) (encode_byte-Lacks c) (encode-Lacks cs)

encode_form-Lacks : (ps : List (Bytes × Bytes)) → Lacks is_space (encode_form ps)
unfolding encode_form
encode_form-Lacks [] = tt
encode_form-Lacks ((k, v) ∷ []) =
    Lacks-append is_space (encode k) (b'=' ∷ encode v) (encode-Lacks k) (refl, encode-Lacks v)
encode_form-Lacks ((k, v) ∷ p ∷ ps) =
    Lacks-append is_space (encode k) (b'=' ∷ (encode v ++ (b'&' ∷ encode_form (p ∷ ps))))
      (encode-Lacks k)
      (
        refl,
        Lacks-append is_space (encode v) (b'&' ∷ encode_form (p ∷ ps)) (encode-Lacks v)
            (refl, encode_form-Lacks (p ∷ ps)),
      )

abbrev pub version_text : Version → Bytes
version_text version_10 = codes "HTTP/1.0"
version_text version_11 = codes "HTTP/1.1"

parse_version-version_text :
    (r : Request) (v : Version)
    → parse_version r (version_text v) ≡ (record r { version = v }, true)
unfolding parse_version split_at mini_web_srv.Query.Params.str_eq
parse_version-version_text r version_10 = refl
parse_version-version_text r version_11 = refl

-- A line without a query, with the target as it is.
unfoldable pub plain_line : Bytes → Bytes → Version → Bytes
plain_line m target v = m ++ (b' ' ∷ (target ++ (b' ' ∷ version_text v)))

unfoldable pub query_line : Bytes → Bytes → List (Bytes × Bytes) → Version → Bytes
query_line m target ps v =
    m ++ (b' ' ∷ (target ++ (b'?' ∷ (encode_form ps ++ (b' ' ∷ version_text v)))))

-- A line without a query sets the method, the resource and the version, and keeps the parameters, if
-- no space stands in the method, and no space or question mark in the target.
pub parse_request_line-plain_line :
    (r : Request) (m target : Bytes) (v : Version)
    → Lacks is_space m
    → Lacks ends_resource target
    → parse_request_line r (plain_line m target v)
      ≡ some (
        record { method = parse_method m; resource = target; query = r.query; version = v },
        true,
      )
unfolding parse_request_line parse_resource plain_line
parse_request_line-plain_line r m target v h k =
    rw
      (
        parse_request_line,
        plain_line,
        split_at-append is_space m (target ++ (b' ' ∷ version_text v)) b' ' h refl,
        parse_resource,
        split_at-append ends_resource target (version_text v) b' ' k refl,
      )
      (ap some
        (parse_version-version_text (record r { method = parse_method m; resource = target }) v))

-- A line with a query also sets the parameters of its form, whatever bytes their names and values
-- have, if no space stands in the method, and no space or question mark in the target.
pub parse_request_line-query_line :
    (r : Request) (m target : Bytes) (ps : List (Bytes × Bytes)) (v : Version)
    → Lacks is_space m
    → Lacks ends_resource target
    → AllBytes ps
    → parse_request_line r (query_line m target ps v)
      ≡ some (
        record {
          method = parse_method m;
          resource = target;
          query = put_all ps r.query;
          version = v;
        },
        true,
      )
unfolding parse_request_line parse_resource parse_query query_line
parse_request_line-query_line r m target ps v h k b =
    rw
      (
        parse_request_line,
        query_line,
        split_at-append is_space m (target ++ (b'?' ∷ (encode_form ps ++ (b' ' ∷ version_text v))))
            b' ' h refl,
        parse_resource,
        split_at-append ends_resource target (encode_form ps ++ (b' ' ∷ version_text v)) b'?' k
            refl,
        parse_query,
        split_at-append is_space (encode_form ps) (version_text v) b' ' (encode_form-Lacks ps) refl,
        add_url_encoded-encode_form r.query ps b,
      )
      (ap some (
        parse_version-version_text
          (record r { method = parse_method m; resource = target; query = put_all ps r.query }) v))
