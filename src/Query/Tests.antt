-- ===== src/Query/Tests.antt =====
-- Runs of the form decoders and of the boundary search, and the theorems at concrete inputs.
use mini_web_srv.Base.{◌≡◌, ◌↔◌, refl, some, none, [], ◌∷◌, ◌++◌, List, Bytes, arith, take, codes}
use mathlib.Core.List.{flatten}
use mini_web_srv.Query.Params.{str_eq, get_default, put}
use mini_web_srv.Query.Url.{
  escaped_val, append_target, form_char, form_loop, decode_url_encoded, add_url_encoded,
}
use mini_web_srv.Query.Url.RoundTrip.{EndsHalf, decode_url_encoded_overruns_iff}
use mini_web_srv.Query.Url.Forms.{encode_form, put_all, add_url_encoded-encode_form}
use mini_web_srv.Query.Boundary.{
  append, new_part, fresh_splitter, on_boundary_parsed, scan_byte, append_form_multipart,
  append_chunks,
}
use mini_web_srv.Query.Boundary.Stream.{items}
use mini_web_srv.Query.Boundary.Chunks.{append_chunks-flatten}
use mini_web_srv.Query.Boundary.Lossless.{unread, append_chunks-unread}

decode_sample : decode_url_encoded [] (codes "a%20b+c") ≡ some (codes "a b c")
unfolding decode_url_encoded escaped_val
decode_sample = refl

form_sample :
    add_url_encoded [] (codes "a=1&b=%41&a=2")
    ≡ some ((codes "a", codes "2") ∷ (codes "b", codes "A") ∷ [])
unfolding add_url_encoded form_loop form_char append_target escaped_val put get_default str_eq
form_sample = refl

decode_url_encoded_overruns_iff_example :
    (decode_url_encoded [] (codes "a%%4%4") ≡ none) ↔ EndsHalf (codes "a%%4%4")
decode_url_encoded_overruns_iff_example = decode_url_encoded_overruns_iff [] (codes "a%%4%4")

abbrev pairs : List (Bytes × Bytes)
pairs = (codes "a", codes "1 2") ∷ (codes "b", codes "=") ∷ []

add_url_encoded-encode_form_example :
    add_url_encoded [] (encode_form pairs) ≡ some (put_all pairs [])
add_url_encoded-encode_form_example = add_url_encoded-encode_form [] pairs (
  (omega arith, tt),
  (omega arith, (omega arith, (omega arith, tt))),
  ((omega arith, tt), (omega arith, tt), tt),
)

abbrev boundary : Bytes
boundary = on_boundary_parsed (codes "b")

-- Two parts, the second boundary cut in the middle.
abbrev chunks : List Bytes
chunks = codes "--b\r\nx\r" ∷ codes "\n-" ∷ codes "-b\r\ny\r\n" ∷ []

boundary_sample : append_chunks boundary fresh_splitter chunks ≡ (
  new_part
      ∷ append (codes "\r\n")
      ∷ append (codes "x")
      ∷ new_part
      ∷ append (codes "\r\n")
      ∷ append (codes "y")
      ∷ [],
  record { counter = 2; parse_tmp = codes "\r\n" },
)
unfolding append_chunks append_form_multipart scan_byte on_boundary_parsed
boundary_sample = refl

append_chunks-flatten_example :
    (items (append_chunks boundary fresh_splitter chunks).0
      ≡ items (append_form_multipart boundary fresh_splitter (flatten chunks)).0)
    × ((append_chunks boundary fresh_splitter chunks).1
        ≡ (append_form_multipart boundary fresh_splitter (flatten chunks)).1)
append_chunks-flatten_example = append_chunks-flatten boundary fresh_splitter chunks (omega arith)

append_chunks-unread_example :
    unread boundary (
        items
          (append_chunks boundary (record { counter = 2; parse_tmp = take 2 boundary }) chunks).0)
      ++ (append_chunks boundary
          (record { counter = 2; parse_tmp = take 2 boundary })
          chunks).1.parse_tmp
    ≡ take 2 boundary ++ flatten chunks
unfolding on_boundary_parsed
append_chunks-unread_example =
    append_chunks-unread boundary (record { counter = 2; parse_tmp = take 2 boundary }) chunks
      (omega arith, refl) (omega arith, refl)
