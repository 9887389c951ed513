-- ===== src/Http/Response/Tests.antt =====
-- The theorems on the headers of a response at concrete inputs, and runs.
use mini_web_srv.Base.{
  ℕ, ◌≡◌, ◌≤◌, refl, true, false, none, some, [], ◌∷◌, ◌++◌, Bytes, arith, codes, length, replicate,
  tabulate,
}
use mini_web_srv.Http.Response.{
  Response, dec_chars, get_response_name, status_line, type_line, length_line, print, write_headers,
}
use mini_web_srv.Http.Response.Laws.{write_headers-fits}
use mini_web_srv.Http.Response.Space.{write_headers-bounded, write_headers-none}

abbrev garbage : ℕ → ℕ
garbage i = 7

abbrev page : Response
page = record {
  code = 200;
  content_type = codes "text/html";
  charset = none;
  length = some 12;
  extra = some (codes "A", codes "b") ∷ none ∷ [];
}

write_headers-fits_example :
    write_headers garbage 4094 page (codes "s") true none
    ≡ some (
        codes
          "HTTP/1.1 200 OK\r\nServer: s\r\nContent-Type: text/html\r\nAccess-Control-Allow-Origin: *\r\nContent-Length: 12\r\nA: b\r\n\r\n")
unfolding status_line type_line length_line dec_chars get_response_name
write_headers-fits_example =
    write_headers-fits garbage 4094 page (codes "s") true none (omega arith) (omega arith)

-- The second extra header does not fit.
abbrev full : Response
full = record page {
  extra = some (codes "A", codes "b") ∷ some (codes "C", replicate 90 b'd') ∷ [];
}

write_headers-bounded_example :
    (out : Bytes) × (write_headers garbage 100 full (codes "s") false none ≡ some out)
    × (length out ≤ 102)
unfolding status_line type_line length_line dec_chars get_response_name
write_headers-bounded_example =
    write_headers-bounded garbage 100 full (codes "s") false none (omega arith)
      (omega arith, (omega arith, tt)) (omega arith)

write_headers-none_example : write_headers garbage 40 page (codes "s") false none ≡ none
unfolding status_line type_line dec_chars get_response_name
write_headers-none_example = write_headers-none garbage 40 page (codes "s") false none (omega arith)

-- The empty line is cut, although two bytes are left for it: a zero stands for its second byte.
cut_sample :
    print garbage 10 (codes "\r\n") (codes "12345678") ≡ some (codes "12345678\r" ++ (0 ∷ []))
unfolding print tabulate
cut_sample = refl
