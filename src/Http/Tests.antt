-- ===== src/Http/Tests.antt =====
-- Runs of the request line parser and of the body writers, and the theorems at concrete inputs.
use mini_web_srv.Base.{
  replicate, none, ℕ, ◌≡◌, refl, true, false, some, List, [], ◌∷◌, ◌++◌, Bytes, arith, leb, length,
  codes,
}
use mini_web_srv.Query.Params.{str_eq}
use mini_web_srv.Query.Url.Forms.{put_all}
use mini_web_srv.Http.RequestLine.{
  Request, get, unknown, version_11, parse_method, parse_request_line,
}
use mini_web_srv.Http.RequestLine.RoundTrip.{query_line, parse_request_line-query_line}
use mini_web_srv.Http.Body.{Read, length_body, chunk, hex_chars, hex_char, chunked_body}
use mini_web_srv.Http.Body.Chunked.{read_chunks, content, chunked_body-read_chunks}
use mini_web_srv.Http.Body.Length.{all_bytes, length_body-all_bytes}
use mini_web_srv.Http.RequestLine.{split_at}
use mini_web_srv.Http.HeaderLine.{
  host, content_length, get_header_name, find_name, parse_header, to_lower, c_string, skip_spaces,
  extract_header,
}
use mini_web_srv.Http.HeaderLine.Laws.{extract_header-known}
use mini_web_srv.Http.Delimited.{
  is_ws, parse_step, parse_loop, parse_end, parse_delimited_key_value,
}
use mini_web_srv.Http.Delimited.Laws.{params_text, to_pairs, parse_delimited_key_value-params_text}

abbrev fresh : Request
fresh = record { method = unknown; resource = []; query = []; version = version_11 }

methods : (parse_method (codes "GET") ≡ get) × (parse_method (codes "get") ≡ unknown)
unfolding parse_method str_eq
methods = (refl, refl)

parse_request_line-query_line_example :
    parse_request_line fresh
      (query_line (codes "GET") (codes "/a") ((codes "b", codes " ") ∷ []) version_11)
    ≡ some (
      record {
        method = parse_method (codes "GET");
        resource = codes "/a";
        query = put_all ((codes "b", codes " ") ∷ []) [];
        version = version_11;
      },
      true,
    )
parse_request_line-query_line_example =
    parse_request_line-query_line fresh (codes "GET") (codes "/a") ((codes "b", codes " ") ∷ [])
      version_11 (refl, (refl, (refl, tt))) (refl, (refl, tt))
      ((omega arith, tt), (omega arith, tt), tt)

abbrev reads : List Read
reads =
    record { bytes = codes "Hello"; is_finished = false }
    ∷ record { bytes = codes " world"; is_finished = true }
    ∷ []

chunked_sample :
    chunked_body reads ≡ some (codes "00000005\r\nHello\r\n00000006\r\n world\r\n0\r\n\r\n", 11)
unfolding chunked_body chunk hex_chars hex_char
chunked_sample = refl

chunked_body-read_chunks_example :
    (out : Bytes) × (total : ℕ) × (chunked_body reads ≡ some (out, total))
    × (read_chunks 3 out ≡ some (content reads, []))
    × (total ≡ length (content reads))
chunked_body-read_chunks_example =
    chunked_body-read_chunks reads refl (omega arith, (omega arith, tt))

abbrev hello_read : Read
hello_read = record { bytes = codes "Hello"; is_finished = false }

abbrev world_read : Read
world_read = record { bytes = codes " world"; is_finished = true }

length_body-all_bytes_example :
    length_body 11 ((hello_read ∷ []) ++ world_read ∷ [])
    ≡ some (record {
      out = all_bytes (hello_read ∷ []) ++ world_read.bytes;
      total = length (all_bytes (hello_read ∷ []) ++ world_read.bytes);
      keep = leb 11 (length (all_bytes (hello_read ∷ []) ++ world_read.bytes));
    })
length_body-all_bytes_example =
    length_body-all_bytes 11 (hello_read ∷ []) world_read (refl, tt) refl (omega arith)

header_sample :
    extract_header (codes "Content-LENGTH:  12\r")
    ≡ some (record { name = codes "content-length"; value = codes "12"; int_name = content_length })
unfolding extract_header split_at skip_spaces c_string to_lower parse_header find_name
    get_header_name str_eq
header_sample = refl

no_break_sample : extract_header (codes "Host: a") ≡ none
unfolding extract_header split_at skip_spaces
no_break_sample = refl

extract_header-known_example :
    extract_header (codes "HOST" ++ (b':' ∷ (replicate 1 b' ' ++ (codes "a" ++ b'\r' ∷ []))))
    ≡ some (record { name = get_header_name host; value = codes "a"; int_name = host })
unfolding get_header_name to_lower skip_spaces
extract_header-known_example =
    extract_header-known host (codes "HOST") (codes "a") 1 (refl, (refl, (refl, (refl, tt)))) refl
      (record { no_zero = (refl, tt); no_break = (refl, tt); no_space = refl })

delimited_sample :
    parse_delimited_key_value (codes "form-data; name=a; x")
    ≡ (codes "form-data", none) ∷ (codes "name", some (codes "a")) ∷ []
unfolding parse_delimited_key_value parse_loop parse_step parse_end is_ws
delimited_sample = refl

abbrev name_params : List (Bytes × Bytes)
name_params = (codes "n", codes "a b") ∷ []

parse_delimited_key_value-params_text_example :
    parse_delimited_key_value (params_text name_params) ≡ to_pairs name_params
unfolding is_ws
parse_delimited_key_value-params_text_example =
    parse_delimited_key_value-params_text name_params ((refl, tt), (refl, (refl, (refl, tt))), tt)
