-- ===== src/Query/Parts/Tests.antt =====
-- Runs of the part reader, and the theorems at concrete inputs.
use mini_web_srv.Base.{
  ℕ, ◌≡◌, refl, Bool, true, false, some, none, Option, [], ◌∷◌, Bytes, arith, codes,
}
use mathlib.Core.List.{flatten}
use mini_web_srv.Http.RequestLine.{split_at}
use mini_web_srv.Http.RequestLine.RoundTrip.{lacks-Lacks}
use mini_web_srv.Http.HeaderLine.{
  is_cr, extract_header, skip_spaces, c_string, to_lower, parse_header, find_name, get_header_name,
}
use mini_web_srv.Http.ContentType.{parse_content_disposition, extract_disposition}
use mini_web_srv.Http.Delimited.{
  parse_delimited_key_value, parse_loop, parse_step, parse_end, is_ws,
}
use mini_web_srv.Http.Head.Text.{is_newline}
use mini_web_srv.Query.Params.{str_eq, put}
use mini_web_srv.Query.Boundary.{append, new_part}
use mini_web_srv.Query.Upload.{
  Uploader, new_uploader, default_limits, Limits, on_new_file, on_file_data, on_file_end,
}
use mini_web_srv.Query.Parts.{
  Helper, Parts, header_start, read, mode_string, mode_file, handle_events, head_line, put_file,
  get_file, append_to_current_part, start_new_part, part_loop, header_start_turn, headers_end_turn,
  parse_fm_headers, head_lines,
}
use mini_web_srv.Query.Parts.TempFile.{temp_file_helper}
use mini_web_srv.Query.Parts.Text.{AreLines}
use mini_web_srv.Query.Parts.Content.{head_text, part_text, text_part, file_part, feed}

abbrev create : ℕ → Option (Bytes × Bool)
create n = some (b'/' ∷ n ∷ [], true)

abbrev accepts : Bytes → Bytes → Bool
accepts path bytes = true

abbrev helper : Helper Uploader
helper = temp_file_helper create accepts

abbrev small : Limits
small = record { max_upload_size = 3; max_total_upload_size = 10 }

abbrev start : Limits → Parts Uploader
start l = record {
  state = header_start;
  counter = 0;
  header_tmp = [];
  params = [];
  files = [];
  removed = [];
  target = none;
  mode = mode_string;
  helper = new_uploader l;
}

abbrev text_line : Bytes
text_line = codes "Content-Disposition: form-data; name=\"a\""

abbrev file_line : Bytes
file_line = codes "Content-Disposition: form-data; name=\"f\"; filename=\"x.txt\""

-- Two files of two bytes each: the second one is refused by a limit of three bytes for a file.
two_files_sample :
    (let one =
        (on_file_data create accepts
          (on_new_file create accepts (new_uploader small)).0
          (codes "ab")).0 in
      (on_file_data create accepts (on_new_file create accepts (on_file_end one)).0 (codes "cd")).1)
    ≡ false
unfolding on_new_file on_file_data on_file_end
two_files_sample = refl

-- Headers without a name: two more zero bytes are read behind the end.
overrun_sample :
    handle_events helper
      (start small)
      (new_part ∷ append (codes "\r\nx: y\r\n\r\n") ∷ append (0 ∷ 0 ∷ []) ∷ [])
    ≡ none
unfolding handle_events start_new_part append_to_current_part part_loop header_start_turn
    headers_end_turn parse_fm_headers head_lines head_line extract_header split_at skip_spaces
    c_string to_lower parse_header find_name get_header_name str_eq
overrun_sample = refl

text_lines : AreLines (text_line ∷ [])
text_lines =
    ((omega arith, lacks-Lacks is_newline text_line refl, lacks-Lacks is_cr text_line refl), tt)

file_lines : AreLines (file_line ∷ [])
file_lines =
    ((omega arith, lacks-Lacks is_newline file_line refl, lacks-Lacks is_cr file_line refl), tt)

text_part_example :
    handle_events helper
      (start default_limits)
      (new_part ∷ append (part_text text_line [] (codes "v")) ∷ append (codes "w") ∷ [])
    ≡ some (record (start default_limits) {
      counter = 4;
      state = read;
      header_tmp = head_text text_line [];
      mode = mode_string;
      target = some (codes "a");
      params = (codes "a", codes "vw") ∷ [];
    })
unfolding head_line extract_header split_at skip_spaces c_string to_lower parse_header find_name
    get_header_name str_eq parse_content_disposition extract_disposition parse_delimited_key_value
    parse_loop parse_step parse_end is_ws flatten put
text_part_example =
    text_part helper (start default_limits) text_line [] (codes "v") (codes "w" ∷ []) text_lines
      refl refl

file_part_example :
    handle_events helper
      (start default_limits)
      (new_part ∷ append (part_text file_line [] (codes "v")) ∷ append (codes "w") ∷ [])
    ≡ some (record (start default_limits) {
      counter = 4;
      state = read;
      header_tmp = head_text file_line [];
      helper =
          feed helper
            (on_new_file create accepts (new_uploader default_limits)).0
            (codes "v" ∷ codes "w" ∷ []);
      mode = mode_file;
      target = some (codes "f");
      files =
          (
            codes "f",
            record { mime_type = []; orig_file_name = codes "x.txt"; path = b'/' ∷ 0 ∷ [] },
          )
          ∷ [];
    })
unfolding head_line extract_header split_at skip_spaces c_string to_lower parse_header find_name
    get_header_name str_eq parse_content_disposition extract_disposition parse_delimited_key_value
    parse_loop parse_step parse_end is_ws flatten put_file get_file temp_file_helper on_new_file
file_part_example =
    file_part helper (start default_limits) file_line [] (codes "v") (codes "w" ∷ []) _ _ file_lines
      refl refl (omega arith, tt) refl
