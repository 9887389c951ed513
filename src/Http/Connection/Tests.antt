-- ===== src/Http/Connection/Tests.antt =====
-- The theorems on a connection at concrete inputs.
use mini_web_srv.Base.{
  ◌≡◌, ◌≤◌, ◌+◌, ◌↔◌, refl, true, none, some, List, [], ◌∷◌, Bytes, arith, codes, replicate,
}
use mathlib.Core.List.{flatten}
use mini_web_srv.ReadBuff.{Buff}
use mini_web_srv.Query.Params.{str_eq}
use mini_web_srv.Http.RequestLine.{
  version_11, get, split_at, parse_request_line, parse_resource, parse_method, parse_version,
}
use mini_web_srv.Http.RequestLine.RoundTrip.{lacks-Lacks}
use mini_web_srv.Http.HeaderLine.{
  extract_header, skip_spaces, c_string, to_lower, parse_header, find_name, get_header_name,
}
use mini_web_srv.Http.Head.{fresh_head, scan, scan_byte}
use mini_web_srv.Http.Head.Text.{is_newline}
use mini_web_srv.Http.Connection.{
  Env, Idle, waits, protocol_loop, reset_request, is_keep_alive, any_close, asks_close,
}
use mini_web_srv.Http.Connection.Pipelined.{Sent, sent_handled, IsAnswered, protocol_loop-texts}
use mini_web_srv.Http.Connection.Silence.{steps, steps_iff, elapsed}

abbrev storage : Buff
storage = record { mem = replicate 96 0; read_pos = 0; relevant = 0; data_end = 0; req_end = 96 }

abbrev env : Env
env = record {
  garbage = λ n. 0;
  to_number = λ t. none;
  max_post_body_length = 10;
  read_buff_size = 96;
  respond = λ h. true;
}

abbrev line : Bytes
line = codes "GET /a HTTP/1.1\r"

abbrev host : Bytes
host = codes "Host: b\r"

abbrev sent : Sent
sent = record {
  first = line;
  lines = host ∷ [];
  request = record { method = get; resource = codes "/a"; query = []; version = version_11 };
}

-- Two requests and the start of a third one; the reads are cut in the lines.
abbrev reads : List Bytes
reads =
    codes "GET /a HT"
    ∷ codes "TP/1.1\r\nHost: b\r\n\r\nGET /a HTTP/1.1\r\nHo"
    ∷ codes "st: b\r\n\r\nGET"
    ∷ []

protocol_loop-texts_example :
    protocol_loop env 3 storage reads ≡ some (sent_handled sent ∷ sent_handled sent ∷ [], waits)
unfolding flatten parse_request_line parse_resource parse_method parse_version split_at str_eq
    is_keep_alive any_close asks_close extract_header skip_spaces c_string to_lower parse_header
    find_name get_header_name scan scan_byte
protocol_loop-texts_example =
    let answered : IsAnswered env sent = (
      (
        (lacks-Lacks is_newline line refl, omega arith),
        ((lacks-Lacks is_newline host refl, omega arith), tt),
      ),
      refl,
      refl,
      refl,
      refl,
    ) in
    protocol_loop-texts env 3 storage reads (sent ∷ sent ∷ []) (codes "GET")
      (record (fresh_head reset_request) { line = codes "GET" }) (omega arith)
      (omega arith, (omega arith, (omega arith, tt))) (omega arith) refl (answered, (answered, tt))
      refl (omega arith)

abbrev idle : Idle Buff
idle = record { next_conn = none; silent_time = 5; is_deletable = true; is_open = true }

steps_iff_example :
    ((steps 30 10 2 idle).is_open ≡ true) ↔ ((idle.is_open ≡ true) × (5 + elapsed 10 2 ≤ 30))
steps_iff_example = steps_iff 30 10 2 idle refl (omega arith) (omega arith)
