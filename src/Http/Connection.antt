-- ===== src/Http/Connection.antt =====
-- Connection.cpp, `ProtocolHandler` with `ResetRequestData`, and `OnStep`: the requests of a connection,
-- one after the other. What `ResponseHandler` returns is the parameter `respond`; it leaves the read
-- buffer and the reads as they are. The loop is on fuel for its rounds.
pub mod Laws
pub mod Pipelined
pub mod Silence
mod Tests
use mini_web_srv.Base.{
  ℕ, zero, suc, ◌+◌, ◌%◌, ◌^◌, Bool, true, false, not, ◌&&◌, Option, none, some, List, [], ◌∷◌,
  ◌++◌, Bytes, ltb, if◌then◌else◌, length, codes,
}
use mini_web_srv.ReadBuff.{Buff, reset_relevant}
use mini_web_srv.Query.Params.{ParamMap}
use mini_web_srv.Query.Url.{add_url_encoded}
use mini_web_srv.Http.RequestLine.{Request, Method, unknown, post, Version, version_10, version_11}
use mini_web_srv.Http.HeaderLine.{Header, HeaderName, connection}
use mini_web_srv.Http.Compare.{compare_lowercase_simple}
use mini_web_srv.Http.Head.{Head, Outcome, headers_done, closed, overran, waiting, header_handler}
use mini_web_srv.Http.Content.{
  Content, rejected, no_content, whole, parts, stalled, content_handler,
}

-- What `ResetRequestData` leaves for the next request.
abbrev pub reset_request : Request
reset_request = record { method = unknown; resource = []; query = []; version = version_11 }

abbrev pub is_post : Method → Bool
is_post post = true
is_post _ = false

abbrev pub is_connection : HeaderName → Bool
is_connection connection = true
is_connection _ = false

-- A header asks for the end of the connection. The number of a header without an end is unknown.
unfoldable pub asks_close : Option Header → Bool
asks_close none = false
asks_close (some h) = is_connection h.int_name && compare_lowercase_simple h.value (codes "close")

unfoldable pub any_close : List (Option Header) → Bool
any_close [] = false
any_close (h ∷ hs) = let rest = any_close hs in if asks_close h then true else rest

-- `IsKeepAlive` behind a response.
unfoldable pub is_keep_alive : Version → List (Option Header) → Bool
is_keep_alive version_10 hs = false
is_keep_alive version_11 hs = not (any_close hs)

-- A request as the response handler gets it.
pub record Handled : Type 0 where
  pub request : Request
  pub headers : List (Option Header)
  pub content : Option Content

abbrev pub handled : Head → Option Content → Handled
handled head c = record { request = head.request; headers = head.headers; content = c }

-- Why the loop ends: the socket is closed, a read behind the end of a query or a form, or a read that has not
-- come.
pub data End : Type 0 where
  ends : End
  overruns : End
  waits : End

-- What the configuration gives, and what is outside.
pub record Env : Type 0 where
  pub garbage : ℕ → ℕ
  pub to_number : Bytes → Option ℕ
  pub max_post_body_length : ℕ
  pub read_buff_size : ℕ
  pub respond : Handled → Bool

-- A request that is read whole, and what the loop does behind it.
unfoldable pub answer :
    Env
    → (Buff → List Bytes → Option (List Handled × End))
    → Handled
    → Buff
    → List Bytes
    → Option (List Handled × End)
answer env next h b reads =
    let rest = next (reset_relevant b) reads in
    if env.respond h && is_keep_alive h.request.version h.headers
    then elim rest [ none ↦ none | some (hs, e) ↦ some (h ∷ hs, e) ]
    else some (h ∷ [], ends)

-- The query behind a content that is not multipart. `none` is a read behind the end of the content, see
-- `add_url_encoded`.
unfoldable pub content_query : ParamMap → Bool → Bytes → Option ParamMap
content_query query is_form bytes = if is_form then add_url_encoded query bytes else some query

-- A request with the query that its content has filled.
abbrev pub with_query : Head → ParamMap → Head
with_query head params = record head { request = record head.request { query = params } }

-- Behind the headers. The values of the headers are bytes here: the code's pointers into the read
-- buffer are good only as long as `RequestData` does not move it. What a multipart content adds to the
-- query is in Query/Form.
unfoldable pub after_headers :
    Env
    → (Buff → List Bytes → Option (List Handled × End))
    → Head
    → Buff
    → List Bytes
    → Option (List Handled × End)
after_headers env next head b reads =
    if is_post head.request.method
    then elim (content_handler env.garbage env.to_number env.max_post_body_length env.read_buff_size
        [] head.headers b reads) [
          | none ↦ none
          | some c ↦ elim c [
            | rejected ↦ some ([], ends)
            | stalled ↦ some ([], waits)
            | no_content ↦ answer env next (handled head (some no_content)) b reads
            | whole form bytes b' rs ↦ elim (content_query head.request.query form bytes) [
              | none ↦ some ([], overruns)
              | some params ↦
                  answer env next (handled (with_query head params) (some (whole form bytes b' rs)))
                    b' rs
            ]
            | parts boundary chunks b' rs ↦
                answer env next (handled head (some (parts boundary chunks b' rs))) b' rs
          ]
        ]
    else answer env next (handled head none) b reads

unfoldable pub protocol_loop : Env → ℕ → Buff → List Bytes → Option (List Handled × End)
protocol_loop env zero b reads = none
protocol_loop env (suc fuel) b reads = elim (header_handler reset_request b reads) [
  | none ↦ none
  | some o ↦ elim o [
    | closed ↦ some ([], ends)
    | overran ↦ some ([], overruns)
    | waiting ↦ some ([], waits)
    | headers_done head b' rs ↦ after_headers env (protocol_loop env fuel) head b' rs
  ]
]

-- The members that `OnStep` looks at; `C` is the type of a connection to go on with.
pub record Idle (C : Type 0) : Type 0 where
  pub next_conn : Option C
  pub silent_time : ℕ
  pub is_deletable : Bool
  pub is_open : Bool

-- `OnStep`: whether the connection stays, and the connection to go on with.
unfoldable pub on_step : {C : Type 0} → ℕ → Idle C → ℕ → Idle C × Bool × Option C
on_step max_silent_time s interval =
    let before : ℕ = elim s.next_conn [ none ↦ s.silent_time | some c ↦ max_silent_time ] in
    let silent = (before + interval) % 2 ^ 32 in
    let s' = record s { next_conn = none; silent_time = silent } in
    if ltb max_silent_time silent
    then (record s' { is_open = false }, not s.is_deletable, s.next_conn)
    else (s', true, s.next_conn)

-- `Start`, and the end of the protocol handler.
unfoldable pub start : {C : Type 0} → Idle C → Idle C
start s = record s { is_deletable = false }

unfoldable pub end_handler : {C : Type 0} → Idle C → Idle C
end_handler s = record s { is_open = false; is_deletable = true }

unfoldable pub stop : {C : Type 0} → Idle C → Idle C
stop s = record s { is_open = false }
