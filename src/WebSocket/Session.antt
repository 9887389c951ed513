-- ===== src/WebSocket/Session.antt =====
-- WebSocket/WSConnection.cpp: the connection's callbacks, over the read buffer and the frame parser.
-- The socket's `close`, the handler's own code and the write queue's contents are outside: an event
-- says what was handed to them, and a callback that starts writes is given how many buffers the queue
-- has for it.
pub mod Laws
pub mod Idle
use mini_web_srv.Base.{
  ℕ, ◌+◌, ◌-◌, ◌*◌, ◌%◌, ◌^◌, Bool, true, false, not, ◌&&◌, Option, none, some, List, [], ◌∷◌, ◌++◌,
  Bytes, ltb, ◌==◌, if◌then◌else◌,
}
use mini_web_srv.ReadBuff.{Buff, create, receive, request_data, consume, available_data}
use mini_web_srv.WebSocket.Frame.{
  Conn, fresh_conn, Outcome, returned, fault, Incoming, Event, closed, cr_none, cr_exit,
  cr_conn_error, process_incoming, write_started, on_protocol_error,
}

abbrev pub max_silent_time : ℕ
max_silent_time = 1 * 60 * 60

-- `safe_read` and `safe_write` are the two bits of `SafeStates`. `reading` and `writes` are what the
-- event loop has: whether an `async_read_some` is under way, and how many `async_write`s are.
pub record Session : Type 0 where
  pub conn : Conn
  pub buff : Buff
  pub silent_time : ℕ
  pub safe_read : Bool
  pub safe_write : Bool
  pub is_open : Bool
  pub reading : Bool
  pub writes : ℕ

-- The constructor starts a read.
unfoldable pub start : Bytes → Session
unfolding create
start static_buff = record {
  conn = fresh_conn;
  buff = create static_buff;
  silent_time = 0;
  safe_read = false;
  safe_write = true;
  is_open = true;
  reading = true;
  writes = 0;
}

-- `StartAsyncWrite`, where `Pop` gives `k` buffers until it gives none.
unfoldable pub start_writes : ℕ → Session → Session
start_writes k s =
    if s.safe_write then record s { safe_write = k == 0; writes = s.writes + k } else s

-- The calls of `StartAsyncWrite` among the events.
unfoldable pub start_all : ℕ → List Event → Session → Session
start_all k [] s = s
start_all k (write_started ∷ es) s = start_all k es (start_writes k s)
start_all k (_ ∷ es) s = start_all k es s

-- What a callback leaves: the session, the events, and its result (`true` where it has none). A crash
-- leaves the events before it.
pub data Reply : Type 0 where
  went : Session → List Event → Bool → Reply
  crashed : List Event → Reply

-- `MyHandler->OnClose(CR_CONN_ERROR)` with its guard.
abbrev pub drop_handler : Conn → Conn × List Event
drop_handler c =
    if c.handler then (record c { handler = false }, closed cr_conn_error ∷ []) else (c, [])

abbrev pub all_safe : Session → Bool
all_safe s = s.safe_read && s.safe_write

-- What the event loop and the server can call: `OnRead`, `OnWrite`, the two that `PostWriteReq` and
-- `PostCloseReq` post, `Stop` and `OnStep`. The last number is how many buffers the queue gives, if the
-- call starts writes.
pub data Input : Type 0 where
  read : Bytes → ℕ → Input
  read_failed write_failed : Input
  write_done posted_write posted_close stopped : ℕ → Input
  stepped : ℕ → Input

abbrev pub after_events : List Event → Reply → Reply
after_events es (crashed es') = crashed (es ++ es')
after_events es (went s es' b) = went s (es ++ es') b

abbrev pub followed_by : (Session → Reply) → Reply → Reply
followed_by k (crashed es) = crashed es
followed_by k (went s es b) = after_events es (k s)

module _ (garbage : ℕ → ℕ) (w2 w3 : ℕ) where
  -- The read buffer after `ProcessIncoming`.
  unfoldable pub settle : Buff → Incoming → Buff
  settle b r = elim r.requested [
    | none ↦ if r.consumed == 0 then b else (consume b r.consumed false).0
    | some n ↦ (request_data garbage b n).0
  ]

  -- `OnRead` behind the call of `ProcessIncoming`, on the outcome.
  unfoldable pub read_reply : ℕ → Session → Buff → Incoming → Outcome → Reply
  unfolding settle
  read_reply k s b r fault = crashed []
  read_reply k s b r (returned reason c es) =
      let s' = start_all k es (record s { conn = c; buff = settle b r; silent_time = 0 }) in
      if reason == cr_none
      then went s' es true
      else (let (c', es') = on_protocol_error w2 w3 c reason in
          went (record (start_all k es' s') { conn = c'; safe_read = true; reading = false })
            (es ++ es') true)

  unfoldable pub on_read : Session → Bytes → ℕ → Reply
  on_read s bytes k =
      let b = receive s.buff bytes in
      let r = process_incoming w2 w3 s.conn (available_data b) in read_reply k s b r r.outcome

  unfoldable pub on_read_error : Session → Reply
  on_read_error s =
      let (c, es) = drop_handler s.conn in
      went (record s { conn = c; safe_read = true; reading = false }) es true

  unfoldable pub on_write : Session → ℕ → Reply
  on_write s k =
      went (start_writes k (record s { safe_write = true; writes = s.writes - 1 })) [] true

  unfoldable pub on_write_error : Session → Reply
  on_write_error s =
      let (c, es) = drop_handler s.conn in
      went (record s { conn = c; safe_write = true; writes = s.writes - 1 }) es true

  unfoldable pub start_async_write_external : Session → ℕ → Reply
  start_async_write_external s k = went (start_writes k s) [] true

  -- The handler is dropped, and is not told.
  unfoldable pub start_async_write_close_external : Session → ℕ → Reply
  start_async_write_close_external s k =
      went (start_writes k (record s { conn = record s.conn { handler = false } })) [] true

  -- The second test of `MyHandler` is made after `OnProtocolError` has dropped it.
  unfoldable pub stop : Session → ℕ → Reply
  stop s k =
      let (c, es) = on_protocol_error w2 w3 s.conn cr_exit in
      let (c', es') = drop_handler c in
      went (record (start_all k es s) { conn = c'; is_open = false }) (es ++ es') true

  unfoldable pub on_step : Session → ℕ → Reply
  on_step s interval =
      let silent = (s.silent_time + interval) % 2 ^ 32 in
      let s' = record s { silent_time = silent } in
      if ltb max_silent_time silent
      then (let (c, es) = drop_handler s.conn in
          went (record s' { conn = c; is_open = false }) es (not (all_safe s)))
      else if s.conn.handler
      then went s' [] true
      else went s' [] (not (all_safe s))

  unfoldable pub handle : Session → Input → Reply
  unfolding on_read on_read_error on_write on_write_error start_async_write_external
      start_async_write_close_external stop on_step
  handle s (read bytes k) = on_read s bytes k
  handle s read_failed = on_read_error s
  handle s (write_done k) = on_write s k
  handle s write_failed = on_write_error s
  handle s (posted_write k) = start_async_write_external s k
  handle s (posted_close k) = start_async_write_close_external s k
  handle s (stopped k) = stop s k
  handle s (stepped n) = on_step s n

  -- A history of calls, with all that it made happen. Nothing follows a crash.
  unfoldable pub run : Session → List Input → Reply
  run s [] = went s [] true
  run s (i ∷ is) = followed_by (λ s'. run s' is) (handle s i)
