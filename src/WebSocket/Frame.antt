-- ===== src/WebSocket/Frame.antt =====
-- WebSocket/WSConnection.cpp: `ProcessFrame`, `ProcessControlFrame` and `ProcessIncoming`.
-- A call returns the close reason, the new state and what it made happen, in order. `fault` is a
-- call through the null `MyHandler`, or an access behind the data that was received.
pub mod RoundTrip
pub mod Fragments
pub mod Closing
use mini_web_srv.Base.{
  ℕ, ◌+◌, ◌-◌, ◌*◌, ◌/◌, ◌%◌, ◌^◌, Bool, true, false, not, ◌&&◌, ◌||◌, Option, none, some, List, [],
  ◌∷◌, ◌++◌, Bytes, ltb, leb, ◌==◌, if◌then◌else◌, length, take, drop, get_or,
}
use mini_web_srv.WebSocket.Mask.{load32, unmask}

-- `CLOSEREASON`.
abbrev pub cr_none : ℕ
cr_none = 0

abbrev pub cr_exit : ℕ
cr_exit = 1001

abbrev pub cr_prot_error : ℕ
cr_prot_error = 1002

abbrev pub cr_conn_error : ℕ
cr_conn_error = 1006

abbrev pub cr_size_limit : ℕ
cr_size_limit = 1009

-- `OPCODENAME`.
abbrev pub ocn_continuation : ℕ
ocn_continuation = 0

abbrev pub ocn_text : ℕ
ocn_text = 1

abbrev pub ocn_close : ℕ
ocn_close = 8

abbrev pub ocn_ping : ℕ
ocn_ping = 9

abbrev pub ocn_pong : ℕ
ocn_pong = 10

abbrev pub ocn_control_begin : ℕ
ocn_control_begin = 8

abbrev pub max_frame_size : ℕ
max_frame_size = 16 * 1024 * 1024

abbrev pub max_fragmented_size : ℕ
max_fragmented_size = 16 * 1024 * 1024

abbrev pub unknown_frame_length : ℕ
unknown_frame_length = 2 ^ 64 - 1

pub data MessageType : Type 0 where
  text binary : MessageType

abbrev pub get_message_type : ℕ → MessageType
get_message_type op = if op == ocn_text then text else binary

-- `OnMessage`, `OnClose`, a frame committed to the write queue, and `StartAsyncWrite`.
pub data Event : Type 0 where
  message : MessageType → Bytes → Event
  closed : ℕ → Event
  queued : Bytes → Event
  write_started : Event

pub record Conn : Type 0 where
  pub frame_length : ℕ
  pub frag_op : ℕ
  pub frag_data : Bytes
  pub handler : Bool

-- The constructor, with a handler.
abbrev pub fresh_conn : Conn
fresh_conn = record {
  frame_length = unknown_frame_length;
  frag_op = ocn_continuation;
  frag_data = [];
  handler = true;
}

pub data Outcome : Type 0 where
  returned : ℕ → Conn → List Event → Outcome
  fault : Outcome

-- `FLAG_FIN | OpCode`, and an empty payload.
unfoldable pub control_frame : ℕ → Bytes
control_frame op = (128 + op) ∷ 0 ∷ []

-- `SendCloseInternal`: the four bytes that are committed, and the two bytes that the store of the
-- reason at `(unsigned short *)Buff + 2` writes behind them. `w2` and `w3` are what the two payload
-- bytes held before.
unfoldable pub close_frame : ℕ → ℕ → ℕ → Bytes × Bytes
close_frame w2 w3 reason =
    ((128 + ocn_close) ∷ 2 ∷ w2 ∷ w3 ∷ [], reason / 2 ^ 8 % 2 ^ 8 ∷ reason % 2 ^ 8 ∷ [])

-- `MyHandler->OnMessage`.
abbrev pub on_message : Conn → MessageType → Bytes → Outcome
on_message c t payload = if c.handler then returned cr_none c (message t payload ∷ []) else fault

unfoldable pub close_code : Bytes → ℕ
close_code (hi ∷ lo ∷ rest) = hi * 2 ^ 8 + lo
close_code payload = 0

abbrev pub is_masked : ℕ → Bool
is_masked b1 = b1 / 2 ^ 7 % 2 == 1

-- `PayloadPos - Buff`.
unfoldable pub header_length : ℕ → ℕ
header_length b1 =
    (if ltb (b1 % 2 ^ 7) 126 then 2 else if b1 % 2 ^ 7 == 126 then 4 else 10)
    + (if is_masked b1 then 4 else 0)

-- `*(const unsigned int *)PayloadPos`, before the mask is skipped.
abbrev pub mask_key : Bytes → ℕ → ℕ
mask_key buff pos =
    load32 (get_or buff pos 0) (get_or buff (pos + 1) 0) (get_or buff (pos + 2) 0)
      (get_or buff (pos + 3) 0)

-- The frame's length, or how many bytes are needed to tell.
pub data FrameLength : Type 0 where
  known need : ℕ → FrameLength

unfoldable pub big16 : Bytes → ℕ
big16 buff = get_or buff 0 0 * 2 ^ 8 + get_or buff 1 0

unfoldable pub big64 : Bytes → ℕ
unfolding big16
big64 buff =
    ((big16 buff * 2 ^ 16 + big16 (drop 2 buff)) * 2 ^ 16 + big16 (drop 4 buff)) * 2 ^ 16
    + big16 (drop 6 buff)

unfoldable pub frame_length_of : Bytes → FrameLength
unfolding big16 big64
frame_length_of buff =
    let marker = get_or buff 1 0 % 2 ^ 7 in
    let mask_len = if is_masked (get_or buff 1 0) then 4 else 0 in
    if ltb (length buff) 2
    then need 2
    else if ltb marker 126
    then known (marker + 2 + mask_len)
    else if marker == 126
    then (if ltb (length buff) 4 then need 4 else known (big16 (drop 2 buff) + 2 + 2 + mask_len))
    else if ltb (length buff) 10
    then need 10
    else known ((big64 (drop 2 buff) + 2 + 2 + mask_len) % 2 ^ 64)

-- What `ProcessIncoming` leaves: the outcome, the bytes consumed, and a request for more data.
pub record Incoming : Type 0 where
  pub outcome : Outcome
  pub consumed : ℕ
  pub requested : Option ℕ

-- `CurrFrameLength=UnknownFrameLength` behind the call of `ProcessFrame`.
abbrev pub frame_done : Outcome → Outcome
frame_done (returned reason c es) =
    returned reason (record c { frame_length = unknown_frame_length }) es
frame_done fault = fault

module _ (w2 w3 : ℕ) where
  -- The close handshake that `ProcessControlFrame` and `OnProtocolError` share.
  abbrev pub close_with : Conn → ℕ → Conn × List Event
  close_with c reason = (
    record c { handler = false },
    closed reason ∷ queued (close_frame w2 w3 reason).0 ∷ write_started ∷ [],
  )

  unfoldable pub process_control_frame : Conn → ℕ → Bytes → Outcome
  unfolding close_code control_frame
  process_control_frame c op payload =
      if op == ocn_pong
      then returned cr_none c []
      else if op == ocn_ping
      then returned cr_none c (queued (control_frame ocn_pong) ∷ write_started ∷ [])
      else if op == ocn_close
      then (if c.handler
          then (let (c', es) = close_with c (close_code payload) in returned cr_none c' es)
          else returned cr_none c [])
      else returned cr_prot_error c []

  unfoldable pub on_protocol_error : Conn → ℕ → Conn × List Event
  on_protocol_error c reason = if c.handler then close_with c reason else (c, [])

  -- The last part of `ProcessFrame`: what a payload means.
  unfoldable pub dispatch : Conn → Bool → ℕ → Bytes → Outcome
  unfolding process_control_frame
  dispatch c is_fin op payload =
      let too_long = ltb max_fragmented_size (length c.frag_data + length payload) in
      let continues = not (c.frag_op == ocn_continuation) && op == ocn_continuation in
      let starts = c.frag_op == ocn_continuation && not (op == ocn_continuation) in
      if is_fin
      then (if ltb op ocn_control_begin
          then (if continues
              then (if too_long
                  then returned cr_size_limit c []
                  else on_message (record c { frag_op = ocn_continuation; frag_data = [] })
                      (get_message_type c.frag_op) (c.frag_data ++ payload))
              else if starts
              then on_message c (get_message_type op) payload
              else returned cr_prot_error c [])
          else process_control_frame c op payload)
      else if ltb op ocn_control_begin
      then (if continues
          then (if too_long
              then returned cr_size_limit c []
              else returned cr_none (record c { frag_data = c.frag_data ++ payload }) [])
          else if starts
          then returned cr_none (record c { frag_data = payload; frag_op = op }) []
          else returned cr_prot_error c [])
      else returned cr_prot_error c []

  -- `buff` is all the data that was received. `Length -= PayloadPos - Buff` is on `unsigned int`.
  -- Frames without a mask are refused only if `AllowMaskedOnly` is false, and it is true.
  unfoldable pub process_frame : Conn → Bytes → ℕ → Outcome
  process_frame c buff frame_len =
      let b0 = get_or buff 0 0 in
      let b1 = get_or buff 1 0 in
      let pos = header_length b1 in
      let len = (frame_len + 2 ^ 32 - pos) % 2 ^ 32 in
      let raw = take len (drop pos buff) in
      let payload = if is_masked b1 then unmask (mask_key buff (pos - 4)) raw else raw in
      if ltb (length buff) (pos + len)
      then fault
      else dispatch c (b0 / 2 ^ 7 % 2 == 1) (b0 % 2 ^ 4) payload

  unfoldable pub process_known : Conn → Bytes → ℕ → Incoming
  process_known c buff len =
      let c' = record c { frame_length = len } in
      if ltb max_frame_size len
      then record { outcome = returned cr_size_limit c' []; consumed = 0; requested = none }
      else if ltb (length buff) len
      then record { outcome = returned cr_none c' []; consumed = 0; requested = some len }
      else record {
        outcome = frame_done (process_frame c' buff len);
        consumed = len;
        requested = none;
      }

  unfoldable pub process_length : Conn → Bytes → FrameLength → Incoming
  process_length c buff (need n) = record {
    outcome = returned cr_none c [];
    consumed = 0;
    requested = some n;
  }
  process_length c buff (known len) = process_known c buff len

  -- Every path of the loop's body returns, so it runs once.
  unfoldable pub process_incoming : Conn → Bytes → Incoming
  unfolding process_length
  process_incoming c buff = process_length c buff (
      if c.frame_length == unknown_frame_length then frame_length_of buff else known c.frame_length)
