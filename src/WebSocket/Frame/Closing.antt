-- ===== src/WebSocket/Frame/Closing.antt =====
-- The handler is told of the end of a connection once, and the bound on assembled messages.
use mini_web_srv.Base.{
  ℕ, suc, ◌+◌, ◌≡◌, Bool, true, false, List, [], ◌∷◌, ◌++◌, Bytes, arith, ltb, if◌then◌else◌,
  length,
}
use mini_web_srv.WebSocket.Frame.{
  Conn, Outcome, returned, fault, Event, message, closed, queued, write_started, dispatch,
  process_control_frame, process_frame, process_known, process_length, process_incoming,
  FrameLength, need, known, frame_done,
}

-- How often `OnClose` is called.
abbrev pub closings : List Event → ℕ
closings [] = 0
closings (closed r ∷ es) = suc (closings es)
closings (e ∷ es) = closings es

abbrev pub has_handler : Conn → ℕ
has_handler c = if c.handler then 1 else 0

-- `OnClose` is called exactly when the handler is dropped.
abbrev pub ClosesOnce : Conn → Outcome → Type 0
ClosesOnce c (returned reason c' es) = closings es + has_handler c' ≡ has_handler c
ClosesOnce c fault = Unit {0}

process_control_frame-ClosesOnce :
    (w2 w3 : ℕ) (c : Conn) (op : ℕ) (p : Bytes) → ClosesOnce c (process_control_frame w2 w3 c op p)
unfolding process_control_frame
process_control_frame-ClosesOnce w2 w3 c op p = ground arith

dispatch-ClosesOnce :
    (w2 w3 : ℕ) (c : Conn) (fin : Bool) (op : ℕ) (p : Bytes)
    → ClosesOnce c (dispatch w2 w3 c fin op p)
unfolding dispatch
dispatch-ClosesOnce w2 w3 c fin op p = ground (arith, process_control_frame-ClosesOnce w2 w3 c op p)

frame_done-ClosesOnce : (c : Conn) (o : Outcome) → ClosesOnce c o → ClosesOnce c (frame_done o)
frame_done-ClosesOnce c (returned reason c' es) h = h
frame_done-ClosesOnce c fault h = tt

guarded-ClosesOnce :
    (b : Bool) (c : Conn) (o : Outcome) → ClosesOnce c o → ClosesOnce c (if b then fault else o)
guarded-ClosesOnce true c o h = tt
guarded-ClosesOnce false c o h = h

process_frame-ClosesOnce :
    (w2 w3 : ℕ) (c : Conn) (buff : Bytes) (n : ℕ) → ClosesOnce c (process_frame w2 w3 c buff n)
unfolding process_frame
process_frame-ClosesOnce w2 w3 c buff n =
    guarded-ClosesOnce (ltb (length buff) _) c _ (dispatch-ClosesOnce w2 w3 c _ _ _)

process_known-ClosesOnce :
    (w2 w3 : ℕ) (c : Conn) (buff : Bytes) (n : ℕ)
    → ClosesOnce c (process_known w2 w3 c buff n).outcome
unfolding process_known
process_known-ClosesOnce w2 w3 c buff n = ground (
  arith,
  frame_done-ClosesOnce c _ (process_frame-ClosesOnce w2 w3 (record c { frame_length = n }) buff n),
)

process_length-ClosesOnce :
    (w2 w3 : ℕ) (c : Conn) (buff : Bytes) (l : FrameLength)
    → ClosesOnce c (process_length w2 w3 c buff l).outcome
unfolding process_length
process_length-ClosesOnce w2 w3 c buff (need n) = omega arith
process_length-ClosesOnce w2 w3 c buff (known n) = process_known-ClosesOnce w2 w3 c buff n

pub process_incoming-ClosesOnce :
    (w2 w3 : ℕ) (c : Conn) (buff : Bytes) → ClosesOnce c (process_incoming w2 w3 c buff).outcome
unfolding process_incoming
process_incoming-ClosesOnce w2 w3 c buff = process_length-ClosesOnce w2 w3 c buff _

pub closings-append : (es fs : List Event) → closings (es ++ fs) ≡ closings es + closings fs
closings-append [] fs = omega arith
closings-append (closed r ∷ es) fs = omega (arith, closings-append es fs)
closings-append (message t p ∷ es) fs = closings-append es fs
closings-append (queued p ∷ es) fs = closings-append es fs
closings-append (write_started ∷ es) fs = closings-append es fs
