-- ===== src/ReadBuff/Steps.antt =====
-- Sequences of calls on the read buffer refine a stream of kept and pending bytes, and a request
-- that fails leaves room for the bytes that it asks for.
use mini_web_srv.Base.{
  ℕ, ◌+◌, ◌-◌, ◌^◌, ◌≤◌, ◌<◌, ◌≡◌, refl, ap, ap₂, ◌∙◌, true, false, List, [], ◌∷◌, ◌++◌, Bytes,
  arith, length, take, drop,
}
use mini_web_srv.ReadBuff.{
  Buff, size, reset, consume, reset_relevant, available_length, request_data, read_info,
  on_new_data, receive,
}
use mini_web_srv.ReadBuff.Inv.{
  IsValid, reset-IsValid, consume-IsValid, reset_relevant-IsValid, request_data-IsValid,
  receive-IsValid, length-received,
}
use mini_web_srv.ReadBuff.View.{
  Stream, view, consume-pending, consume-kept, reset_relevant-view, request_data-view, receive-view,
  relevant-nil,
}

-- The calls that `Connection` makes: `Consume(n, true)`, `ResetRelevant` and then `Consume(n)`,
-- `ResetRelevant`, `RequestData(n)`, a read of bytes, `Reset`.
pub data Op : Type 0 where
  keep skip want : ℕ → Op
  forget clear : Op
  arrive : Bytes → Op

unfoldable pub step : (ℕ → ℕ) → Buff → Op → Buff
step g b (keep n) = (consume b n true).0
step g b (skip n) = (consume (reset_relevant b) n false).0
step g b (want n) = (request_data g b n).0
step g b forget = reset_relevant b
step g b clear = reset b
step g b (arrive bytes) = receive b bytes

unfoldable pub run : (ℕ → ℕ) → Buff → List Op → Buff
run g b [] = b
run g b (o ∷ os) = run g (step g b o) os

-- The stream that the reader is promised.
abbrev pub stream_step : Stream → Op → Stream
stream_step s (keep n) = record { kept = s.kept ++ take n s.pending; pending = drop n s.pending }
stream_step s (skip n) = record { kept = []; pending = drop n s.pending }
stream_step s (want n) = s
stream_step s forget = record s { kept = [] }
stream_step s clear = record { kept = []; pending = [] }
stream_step s (arrive bytes) = record s { pending = s.pending ++ bytes }

abbrev pub stream_run : Stream → List Op → Stream
stream_run s [] = s
stream_run s (o ∷ os) = stream_run (stream_step s o) os

-- A request stays within 32 bits, and a read within the free space.
abbrev pub Fits : Buff → Op → Type 0
Fits b (keep n) = Unit {0}
Fits b (skip n) = Unit {0}
Fits b (want n) = size b + n + 1023 < 2 ^ 32
Fits b forget = Unit {0}
Fits b clear = Unit {0}
Fits b (arrive bytes) = length bytes ≤ size b - b.data_end

abbrev pub AllFit : (ℕ → ℕ) → Buff → List Op → Type 0
AllFit g b [] = Unit {0}
AllFit g b (o ∷ os) = Fits b o × AllFit g (step g b o) os

step-IsValid : (g : ℕ → ℕ) {b : Buff} (o : Op) → IsValid b → Fits b o → IsValid (step g b o)
unfolding step
step-IsValid g (keep n) v f = consume-IsValid n true v
step-IsValid g (skip n) v f = consume-IsValid n false (reset_relevant-IsValid v)
step-IsValid g (want n) v f = request_data-IsValid g n v f
step-IsValid g forget v f = reset_relevant-IsValid v
step-IsValid g clear v f = reset-IsValid v
step-IsValid g (arrive bytes) v f = receive-IsValid bytes v f

relevant-skip : {b : Buff} (n : ℕ) → IsValid b → (consume (reset_relevant b) n false).0.relevant ≡ 0
unfolding consume reset_relevant
relevant-skip n v = ground arith

step-view :
    (g : ℕ → ℕ) {b : Buff} (o : Op)
    → IsValid b
    → Fits b o
    → view (step g b o) ≡ stream_step (view b) o
unfolding step
step-view g (keep n) v f =
    ap₂ (λ k p. record { kept = k; pending = p }) (consume-kept n v) (consume-pending n true v)
step-view g {b} (skip n) v f =
    ap₂ (λ k p. record { kept = k; pending = p })
      (relevant-nil (consume (reset_relevant b) n false).0 (relevant-skip n v))
      (consume-pending n false (reset_relevant-IsValid v)
        ∙ ap (λ (s : Stream). drop n s.pending) (reset_relevant-view v))
step-view g (want n) v f = request_data-view g n v f
step-view g forget v f = reset_relevant-view v
step-view g {b} clear v f = unfold reset in refl
step-view g (arrive bytes) v f = receive-view bytes v f

-- From a valid buffer, any sequence of calls whose requests stay within 32 bits and whose reads stay
-- within the free space leaves a valid buffer, and the kept and pending bytes are those that the
-- stream has after the same calls: requests, moves to the front and new blocks do not show.
pub run-stream_run :
    (g : ℕ → ℕ) (b : Buff) (os : List Op)
    → IsValid b
    → AllFit g b os
    → IsValid (run g b os) × (view (run g b os) ≡ stream_run (view b) os)
unfolding run
run-stream_run g b [] v f = (v, refl)
run-stream_run g b (o ∷ os) v f =
    let (v', e) = run-stream_run g (step g b o) os (step-IsValid g o v f.0) f.1 in
    (v', e ∙ ap (λ s. stream_run s os) (step-view g o v f.0))

-- The request counts the missing bytes from the end of the data.
pub request_data-req_end :
    (g : ℕ → ℕ) {b : Buff} (n : ℕ)
    → IsValid b
    → size b + n + 1023 < 2 ^ 32
    → (request_data g b n).1 ≡ false
    → (request_data g b n).0.data_end + (n - available_length b) ≤ (request_data g b n).0.req_end
unfolding request_data
request_data-req_end g {b} n v h e = ground arith

pub available-request_data :
    (g : ℕ → ℕ) {b : Buff} (n : ℕ)
    → IsValid b
    → available_length (request_data g b n).0 ≡ available_length b
unfolding request_data
available-request_data g {b} n v = ground arith

available-receive :
    (b : Buff) (bytes : Bytes)
    → IsValid b
    → length bytes ≤ size b - b.data_end
    → available_length (receive b bytes) ≡ available_length b + length bytes
unfolding receive on_new_data
available-receive b bytes v h = ground (arith, length-received b.mem bytes b.data_end (omega arith))

pub request_data-enough :
    (g : ℕ → ℕ) (b : Buff) (n : ℕ) → n ≤ available_length b → request_data g b n ≡ (b, true)
unfolding request_data
request_data-enough g b n h = ground arith

-- When a request for n bytes fails on a valid buffer, `GetReadInfo` asks for at least the missing
-- bytes and offers at least what it asks for; and when bytes that fit the offered space arrive and
-- make up for the missing ones, the same request succeeds and changes nothing.
pub request_data-receive :
    (g : ℕ → ℕ) (b : Buff) (n : ℕ) (bytes : Bytes)
    → IsValid b
    → size b + n + 1023 < 2 ^ 32
    → (request_data g b n).1 ≡ false
    → length bytes ≤ (read_info (request_data g b n).0).1
    → n ≤ available_length b + length bytes
    → (n - available_length b ≤ (read_info (request_data g b n).0).0)
      × ((read_info (request_data g b n).0).0 ≤ (read_info (request_data g b n).0).1)
      × (request_data g (receive (request_data g b n).0 bytes) n
          ≡ (receive (request_data g b n).0 bytes, true))
unfolding read_info
request_data-receive g b n bytes v h e f k =
    let b' = (request_data g b n).0 in
    let v' = request_data-IsValid g n v h in
    let room = request_data-req_end g n v h e in
    let grown = available-receive b' bytes v' (ground (arith, v', f)) in
    (
      ground (arith, v', room),
      ground (arith, v'),
      request_data-enough g (receive b' bytes) n
          (omega (arith, grown, available-request_data g n v)),
    )

-- When more bytes are reported than the free space holds and some data is already there, the end of
-- the data comes to lie behind the end of the storage.
pub on_new_data_overruns :
    (b : Buff) (n : ℕ)
    → IsValid b
    → 0 < b.data_end
    → size b < 2 ^ 31
    → size b - b.data_end < n
    → size b < (on_new_data b n).0.data_end
unfolding on_new_data
on_new_data_overruns b n v h s k = ground arith
