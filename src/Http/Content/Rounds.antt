-- ===== src/Http/Content/Rounds.antt =====
-- A round of the content handler's loops: a request that fails, and the read behind it.
use mini_web_srv.Base.{
  ℕ, ◌+◌, ◌-◌, ◌^◌, ◌≤◌, ◌<◌, ◌≡◌, ap, ◌∙◌, Bool, true, false, some, List, [], ◌∷◌, ◌++◌, Bytes,
  arith, ◌==◌, length, drop_all,
}
use mini_web_srv.ReadBuff.{
  Buff, size, consume, available_length, available_data, relevant_data, receive, request_data,
}
use mini_web_srv.ReadBuff.Inv.{IsValid, consume-IsValid, receive-IsValid, request_data-IsValid}
use mini_web_srv.ReadBuff.View.{
  Stream, consume-pending, receive-view, request_data-view, length-available,
}
use mini_web_srv.ReadBuff.Steps.{request_data-req_end}
use mini_web_srv.Http.Head.{continue_read}
use mini_web_srv.Http.Head.Reads.{continue_read-next}

abbrev pub When : Bool → Type 0 → Type 0
When true T = T
When false T = Unit {0}

-- The buffer behind a request that fails, and the read.
abbrev pub refill : (ℕ → ℕ) → ℕ → Buff → Bytes → Buff
refill g n b r = receive (request_data g b n).0 r

-- The request stays within 32 bits, and the read within the space that it is offered.
abbrev pub RefillFits : (ℕ → ℕ) → ℕ → Buff → Bytes → Type 0
RefillFits g n b r =
    (size b + n + 1023 < 2 ^ 32)
    × (length r ≤ size (request_data g b n).0 - (request_data g b n).0.data_end)

pub request_data_fails :
    (g : ℕ → ℕ) (b : Buff) (n : ℕ) → available_length b < n → (request_data g b n).1 ≡ false
unfolding request_data
request_data_fails g b n h = ground arith

-- There is room to read into, and what is read is to be consumed behind what was there.
pub refill-lem :
    (g : ℕ → ℕ) (n : ℕ) (b : Buff) (r : Bytes) (rs : List Bytes)
    → IsValid b
    → available_length b < n
    → RefillFits g n b r
    → (continue_read (request_data g b n).0 (r ∷ rs) ≡ some (refill g n b r, rs))
      × IsValid (refill g n b r)
      × (available_data (refill g n b r) ≡ available_data b ++ r)
      × (relevant_data (refill g n b r) ≡ relevant_data b)
refill-lem g n b r rs v h (k, l) =
    let b' = (request_data g b n).0 in
    let v' = request_data-IsValid g n v k in
    let room = request_data-req_end g n v k (request_data_fails g b n h) in
    let free : (size b' - b'.data_end == 0) ≡ false = ground (arith, room, v') in
    let w = request_data-view g n v k in
    let x = receive-view r v' l in
    (
      continue_read-next b' r rs free,
      receive-IsValid r v' l,
      ap (λ (s : Stream). s.pending) x ∙ ap (λ (s : Stream). s.pending ++ r) w,
      ap (λ (s : Stream). s.kept) x ∙ ap (λ (s : Stream). s.kept) w,
    )

-- A buffer whose bytes are all consumed.
pub drained :
    (b : Buff)
    → IsValid b
    → IsValid (consume b (available_length b) false).0
      × (available_data (consume b (available_length b) false).0 ≡ [])
      × (available_length (consume b (available_length b) false).0 ≡ 0)
drained b v =
    let v' = consume-IsValid (available_length b) false v in
    let all : length (available_data b) ≤ available_length b = omega (arith, length-available v) in
    let e =
      consume-pending (available_length b) false v
      ∙ drop_all (available_length b) (available_data b) all in
    (v', e, omega (arith, ap length e, length-available v'))
