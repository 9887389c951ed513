-- ===== src/Http/Connection/Laws.antt =====
-- What the head handler leaves of the buffer's room: Connection.cpp, `HeaderHandler`.
use mini_web_srv.Base.{
  ℕ, zero, suc, ◌+◌, ◌≡◌, refl, ap, ◌∙◌, Bool-cases, true, inl, inr, Option, none, some, List, [],
  ◌∷◌, Bytes, arith, ◌==◌, length, length-append, if◌then◌else◌,
}
use mathlib.Core.List.{flatten}
use mini_web_srv.ReadBuff.{Buff, size, consume, available_length, available_data}
use mini_web_srv.ReadBuff.Inv.{IsValid, consume-IsValid, receive-IsValid}
use mini_web_srv.Http.RequestLine.{Request}
use mini_web_srv.Http.Head.{
  Head, Scanned, more, done, refused, overrun, scan, continue_read, Outcome, headers_done, closed,
  overran, waiting, head_block, head_loop, header_handler, fresh_head,
}
use mini_web_srv.Http.Head.Reads.{
  continue_read-next, continue_read-nil, receive-ends, NoneEmpty, HasRoom,
}

consume_ends :
    (b : Buff) (n : ℕ)
    → ((consume b n true).0.mem ≡ b.mem) × ((consume b n true).0.data_end ≡ b.data_end)
unfolding consume
consume_ends b n = ground arith

-- The room for what is still to be read, when the headers are done.
abbrev pub Keeps : Buff → List Bytes → Option Outcome → Type 0
Keeps b reads (some (headers_done h b' rs)) =
    (size b' ≡ size b)
    × (b'.data_end + length (flatten rs) ≡ b.data_end + length (flatten reads))
    × NoneEmpty rs
Keeps b reads (some closed) = Unit {0}
Keeps b reads (some overran) = Unit {0}
Keeps b reads (some waiting) = Unit {0}
Keeps b reads none = Unit {0}

Keeps-trans :
    (b b' : Buff) (reads rs : List Bytes) (o : Option Outcome)
    → size b' ≡ size b
    → b'.data_end + length (flatten rs) ≡ b.data_end + length (flatten reads)
    → Keeps b' rs o
    → Keeps b reads o
Keeps-trans b b' reads rs (some (headers_done h b'' rs'')) s e (s', e', n) = (s' ∙ s, e' ∙ e, n)
Keeps-trans b b' reads rs (some closed) s e k = tt
Keeps-trans b b' reads rs (some overran) s e k = tt
Keeps-trans b b' reads rs (some waiting) s e k = tt
Keeps-trans b b' reads rs none s e k = tt

-- A read in a valid buffer with room.
abbrev Reads : Buff → List Bytes → Option (Buff × List Bytes) → Type 0
Reads b reads none = Unit {0}
Reads b reads (some (b', rs)) =
    IsValid b'
    × NoneEmpty rs
    × (size b' ≡ size b)
    × (b'.data_end + length (flatten rs) ≡ b.data_end + length (flatten reads))

continue_read-Reads :
    (b : Buff) (reads : List Bytes)
    → IsValid b
    → NoneEmpty reads
    → HasRoom b reads
    → Reads b reads (continue_read b reads)
unfolding flatten
continue_read-Reads b [] v ne room = rw (continue_read-nil b (ground arith)) tt
continue_read-Reads b (r ∷ rs) v ne room =
    let (s, e) = receive-ends r v (omega (arith, length-append r (flatten rs))) in
    rw (continue_read-next b r rs (ground arith)) (
      receive-IsValid r v (omega (arith, length-append r (flatten rs))),
      ne.1,
      s,
      omega (arith, e, length-append r (flatten rs)),
    )

-- The loop keeps the room, as far as it has fuel.
abbrev LoopKeeps : ℕ → Type 0
LoopKeeps fuel =
    (h : Head) (b : Buff) (reads : List Bytes)
    → IsValid b
    → NoneEmpty reads
    → HasRoom b reads
    → Keeps b reads (head_loop fuel h b reads)

read-Keeps :
    (fuel : ℕ) (h : Head) (b : Buff) (reads : List Bytes)
    → LoopKeeps fuel
    → HasRoom b reads
    → (o : Option (Buff × List Bytes)) → Reads b reads o
    → Keeps b reads (elim o [ none ↦ some waiting | some (b', rs) ↦ head_loop fuel h b' rs ])
read-Keeps fuel h b reads ih room none k = tt
read-Keeps fuel h b reads ih room (some (b', rs)) (v, ne, s, e) =
    Keeps-trans b b' reads rs (head_loop fuel h b' rs) s e (ih h b' rs v ne (omega (arith, s, e)))

scanned-Keeps :
    (fuel : ℕ) (h : Head) (b : Buff) (reads : List Bytes)
    → LoopKeeps fuel
    → IsValid b
    → NoneEmpty reads
    → HasRoom b reads
    → (s : Scanned) → scan h (available_data b) ≡ s
    → Keeps b reads (head_block (head_loop fuel) h b reads)
unfolding head_block
scanned-Keeps fuel h b reads ih v ne room (done h' n) e =
    let (m, d) = consume_ends b n in rw (head_block, e) (ap length m, omega (arith, d), ne)
scanned-Keeps fuel h b reads ih v ne room refused e = rw (head_block, e) tt
scanned-Keeps fuel h b reads ih v ne room overrun e = rw (head_block, e) tt
scanned-Keeps fuel h b reads ih v ne room (more h') e =
    let c = (consume b (available_length b) true).0 in
    let (m, d) = consume_ends b (available_length b) in
    let room' : HasRoom c reads = omega (arith, ap length m, d) in
    rw (head_block, e)
      (Keeps-trans b c reads reads _ (ap length m) (omega (arith, d)) (
        read-Keeps fuel h' c reads ih room' (continue_read c reads)
          (continue_read-Reads c reads (consume-IsValid (available_length b) true v) ne room')))

-- A round that starts with a read.
empty-Keeps :
    (fuel : ℕ) (h : Head) (b : Buff) (reads : List Bytes)
    → LoopKeeps fuel
    → HasRoom b reads
    → (o : Option (Buff × List Bytes)) → Reads b reads o
    → Keeps b reads (elim o [
      | none ↦ some waiting
      | some (b', rs) ↦
          if available_length b' == 0 then some closed else head_block (head_loop fuel) h b' rs
    ])
empty-Keeps fuel h b reads ih room none k = tt
empty-Keeps fuel h b reads ih room (some (b', rs)) (v, ne, s, e) =
    elim (Bool-cases (available_length b' == 0)) [
      | inl z ↦ rw z tt
      | inr z ↦ rw z (
          Keeps-trans b b' reads rs (head_block (head_loop fuel) h b' rs) s e (
            scanned-Keeps fuel h b' rs ih v ne (omega (arith, s, e)) (scan h (available_data b'))
              refl))
    ]

head_loop-Keeps : (fuel : ℕ) → LoopKeeps fuel
unfolding head_loop
head_loop-Keeps zero h b reads v ne room = tt
head_loop-Keeps (suc fuel) h b reads v ne room = elim (Bool-cases (available_length b == 0)) [
  | inr e ↦
      rw (head_loop, e)
        (scanned-Keeps fuel h b reads (head_loop-Keeps fuel) v ne room (scan h (available_data b))
          refl)
  | inl e ↦
      rw (head_loop, e)
        (empty-Keeps fuel h b reads (head_loop-Keeps fuel) room (continue_read b reads)
          (continue_read-Reads b reads v ne room))
]

-- The head handler leaves the buffer's size, and as much room for what is still to be read as it had.
pub header_handler-Keeps :
    (r : Request) (b : Buff) (reads : List Bytes)
    → IsValid b
    → NoneEmpty reads
    → HasRoom b reads
    → Keeps b reads (header_handler r b reads)
unfolding header_handler
header_handler-Keeps r b reads v ne room =
    head_loop-Keeps (suc (suc (length reads))) (fresh_head r) b reads v ne room
