-- ===== src/ReadBuff/Inv.antt =====
-- The invariant of the read buffer: the positions are ordered and lie in the storage.
use mini_web_srv.Base.{
  ℕ, ◌+◌, ◌-◌, ◌^◌, ◌≤◌, ◌<◌, ◌≡◌, Bool, true, false, ◌++◌, Bytes, arith, ltb, leb, Bool-cases,
  ltb→lt, leb→le, inl, inr, length, take, drop, tabulate, length-append, length-take, length-drop,
  length-tabulate,
}
use mini_web_srv.ReadBuff.{
  Buff, size, sub32, add32, roundup_1024, create, reset, consume, reset_relevant, make_room,
  available_length, request_data, on_new_data, receive,
}

pub record IsValid (b : Buff) : Type 0 where
  pub kept : b.relevant ≤ b.read_pos
  pub read : b.read_pos ≤ b.data_end
  pub requested : b.data_end ≤ b.req_end
  pub stored : b.req_end ≤ size b
  pub small : size b < 2 ^ 32

pub create-IsValid : (m : Bytes) → length m < 2 ^ 32 → IsValid (create m)
unfolding create
create-IsValid m h = omega arith

pub reset-IsValid : {b : Buff} → IsValid b → IsValid (reset b)
unfolding reset
reset-IsValid v = omega arith

pub consume-IsValid :
    {b : Buff} (len : ℕ) (keep : Bool) → IsValid b → IsValid (consume b len keep).0
unfolding consume
consume-IsValid len true v = ground arith
consume-IsValid {b} len false v = ground arith

pub reset_relevant-IsValid : {b : Buff} → IsValid b → IsValid (reset_relevant b)
unfolding reset_relevant
reset_relevant-IsValid v = ground arith

-- Rounding up does not shrink, and adds less than a block.
roundup_bounds : (v : ℕ) → v + 1023 < 2 ^ 32 → (v ≤ roundup_1024 v) × (roundup_1024 v ≤ v + 1023)
unfolding roundup_1024
roundup_bounds v h = omega arith

-- The storage that `make_room` leaves has room for all that is requested, from the kept bytes on.
pub length-make_room :
    (g : ℕ → ℕ) (b : Buff) (req : ℕ)
    → IsValid b
    → size b < req
    → req + 1023 < 2 ^ 32
    → (req - (b.read_pos - b.relevant) ≤ length (make_room g b req))
      × (length (make_room g b req) < 2 ^ 32)
unfolding make_room
length-make_room g b req v h k =
    let front = sub32 b.read_pos b.relevant in
    let end_space = sub32 (size b) b.data_end in
    let req_new = sub32 req b.data_end in
    let new_size = add32 (sub32 (sub32 (size b) front) end_space) req_new in
    let kept = take (b.data_end - front) (drop front b.mem) in
    let len_kept : length kept ≡ b.data_end - front =
      omega (arith, length-take (b.data_end - front) (drop front b.mem), length-drop front b.mem) in
    elim (Bool-cases (leb req_new (add32 front end_space))) [
      | inl fits ↦ rw fits (
          let e = length-append kept (drop (b.data_end - front) b.mem) in
          omega (arith, e, len_kept, length-drop (b.data_end - front) b.mem, leb→le _ _ fits))
      | inr tight ↦ rw tight (
          let fresh = tabulate (roundup_1024 new_size) g in
          omega (
            arith,
            length-append kept (drop (b.data_end - front) fresh),
            len_kept,
            length-drop (b.data_end - front) fresh,
            length-tabulate (roundup_1024 new_size) g,
            roundup_bounds new_size (omega arith),
          ))
    ]

pub request_data-IsValid :
    (g : ℕ → ℕ) {b : Buff} (n : ℕ)
    → IsValid b
    → size b + n + 1023 < 2 ^ 32
    → IsValid (request_data g b n).0
unfolding request_data
request_data-IsValid g {b} n v h =
    let avail = available_length b in
    let req = add32 b.req_end (sub32 n avail) in
    elim (Bool-cases (leb n avail)) [
      | inl enough ↦ rw enough v
      | inr short ↦ rw short (elim (Bool-cases (ltb (size b) req)) [
        | inl over ↦ rw over (
            let room = length-make_room g b req v (ltb→lt _ _ over) (omega arith) in
            omega (arith, room, ltb→lt _ _ over))
        | inr fits ↦ rw fits (ground arith)
      ])
    ]

-- A read into the free space writes inside the storage.
pub length-received :
    (mem bytes : Bytes) (pos : ℕ)
    → pos + length bytes ≤ length mem
    → length (take pos mem ++ (bytes ++ drop (pos + length bytes) mem)) ≡ length mem
length-received mem bytes pos h =
    let rest = drop (pos + length bytes) mem in
    omega (
      arith,
      length-append (take pos mem) (bytes ++ rest),
      length-append bytes rest,
      length-take pos mem,
      length-drop (pos + length bytes) mem,
    )

pub receive-IsValid :
    {b : Buff} (bytes : Bytes)
    → IsValid b
    → length bytes ≤ size b - b.data_end
    → IsValid (receive b bytes)
unfolding receive on_new_data
receive-IsValid {b} bytes v h = ground (arith, length-received b.mem bytes b.data_end (omega arith))
