-- ===== src/Http/Head/Reads.antt =====
-- What a block and a read do to the buffer of the head handler.
use mini_web_srv.Base.{
  ℕ, suc, ◌+◌, ◌-◌, ◌≤◌, ◌<◌, ◌≡◌, refl, ap, ◌∙◌, true, false, none, some, List, [], ◌∷◌, ◌++◌,
  Bytes, arith, ◌==◌, length, take_all, drop_all,
}
use mathlib.Core.List.{flatten}
use mini_web_srv.ReadBuff.{
  Buff, size, consume, available_length, available_data, relevant_data, receive, on_new_data,
}
use mini_web_srv.ReadBuff.Inv.{IsValid, consume-IsValid, receive-IsValid, length-received}
use mini_web_srv.ReadBuff.View.{
  Stream, consume-pending, consume-kept, receive-view, length-available,
}
use mini_web_srv.Http.Head.{Head, continue_read, head_block, head_loop}

-- No read is empty.
abbrev pub NoneEmpty : List Bytes → Type 0
NoneEmpty [] = Unit {0}
NoneEmpty (r ∷ rs) = (0 < length r) × NoneEmpty rs

-- What the buffer holds and what is still to be read.
abbrev pub stream : Buff → List Bytes → Bytes
stream b reads = available_data b ++ flatten reads

-- Room for everything that is still to be read, and a byte more.
abbrev pub HasRoom : Buff → List Bytes → Type 0
HasRoom b reads = length (flatten reads) < size b - b.data_end

-- The buffer after a block that did not end the head, and the next read.
abbrev pub next_buff : Buff → Bytes → Buff
next_buff b r = receive (consume b (available_length b) true).0 r

pub consume-ends :
    {b : Buff}
    → IsValid b
    → ((consume b (available_length b) true).0.mem ≡ b.mem)
      × ((consume b (available_length b) true).0.data_end ≡ b.data_end)
unfolding consume
consume-ends v = ground arith

pub receive-ends :
    {b : Buff} (r : Bytes)
    → IsValid b
    → length r ≤ size b - b.data_end
    → (size (receive b r) ≡ size b) × ((receive b r).data_end ≡ b.data_end + length r)
unfolding receive on_new_data
receive-ends {b} r v h = ground (arith, length-received b.mem r b.data_end (omega arith))

pub continue_read-next :
    (b : Buff) (r : Bytes) (rs : List Bytes)
    → (size b - b.data_end == 0) ≡ false
    → continue_read b (r ∷ rs) ≡ some (receive b r, rs)
unfolding continue_read
continue_read-next b r rs e = rw e refl

pub continue_read-nil : (b : Buff) → (size b - b.data_end == 0) ≡ false → continue_read b [] ≡ none
unfolding continue_read
continue_read-nil b e = rw e refl

pub head_loop-block :
    (fuel : ℕ) (h : Head) (b : Buff) (reads : List Bytes)
    → (available_length b == 0) ≡ false
    → head_loop (suc fuel) h b reads ≡ head_block (head_loop fuel) h b reads
unfolding head_loop
head_loop-block fuel h b reads e = rw e refl

-- What a block and the next read leave.
pub next_buff-lem :
    (b : Buff) (r : Bytes)
    → IsValid b
    → length r ≤ size b - b.data_end
    → IsValid (next_buff b r)
      × (size (next_buff b r) ≡ size b)
      × ((next_buff b r).data_end ≡ b.data_end + length r)
      × (relevant_data (next_buff b r) ≡ relevant_data b ++ available_data b)
      × (available_data (next_buff b r) ≡ r)
next_buff-lem b r v l =
    let c = (consume b (available_length b) true).0 in
    let v' = consume-IsValid (available_length b) true v in
    let (m, d) = consume-ends v in
    let l' : length r ≤ size c - c.data_end = omega (arith, ap length m, d) in
    let (s, e) = receive-ends r v' l' in
    let w = receive-view r v' l' in
    let all : length (available_data b) ≤ available_length b = omega (arith, length-available v) in
    (
      receive-IsValid r v' l',
      s ∙ ap length m,
      e ∙ ap (λ x. x + length r) d,
      ap (λ (x : Stream). x.kept) w
          ∙ consume-kept (available_length b) v
          ∙ ap (◌++◌ (relevant_data b)) (take_all (available_length b) (available_data b) all),
      ap (λ (x : Stream). x.pending) w
          ∙ ap (λ x. x ++ r)
              (consume-pending (available_length b) true v
                ∙ drop_all (available_length b) (available_data b) all),
    )
