-- ===== src/WriteQueue/Queue/Memory.antt =====
-- Windows of a memory that is written to.
use mini_web_srv.Base.{
  ℕ, zero, suc, ◌+◌, ◌-◌, ◌≤◌, ◌≡◌, refl, ap, ◌∙◌, [], ◌∷◌, Bytes, arith, length, take, drop,
  length-append, length-drop, take-append-length, drop-drop, drop-append_add,
}
use mini_web_srv.WriteQueue.Queue.{overwrite}

pub length-overwrite :
    (o : ℕ) (src mem : Bytes)
    → o + length src ≤ length mem
    → length (overwrite o src mem) ≡ length mem
unfolding overwrite
length-overwrite zero src mem h =
    omega (arith, length-append src (drop (length src) mem), length-drop (length src) mem)
length-overwrite (suc o) src [] h = refl
length-overwrite (suc o) src (m ∷ ms) h = ap suc (length-overwrite o src ms (omega arith))

-- A window in front of what is written.
pub overwrite_before :
    (o i n : ℕ) (src mem : Bytes)
    → i + n ≤ o
    → take n (drop i (overwrite o src mem)) ≡ take n (drop i mem)
unfolding overwrite
overwrite_before zero i zero src mem h = refl
overwrite_before zero i (suc n) src mem h = absurd (omega arith)
overwrite_before (suc o) i n src [] h = refl
overwrite_before (suc o) zero zero src (m ∷ ms) h = refl
overwrite_before (suc o) zero (suc n) src (m ∷ ms) h =
    ap (◌∷◌ m) (overwrite_before o zero n src ms (omega arith))
overwrite_before (suc o) (suc i) n src (m ∷ ms) h = overwrite_before o i n src ms (omega arith)

pub overwrite_behind :
    (o i : ℕ) (src mem : Bytes) → o + length src ≤ i → drop i (overwrite o src mem) ≡ drop i mem
unfolding overwrite
overwrite_behind zero i src mem h =
    let rest = i - length src in
    drop-append_add i rest src (drop (length src) mem) (omega arith)
    ∙ drop-drop (length src) rest i mem (omega arith)
overwrite_behind (suc o) i src [] h = refl
overwrite_behind (suc o) zero src (m ∷ ms) h = absurd (omega arith)
overwrite_behind (suc o) (suc i) src (m ∷ ms) h = overwrite_behind o i src ms (omega arith)

pub overwrite_at :
    (o : ℕ) (src mem : Bytes)
    → o ≤ length mem
    → take (length src) (drop o (overwrite o src mem)) ≡ src
unfolding overwrite
overwrite_at zero src mem h = take-append-length src (drop (length src) mem)
overwrite_at (suc o) src [] h = absurd (omega arith)
overwrite_at (suc o) src (m ∷ ms) h = overwrite_at o src ms (omega arith)
