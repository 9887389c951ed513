-- ===== src/WriteQueue/Queue/Push.antt =====
-- `Push` is a put of as many bytes as it allocates.
use mini_web_srv.Base.{
  ℕ, suc, ◌+◌, ◌-◌, ◌^◌, ◌≤◌, ◌<◌, ◌≡◌, refl, sym, ◌∙◌, subst, false, inl, inr, Bool-cases,
  Option-cases, some, [], ◌∷◌, Bytes, arith, ltb, length,
}
use mini_web_srv.WriteQueue.{allocate_fifo}
use mini_web_srv.WriteQueue.Queue.{
  Buffer, Queue, Target, no_target, static_target, heap_target, back, joins_back, find_close, fill,
  allocate_heap, allocate, commit, put, push,
}
use mini_web_srv.WriteQueue.Queue.Back.{commit_other}
use mini_web_srv.WriteQueue.Queue.Inv.{IsValid, Phases-back}
use mini_web_srv.WriteQueue.Queue.Grown.{Puts}
use mini_web_srv.WriteQueue.Queue.Heap.{put-Puts}

fill_last :
    (q : Queue) (t : Target) (src : Bytes) → (fill q t src).last_alloc_length ≡ q.last_alloc_length
unfolding fill
fill_last q no_target src = refl
fill_last q (static_target o) src = refl
fill_last q heap_target src = refl

module _ (size : ℕ) where
  allocate_heap_last :
      (g : ℕ → ℕ) (q : Queue) (n : ℕ)
      → (allocate_heap g q n).last_alloc_length ≡ q.last_alloc_length
  unfolding allocate_heap
  allocate_heap_last g q n = elim (Option-cases (find_close n (2 ^ 32 - 1) q.free)) [
    | inl e ↦ rw (allocate_heap, e) refl
    | inr (r, e) ↦ rw (allocate_heap, e) refl
  ]

  allocate_last :
      (g : ℕ → ℕ) (q : Queue) (m : ℕ) → (allocate size g q (suc m)).0.last_alloc_length ≡ suc m
  unfolding allocate
  allocate_last g q m = elim (Option-cases (allocate_fifo size q.fifo (suc m))) [
    | inl e ↦
        rw (allocate, e) (allocate_heap_last g (record q { last_alloc_length = suc m }) (suc m))
    | inr ((o, f), e) ↦ elim (Bool-cases (joins_back (back q.out) o)) [
      | inl j ↦ rw (allocate, e, j) refl
      | inr j ↦ rw (allocate, e, j) refl
    ]
  ]

  -- All commits of the whole allocation are the same.
  commit_whole :
      (q : Queue) (m n : ℕ)
      → q.last_alloc_length ≤ m
      → q.last_alloc_length ≤ n
      → commit size q m ≡ commit size q n
  unfolding commit
  commit_whole q m n h k = elim (Option-cases (back q.out)) [
    | inl e ↦ rw (commit, e) refl
    | inr (b, e) ↦
        let x : ltb m q.last_alloc_length ≡ false = ground arith in
        let y : ltb n q.last_alloc_length ≡ false = ground arith in rw (commit, e, x, y) refl
  ]

  push-put :
      (g : ℕ → ℕ) (q : Queue) (src : Bytes)
      → IsValid size q
      → length src < 2 ^ 32 - 1
      → push size g q src ≡ put size g q (length src) src
  unfolding push put allocate fill
  push-put g q [] v h =
      let other =
        λ (b : Buffer) (e : back q.out ≡ some b). Phases-back q.first_pending q.out b v.phases e in
      commit_other size q (2 ^ 32 - 1) other ∙ sym (commit_other size q 0 other)
  push-put g q (x ∷ xs) v h =
      let src = x ∷ xs in
      let a = allocate size g q (length src) in
      let filled = fill a.0 a.1 src in
      let last : filled.last_alloc_length ≡ length src =
        fill_last a.0 a.1 src ∙ allocate_last g q (length xs) in
      commit_whole filled (2 ^ 32 - 1) (length src) (omega arith) (omega arith)

  pub push-Puts :
      (g : ℕ → ℕ) (q : Queue) (src : Bytes)
      → IsValid size q
      → length src + 255 < 2 ^ 32
      → Puts size q src (push size g q src)
  push-Puts g q src v h =
      subst (Puts size q src) (sym (push-put g q src v (omega arith)))
        (put-Puts size g q (length src) src v (omega arith) h)
