-- ===== src/WriteQueue/Queue/Back.antt =====
-- What `Allocate` and `Commit` do to the last buffer.
use mini_web_srv.Base.{
  ℕ, ◌+◌, ◌-◌, ◌≤◌, ◌<◌, ◌≡◌, refl, ap, false, inl, inr, Bool-cases, Option, Option-cases, none,
  some, List, [], ◌∷◌, ◌++◌, Bytes, arith, ltb, ◌==◌, append-nil, if◌then◌else◌,
}
use mini_web_srv.WriteQueue.{Fifo}
use mini_web_srv.WriteQueue.Queue.{
  Buffer, DynBuffer, Queue, in_static, on_heap, bs_allocated, bs_pending, BufferState, set_pending,
  drop_back, change_back, back, shrink, commit, is_allocated,
}
use mini_web_srv.WriteQueue.Queue.Placed.{committed}

abbrev pub to_list : Option Buffer → List Buffer
to_list none = []
to_list (some b) = b ∷ []

pub back-snoc : (xs : List Buffer) (b : Buffer) → back (xs ++ b ∷ []) ≡ some b
unfolding back
back-snoc [] b = refl
back-snoc (x ∷ []) b = refl
back-snoc (x ∷ y ∷ ys) b = back-snoc (y ∷ ys) b

pub change_back-snoc :
    (f : Buffer → Option Buffer) (xs : List Buffer) (b : Buffer)
    → change_back f (xs ++ b ∷ []) ≡ xs ++ to_list (f b)
unfolding change_back
change_back-snoc f [] b = elim (f b) [ none ↦ refl | some c ↦ refl ]
change_back-snoc f (x ∷ []) b = ap (◌∷◌ x) (change_back-snoc f [] b)
change_back-snoc f (x ∷ y ∷ ys) b = ap (◌∷◌ x) (change_back-snoc f (y ∷ ys) b)

pub back-some :
    (bs : List Buffer) (b : Buffer) → back bs ≡ some b → (xs : List Buffer) × (bs ≡ xs ++ b ∷ [])
unfolding back
back-some [] b e = absurd (ground arith)
back-some (x ∷ []) b e = ([], ground arith)
back-some (x ∷ y ∷ ys) b e = let (xs, d) = back-some (y ∷ ys) b e in (x ∷ xs, ap (◌∷◌ x) d)

abbrev pub static_buffer : ℕ → ℕ → ℕ → BufferState → Buffer
static_buffer i n a s = record { place = in_static i; len = n; alloc_length = a; state = s }

-- What is left of a last buffer in the static buffer.
abbrev pub kept : ℕ → ℕ → ℕ → List Buffer
kept i n a = if n == 0 then [] else static_buffer i n a bs_pending ∷ []

abbrev shrunk_buffer : ℕ → Buffer → Option Buffer
shrunk_buffer n b = some (record b { len = n; state = bs_pending })

kept_shrunk :
    (xs : List Buffer) (i n a l : ℕ)
    → (if n == 0
        then change_back drop_back (xs ++ static_buffer i l a bs_allocated ∷ [])
        else change_back (shrunk_buffer n) (xs ++ static_buffer i l a bs_allocated ∷ []))
      ≡ xs ++ kept i n a
kept_shrunk xs i n a l = elim (Bool-cases (n == 0)) [
  | inl z ↦ rw (z, change_back-snoc drop_back xs (static_buffer i l a bs_allocated)) refl
  | inr z ↦ rw (z, change_back-snoc (shrunk_buffer n) xs (static_buffer i l a bs_allocated)) refl
]

abbrev pub heap_buffer : Bytes → ℕ → ℕ → BufferState → Buffer
heap_buffer block n a s = record { place = on_heap block; len = n; alloc_length = a; state = s }

module _ (size : ℕ) where
  -- A buffer that is not allocated is left alone.
  pub commit_other :
      (q : Queue) (m : ℕ)
      → ((b : Buffer) → back q.out ≡ some b → is_allocated b.state ≡ false)
      → commit size q m ≡ q
  unfolding commit
  commit_other q m h = elim (Option-cases (back q.out)) [
    | inl e ↦ rw (commit, e) refl
    | inr (b, e) ↦ rw (commit, e, h b e) refl
  ]

  -- The commit of `m` bytes of the last `n` in the static buffer.
  pub commit_static :
      (mem : Bytes) (fifo : Fifo) (xs : List Buffer) (first : ℕ) (free : List DynBuffer)
      (i k l j n m a : ℕ)
      → l ≡ k + n
      → j ≡ k + m
      → m ≤ n
      → 0 < n
      → commit size
          (record {
            write_buff = mem;
            fifo = fifo;
            last_alloc_length = n;
            out = xs ++ static_buffer i l a bs_allocated ∷ [];
            first_pending = first;
            free = free;
          })
          m
        ≡ record {
          write_buff = mem;
          fifo = committed size fifo n m;
          last_alloc_length = n;
          out = xs ++ kept i j a;
          first_pending = first;
          free = free;
        }
  unfolding commit shrink
  commit_static mem fifo xs first free i k l j n m a d e h p = elim (Bool-cases (ltb m n)) [
    | inl less ↦
        let left : l - (n - m) ≡ j = omega arith in
        rw
          (
            commit,
            back-snoc xs (static_buffer i l a bs_allocated),
            less,
            shrink,
            left,
            kept_shrunk xs i j a l,
          )
          refl
    | inr all ↦
        let same : l ≡ j = ground arith in
        let some_left : (j == 0) ≡ false = ground arith in
        rw
          (
            commit,
            back-snoc xs (static_buffer i l a bs_allocated),
            all,
            some_left,
            change_back-snoc set_pending xs (static_buffer i l a bs_allocated),
            same,
          )
          refl
  ]

  -- The commit of `m` bytes of the last `n` on the heap.
  pub commit_heap :
      (mem : Bytes) (fifo : Fifo) (xs : List Buffer) (first : ℕ) (free : List DynBuffer)
      (block : Bytes) (n m a : ℕ)
      → m ≤ n
      → 0 < n
      → commit size
          (record {
            write_buff = mem;
            fifo = fifo;
            last_alloc_length = n;
            out = xs ++ heap_buffer block n a bs_allocated ∷ [];
            first_pending = first;
            free = free;
          })
          m
        ≡ record {
          write_buff = mem;
          fifo = fifo;
          last_alloc_length = n;
          out = if m == 0 then xs else xs ++ heap_buffer block m a bs_pending ∷ [];
          first_pending = first;
          free = if m == 0 then free ++ record { block = block; len = a } ∷ [] else free;
        }
  unfolding commit shrink
  commit_heap mem fifo xs first free block n m a h p = elim (Bool-cases (ltb m n)) [
    | inl less ↦ elim (Bool-cases (m == 0)) [
      | inl z ↦
          rw
            (
              commit,
              back-snoc xs (heap_buffer block n a bs_allocated),
              less,
              shrink,
              z,
              change_back-snoc drop_back xs (heap_buffer block n a bs_allocated),
              append-nil xs,
            )
            refl
      | inr z ↦
          rw
            (
              commit,
              back-snoc xs (heap_buffer block n a bs_allocated),
              less,
              shrink,
              z,
              change_back-snoc (shrunk_buffer m) xs (heap_buffer block n a bs_allocated),
            )
            refl
    ]
    | inr all ↦
        let same : m ≡ n = ground arith in
        let some_left : (m == 0) ≡ false = ground arith in
        rw
          (
            commit,
            back-snoc xs (heap_buffer block n a bs_allocated),
            all,
            some_left,
            change_back-snoc set_pending xs (heap_buffer block n a bs_allocated),
            same,
          )
          refl
  ]
