-- ===== src/WriteQueue/Queue/Heap.antt =====
-- A put onto the heap, and every put.
use mini_web_srv.Base.{
  ℕ, zero, suc, ◌+◌, ◌-◌, ◌^◌, ◌≤◌, ◌<◌, ◌≡◌, refl, sym, ap, ◌∙◌, subst, false, ◌&&◌, inl, inr,
  Bool-cases, Option, Option-cases, none, some, List, [], ◌∷◌, ◌++◌, Bytes, arith, ltb, leb, length,
  ◌==◌, if◌then◌else◌, length-append, append-nil, tabulate, length-tabulate,
}
use mini_web_srv.WriteQueue.{allocate_fifo}
use mini_web_srv.WriteQueue.Queue.{
  bs_pending, bs_allocated, on_heap, DynBuffer, Queue, fill_block, find_close, roundup_256,
  overwrite, text, fill, heap_target, push_allocated, allocate_heap, allocate, commit, put,
}
use mini_web_srv.WriteQueue.Queue.Memory.{length-overwrite, overwrite_at}
use mini_web_srv.WriteQueue.Queue.Placed.{Placed}
use mini_web_srv.WriteQueue.Queue.Back.{heap_buffer, change_back-snoc, commit_other, commit_heap}
use mini_web_srv.WriteQueue.Queue.Inv.{
  IsValid, spans, spans-append, texts, texts-append, AllFit-append, AllStored, AllStored_add,
  Phases-length, Phases-add, Phases-back, length-texts,
}
use mini_web_srv.WriteQueue.Queue.Grown.{Grown-new, Grown-same, Grown-by, Puts}
use mini_web_srv.WriteQueue.Queue.Put.{put-Puts_static}

-- The block that is found is long enough, and the others stay.
abbrev Fitting : ℕ → Option (DynBuffer × List DynBuffer) → Type 0
Fitting n none = Unit {0}
Fitting n (some (d, rest)) = (n ≤ d.len) × (d.len ≤ length d.block) × AllStored rest

abbrev put_back :
    DynBuffer → Option (DynBuffer × List DynBuffer) → Option (DynBuffer × List DynBuffer)
put_back d r = elim r [ none ↦ none | some (e, rest) ↦ some (e, d ∷ rest) ]

put_back-Fitting :
    (n : ℕ) (d : DynBuffer) (r : Option (DynBuffer × List DynBuffer))
    → d.len ≤ length d.block
    → Fitting n r
    → Fitting n (put_back d r)
put_back-Fitting n d none h k = tt
put_back-Fitting n d (some (e, rest)) h k = (k.0, k.1, (h, k.2))

abbrev or_else :
    DynBuffer
    → List DynBuffer
    → Option (DynBuffer × List DynBuffer)
    → Option (DynBuffer × List DynBuffer)
or_else d ds r = elim r [ none ↦ some (d, ds) | some (e, rest) ↦ some (e, d ∷ rest) ]

or_else-Fitting :
    (n : ℕ) (d : DynBuffer) (ds : List DynBuffer) (r : Option (DynBuffer × List DynBuffer))
    → n ≤ d.len
    → AllStored (d ∷ ds)
    → Fitting n r
    → Fitting n (or_else d ds r)
or_else-Fitting n d ds none l h k = (l, h.0, h.1)
or_else-Fitting n d ds (some (e, rest)) l h k = (k.0, k.1, (h.0, k.2))

find_close-Fitting :
    (n limit : ℕ) (ds : List DynBuffer) → AllStored ds → Fitting n (find_close n limit ds)
unfolding find_close
find_close-Fitting n limit [] s = tt
find_close-Fitting n limit (d ∷ ds) s = elim (Bool-cases (leb n d.len && ltb d.len limit)) [
  | inl fits ↦
      let long : n ≤ d.len = ground arith in
      rw fits
        (or_else-Fitting n d ds (find_close n d.len ds) long s (find_close-Fitting n d.len ds s.1))
  | inr other ↦
      rw other
        (put_back-Fitting n d (find_close n limit ds) s.0 (find_close-Fitting n limit ds s.1))
]

roundup_256_le : (n : ℕ) → n + 255 < 2 ^ 32 → n ≤ roundup_256 n
unfolding roundup_256
roundup_256_le n h = omega arith

module _ (size : ℕ) where
  -- The result of a put into a block.
  abbrev blocked : Queue → List DynBuffer → Bytes → ℕ → ℕ → Bytes → Queue
  blocked q free block alloc n src = record {
    write_buff = q.write_buff;
    fifo = q.fifo;
    last_alloc_length = n;
    out =
        if length src == 0
        then q.out
        else q.out ++ heap_buffer (overwrite 0 src block) (length src) alloc bs_pending ∷ [];
    first_pending = q.first_pending;
    free =
        if length src == 0
        then free ++ record { block = overwrite 0 src block; len = alloc } ∷ []
        else free;
  }

  commit-filled :
      (q : Queue) (free : List DynBuffer) (block : Bytes) (alloc n : ℕ) (src : Bytes)
      → length src ≤ n
      → 0 < n
      → commit size
          (fill
            (push_allocated
              (record q { last_alloc_length = n; free = free })
              (on_heap block)
              n
              alloc)
            heap_target
            src)
          (length src)
        ≡ blocked q free block alloc n src
  unfolding fill
  commit-filled q free block alloc n src h p =
      rw (change_back-snoc (fill_block src) q.out (heap_buffer block n alloc bs_allocated)) (
        commit_heap size q.write_buff q.fifo q.out q.first_pending free (overwrite 0 src block) n
          (length src) alloc h p)

  blocked-Puts :
      (q : Queue) (free : List DynBuffer) (block : Bytes) (alloc n : ℕ) (src : Bytes)
      → IsValid size q
      → AllStored free
      → n ≤ length block
      → alloc ≤ length block
      → length src ≤ n
      → Puts size q src (blocked q free block alloc n src)
  unfolding text
  blocked-Puts q free block alloc n [] v s h l p = record {
    valid = record {
      stored = v.stored;
      placed = v.placed;
      fit = v.fit;
      phases = v.phases;
      kept = AllStored_add free _ s (omega (arith, length-overwrite 0 [] block (omega arith)));
    };
    first = refl;
    grown = Grown-same q.first_pending (texts q.write_buff q.out) [] refl;
    longer = omega arith;
  }
  blocked-Puts q free block alloc n (x ∷ xs) v s h l p =
      let src = x ∷ xs in
      let b = heap_buffer (overwrite 0 src block) (length src) alloc bs_pending in
      let same = length-overwrite 0 src block (omega arith) in
      let k : q.first_pending ≤ length (texts q.write_buff q.out) =
        omega
          (arith, Phases-length q.first_pending q.out v.phases, length-texts q.write_buff q.out) in
      let some_left : (length src == 0) ≡ false = ground arith in
      let t : Puts size q src (record {
        write_buff = q.write_buff;
        fifo = q.fifo;
        last_alloc_length = n;
        out = q.out ++ b ∷ [];
        first_pending = q.first_pending;
        free = free;
      }) =
        record {
          valid = record {
            stored = v.stored;
            placed =
                subst (Placed size q.fifo)
                  (sym (spans-append q.out (b ∷ []) ∙ append-nil (spans q.out))) v.placed;
            fit = AllFit-append q.out (b ∷ []) v.fit ((omega arith, omega arith), tt);
            phases = Phases-add q.first_pending q.out b v.phases refl;
            kept = s;
          };
          first = refl;
          grown =
              Grown-by q.first_pending _ _ _ _ src refl
                (texts-append q.write_buff q.out (b ∷ [])
                  ∙ ap (λ z. texts q.write_buff q.out ++ z ∷ [])
                      (overwrite_at 0 src block (omega arith)))
                (Grown-new q.first_pending (texts q.write_buff q.out) src k);
          longer = omega (arith, length-append q.out (b ∷ []));
        } in
      rw some_left t

  put-heap :
      (g : ℕ → ℕ) (q : Queue) (n : ℕ) (src : Bytes)
      → allocate_fifo size q.fifo n ≡ none
      → 0 < n
      → put size g q n src
        ≡ commit size
            (fill (allocate_heap g (record q { last_alloc_length = n }) n) heap_target src)
            (length src)
  unfolding put allocate
  put-heap g q zero src e p = absurd (omega arith)
  put-heap g q (suc m) src e p = rw (put, allocate, e) refl

  heap-Puts :
      (g : ℕ → ℕ) (q : Queue) (n : ℕ) (src : Bytes)
      → IsValid size q
      → length src ≤ n
      → 0 < n
      → n + 255 < 2 ^ 32
      → Puts size q src (
          commit size
            (fill (allocate_heap g (record q { last_alloc_length = n }) n) heap_target src)
            (length src))
  unfolding allocate_heap
  heap-Puts g q n src v h p w = elim (Option-cases (find_close n (2 ^ 32 - 1) q.free)) [
    | inl e ↦
        let block = tabulate (roundup_256 n) g in
        let l : length block ≡ roundup_256 n = length-tabulate (roundup_256 n) g in
        rw (allocate_heap, e)
          (subst (Puts size q src) (sym (commit-filled q q.free block (roundup_256 n) n src h p)) (
            blocked-Puts q q.free block (roundup_256 n) n src v v.kept
              (omega (arith, l, roundup_256_le n w)) (omega (arith, l)) h))
    | inr ((d, rest), e) ↦
        let (a, b, c) = subst (Fitting n) e (find_close-Fitting n (2 ^ 32 - 1) q.free v.kept) in
        rw (allocate_heap, e)
          (subst (Puts size q src) (sym (commit-filled q rest d.block d.len n src h p))
            (blocked-Puts q rest d.block d.len n src v c (omega arith) b h))
  ]

  put_nothing :
      (g : ℕ → ℕ) (q : Queue) (src : Bytes)
      → IsValid size q
      → length src ≤ 0
      → Puts size q src (put size g q 0 src)
  unfolding put allocate fill
  put_nothing g q [] v h =
      let same = commit_other size q 0 (λ b e. Phases-back q.first_pending q.out b v.phases e) in
      subst (Puts size q []) (sym same) (record {
        valid = v;
        first = refl;
        grown = Grown-same q.first_pending (texts q.write_buff q.out) [] refl;
        longer = omega arith;
      })
  put_nothing g q (x ∷ xs) v h = absurd (omega arith)

  -- Every put appends its source to what waits.
  pub put-Puts :
      (g : ℕ → ℕ) (q : Queue) (n : ℕ) (src : Bytes)
      → IsValid size q
      → length src ≤ n
      → n + 255 < 2 ^ 32
      → Puts size q src (put size g q n src)
  put-Puts g q zero src v h w = put_nothing g q src v h
  put-Puts g q (suc m) src v h w = elim (Option-cases (allocate_fifo size q.fifo (suc m))) [
    | inl e ↦
        subst (Puts size q src) (sym (put-heap g q (suc m) src e (omega arith)))
          (heap-Puts g q (suc m) src v h (omega arith) w)
    | inr ((o, f), e) ↦ put-Puts_static size g q f (suc m) o src v e h (omega arith)
  ]
