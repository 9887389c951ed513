-- ===== src/WriteQueue/Queue/Put.antt =====
-- A put into the static buffer.
use mini_web_srv.Base.{
  ℕ, zero, suc, ◌+◌, ◌≤◌, ◌<◌, ◌≡◌, refl, sym, ap, ap₂, ◌∙◌, subst, true, false, inl, inr,
  Bool-cases, Option-cases, none, some, List, [], ◌∷◌, ◌++◌, Bytes, arith, length, append-nil, ◌==◌,
  ◌&&◌, length-append,
}
use mini_web_srv.WriteQueue.{Fifo, allocate_fifo}
use mini_web_srv.WriteQueue.Queue.{
  BufferState, bs_pending, bs_allocated, bs_writing, Place, in_static, on_heap, Buffer, Queue,
  joins, joins_back, place_end, is_pending, back, overwrite, text, fill, allocate, put,
}
use mini_web_srv.WriteQueue.Queue.Memory.{length-overwrite, overwrite_at}
use mini_web_srv.WriteQueue.Queue.Placed.{
  Placed, committed, Found, allocate_fifo-cases, Placed-bounds, allocate_fifo-Away,
  committed-Placed, committed-Placed_none,
}
use mini_web_srv.WriteQueue.Queue.Back.{static_buffer, kept, back-some, commit_static}
use mini_web_srv.WriteQueue.Queue.Inv.{
  IsValid, spans, spans-append, texts, texts-append, AllFit-append, Phases-length, Phases-add,
  length-texts, texts-overwrite,
}
use mini_web_srv.WriteQueue.Queue.Grown.{Grown-new, Grown-same, Grown-by, Puts}
use mini_web_srv.WriteQueue.Queue.Joined.{put-joined, joined-Puts}

module _ (size : ℕ) where
  -- The result of a put behind the last buffer, in the static buffer.
  abbrev moved : Queue → Fifo → ℕ → ℕ → Bytes → List Buffer → Queue
  moved q f o n src out = record {
    write_buff = overwrite o src q.write_buff;
    fifo = committed size f n (length src);
    last_alloc_length = n;
    out = out;
    first_pending = q.first_pending;
    free = q.free;
  }

  abbrev placed : Queue → Fifo → ℕ → ℕ → Bytes → Queue
  placed q f o n src = moved q f o n src (q.out ++ kept o (length src) n)

  put-placed :
      (g : ℕ → ℕ) (q : Queue) (f : Fifo) (n o : ℕ) (src : Bytes)
      → allocate_fifo size q.fifo n ≡ some (o, f)
      → joins_back (back q.out) o ≡ false
      → length src ≤ n
      → 0 < n
      → put size g q n src ≡ placed q f o n src
  unfolding put allocate fill
  put-placed g q f zero o src e d h p = absurd (omega arith)
  put-placed g q f (suc m) o src e d h p =
      rw (put, allocate, e, d)
        (commit_static size (overwrite o src q.write_buff) f q.out q.first_pending q.free o 0
          (suc m) (length src) (suc m) (length src) (suc m) (omega arith) (omega arith) h p)

  joins-place :
      (b : Buffer) (o : ℕ)
      → joins b o ≡ true
      → (i : ℕ) × (b ≡ static_buffer i b.len b.alloc_length bs_pending) × (o ≡ i + b.len)
  unfolding joins
  joins-place b o e = at b.place b.state refl refl e
    where
      at :
          (p : Place) (s : BufferState)
          → b.place ≡ p
          → b.state ≡ s
          → (elim (place_end p b.len) [ none ↦ false | some e ↦ is_pending s && e == o ]) ≡ true
          → (i : ℕ) × (b ≡ static_buffer i b.len b.alloc_length bs_pending) × (o ≡ i + b.len)
      at (in_static i) bs_pending x y e = (
        i,
        ap₂ (λ p s. record { place = p; len = b.len; alloc_length = b.alloc_length; state = s }) x
            y,
        ground arith,
      )
      at (in_static i) bs_allocated x y e = absurd (ground arith)
      at (in_static i) bs_writing x y e = absurd (ground arith)
      at (on_heap block) s x y e = absurd (ground arith)

  back_joins :
      (bs : List Buffer) (o : ℕ)
      → joins_back (back bs) o ≡ true
      → (xs : List Buffer) × (i : ℕ) × (l : ℕ) × (a : ℕ) × (bs
          ≡ xs ++ static_buffer i l a bs_pending ∷ [])
        × (o ≡ i + l)
  back_joins bs o e = elim (Option-cases (back bs)) [
    | inl z ↦ absurd (ground arith)
    | inr (b, z) ↦
        let (i, d, k) = joins-place b o (sym (ap (λ x. joins_back x o) z) ∙ e) in
        let (xs, w) = back-some bs b z in
        (xs, i, b.len, b.alloc_length, w ∙ ap (λ x. xs ++ x ∷ []) d, k)
  ]

  moved-Puts :
      (q : Queue) (f : Fifo) (n o : ℕ) (src : Bytes)
      → IsValid size q
      → Found size q.fifo n o f
      → length src ≤ n
      → 0 < length src
      → Puts size q src
          (moved q f o n src (q.out ++ static_buffer o (length src) n bs_pending ∷ []))
  unfolding text
  moved-Puts q f n o src v c h p =
      let m = length src in
      let mem = overwrite o src q.write_buff in
      let (room, away) = allocate_fifo-Away size q.fifo f n o (spans q.out) v.placed c in
      let b = static_buffer o m n bs_pending in
      let k : q.first_pending ≤ length (texts q.write_buff q.out) =
        omega
          (arith, Phases-length q.first_pending q.out v.phases, length-texts q.write_buff q.out) in
      record {
        valid = record {
          stored = length-overwrite o src q.write_buff (omega (arith, v.stored)) ∙ v.stored;
          placed =
              subst (Placed size (committed size f n m)) (sym (spans-append q.out (b ∷ [])))
                (committed-Placed size q.fifo f n m o (spans q.out) v.placed c h p);
          fit = AllFit-append q.out (b ∷ []) v.fit (tt, tt);
          phases = Phases-add q.first_pending q.out b v.phases refl;
          kept = v.kept;
        };
        first = refl;
        grown =
            Grown-by q.first_pending _ _ _ _ src refl
              (texts-append mem q.out (b ∷ [])
                ∙ ap₂ ◌++◌ (texts-overwrite q.write_buff src o n q.out h away)
                    (ap (λ x. x ∷ []) (overwrite_at o src q.write_buff (omega (arith, v.stored)))))
              (Grown-new q.first_pending (texts q.write_buff q.out) src k);
        longer = omega (arith, length-append q.out (b ∷ []));
      }

  moved-Puts_none :
      (q : Queue) (f : Fifo) (n o : ℕ)
      → IsValid size q
      → Found size q.fifo n o f
      → 0 < n
      → Puts size q [] (moved q f o n [] q.out)
  moved-Puts_none q f n o v c p =
      let (room, away) = allocate_fifo-Away size q.fifo f n o (spans q.out) v.placed c in
      record {
        valid = record {
          stored = length-overwrite o [] q.write_buff (omega (arith, v.stored)) ∙ v.stored;
          placed = committed-Placed_none size q.fifo f n o (spans q.out) v.placed c p;
          fit = v.fit;
          phases = v.phases;
          kept = v.kept;
        };
        first = refl;
        grown =
            Grown-by q.first_pending _ _ _ _ [] refl
              (texts-overwrite q.write_buff [] o n q.out (omega arith) away)
              (Grown-same q.first_pending (texts q.write_buff q.out) [] refl);
        longer = omega arith;
      }

  placed-Puts :
      (q : Queue) (f : Fifo) (n o : ℕ) (src : Bytes)
      → IsValid size q
      → Found size q.fifo n o f
      → length src ≤ n
      → 0 < n
      → Puts size q src (placed q f o n src)
  placed-Puts q f n o [] v c h p =
      subst (λ x. Puts size q [] (moved q f o n [] x)) (sym (append-nil q.out))
        (moved-Puts_none q f n o v c p)
  placed-Puts q f n o (s ∷ ss) v c h p =
      let src = s ∷ ss in
      let some_left : (length src == 0) ≡ false = ground arith in
      let long : kept o (length src) n ≡ static_buffer o (length src) n bs_pending ∷ [] =
        rw some_left refl in
      subst (λ x. Puts size q src (moved q f o n src (q.out ++ x))) (sym long)
        (moved-Puts q f n o src v c h (omega arith))

  -- A put that finds its space in the static buffer.
  pub put-Puts_static :
      (g : ℕ → ℕ) (q : Queue) (f : Fifo) (n o : ℕ) (src : Bytes)
      → IsValid size q
      → allocate_fifo size q.fifo n ≡ some (o, f)
      → length src ≤ n
      → 0 < n
      → Puts size q src (put size g q n src)
  put-Puts_static g q f n o src v e h p =
      let (free_in, used_in) = Placed-bounds size q.fifo (spans q.out) v.placed in
      let c = allocate_fifo-cases size q.fifo f n o free_in used_in p e in
      elim (Bool-cases (joins_back (back q.out) o)) [
        | inl j ↦
            let (xs, i, l, a, d, s) = back_joins q.out o j in
            subst (Puts size q src) (sym (put-joined size g q f xs i l a n o src e d s h p)) (
              joined-Puts size q f xs i l a n src v (subst (λ x. Found size q.fifo n x f) s c) d h
                p)
        | inr j ↦
            subst (Puts size q src) (sym (put-placed g q f n o src e j h p))
              (placed-Puts q f n o src v c h p)
      ]
