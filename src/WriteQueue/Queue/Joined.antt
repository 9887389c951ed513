-- ===== src/WriteQueue/Queue/Joined.antt =====
-- A put that extends the last buffer.
use mini_web_srv.Base.{
  ℕ, zero, suc, ◌+◌, ◌≤◌, ◌<◌, ◌≡◌, refl, sym, ap, ap₂, ◌∙◌, subst, true, false, some, List, [],
  ◌∷◌, ◌++◌, Bytes, arith, length, take, drop, ◌==◌, length-append, take_add, drop-drop,
}
use mini_web_srv.WriteQueue.{Fifo, allocate_fifo}
use mini_web_srv.WriteQueue.Queue.{
  bs_pending, bs_allocated, Buffer, Queue, joins, joins_back, back, change_back, extend, overwrite,
  text, fill, allocate, put,
}
use mini_web_srv.WriteQueue.Queue.Memory.{length-overwrite, overwrite_before, overwrite_at}
use mini_web_srv.WriteQueue.Queue.Ring.{Away-left}
use mini_web_srv.WriteQueue.Queue.Placed.{
  Placed, committed, Found, allocate_fifo-Away, committed-Placed_widen, Placed_last,
}
use mini_web_srv.WriteQueue.Queue.Back.{
  static_buffer, kept, back-snoc, change_back-snoc, commit_static,
}
use mini_web_srv.WriteQueue.Queue.Inv.{
  IsValid, spans, spans-append, texts, texts-append, AllFit, AllFit-append, AllFit-left, Phases,
  Phases-before, length-texts, Phases-change, texts-overwrite,
}
use mini_web_srv.WriteQueue.Queue.Grown.{Grown-joined, Grown-by, Puts}

module _ (size : ℕ) where
  -- The result of a put that extends the last buffer.
  abbrev pub joined : Queue → Fifo → List Buffer → ℕ → ℕ → ℕ → ℕ → Bytes → Queue
  joined q f xs i l a n src = record {
    write_buff = overwrite (i + l) src q.write_buff;
    fifo = committed size f n (length src);
    last_alloc_length = n;
    out = xs ++ kept i (l + length src) a;
    first_pending = q.first_pending;
    free = q.free;
  }

  pub put-joined :
      (g : ℕ → ℕ) (q : Queue) (f : Fifo) (xs : List Buffer) (i l a n o : ℕ) (src : Bytes)
      → allocate_fifo size q.fifo n ≡ some (o, f)
      → q.out ≡ xs ++ static_buffer i l a bs_pending ∷ []
      → o ≡ i + l
      → length src ≤ n
      → 0 < n
      → put size g q n src ≡ joined q f xs i l a n src
  unfolding put allocate fill joins
  put-joined g q f xs i l a zero o src e d s h p = absurd (omega arith)
  put-joined g q f xs i l a (suc m) o src e d s h p =
      let at : joins_back (back q.out) o ≡ true =
        ap (λ x. joins_back (back x) o) d
        ∙ ap (λ x. joins_back x o) (back-snoc xs (static_buffer i l a bs_pending))
        ∙ ground arith in
      let ext : change_back (extend (suc m)) q.out
          ≡ xs ++ static_buffer i (l + suc m) a bs_allocated ∷ [] =
        ap (change_back (extend (suc m))) d
        ∙ change_back-snoc (extend (suc m)) xs (static_buffer i l a bs_pending) in
      rw (put, allocate, e, at, ext, s)
        (commit_static size (overwrite (i + l) src q.write_buff) f xs q.first_pending q.free i l
          (l + suc m) (l + length src) (suc m) (length src) a refl refl h p)

  -- What such a put does.
  pub joined-Puts :
      (q : Queue) (f : Fifo) (xs : List Buffer) (i l a n : ℕ) (src : Bytes)
      → IsValid size q
      → Found size q.fifo n (i + l) f
      → q.out ≡ xs ++ static_buffer i l a bs_pending ∷ []
      → length src ≤ n
      → 0 < n
      → Puts size q src (joined q f xs i l a n src)
  unfolding text
  joined-Puts q f xs i l a n src v c d h p =
      let m = length src in
      let mem = overwrite (i + l) src q.write_buff in
      let b = static_buffer i l a bs_pending in
      let same = ap spans d ∙ spans-append xs (b ∷ []) in
      let lies = subst (Placed size q.fifo) same v.placed in
      let (room, away) =
        allocate_fifo-Away size q.fifo f n (i + l) (spans xs ++ (i, l) ∷ []) lies c in
      let some_left : (l + m == 0) ≡ false =
        ground (arith, Placed_last size q.fifo i l (spans xs) lies) in
      let c' = static_buffer i (l + m) a bs_pending in
      let long : kept i (l + m) a ≡ c' ∷ [] = rw some_left refl in
      let out' : xs ++ kept i (l + m) a ≡ xs ++ c' ∷ [] = ap (◌++◌ xs) long in
      let t : take (l + m) (drop i mem) ≡ take l (drop i q.write_buff) ++ src =
        take_add l m (l + m) (drop i mem) refl
        ∙ ap₂ ◌++◌ (overwrite_before (i + l) i l src q.write_buff (omega arith)) (
            ap (take m) (drop-drop i l (i + l) mem refl)
            ∙ overwrite_at (i + l) src q.write_buff (omega (arith, v.stored))) in
      let k : q.first_pending ≤ length (texts q.write_buff xs) = omega (
        arith,
        Phases-before q.first_pending xs b (subst (Phases q.first_pending) d v.phases) refl,
        length-texts q.write_buff xs,
      ) in
      record {
        valid = record {
          stored = length-overwrite (i + l) src q.write_buff (omega (arith, v.stored)) ∙ v.stored;
          placed =
              subst (Placed size (committed size f n m))
                (sym (ap spans out' ∙ spans-append xs (c' ∷ [])))
                (committed-Placed_widen size q.fifo f n m (i + l) i l (spans xs) lies c h p refl);
          fit = subst AllFit (sym out') (
              AllFit-append xs (c' ∷ []) (AllFit-left xs (b ∷ []) (subst AllFit d v.fit)) (tt, tt));
          phases = subst (Phases q.first_pending) (sym out') (
              Phases-change q.first_pending xs b c' (subst (Phases q.first_pending) d v.phases) refl
                refl);
          kept = v.kept;
        };
        first = refl;
        grown =
            Grown-by q.first_pending _ _ _ _ src
              (ap (texts q.write_buff) d ∙ texts-append q.write_buff xs (b ∷ []))
              (ap (texts mem) out'
                ∙ texts-append mem xs (c' ∷ [])
                ∙ ap₂ ◌++◌
                    (texts-overwrite q.write_buff src (i + l) n xs h
                      (Away-left (i + l) n (spans xs) ((i, l) ∷ []) away))
                    (ap (λ x. x ∷ []) t))
              (Grown-joined q.first_pending (texts q.write_buff xs) (take l (drop i q.write_buff))
                src k);
        longer = omega (
          arith,
          ap length d,
          ap length out',
          length-append xs (c' ∷ []),
          length-append xs (b ∷ []),
        );
      }
