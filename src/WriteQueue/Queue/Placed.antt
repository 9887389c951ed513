-- ===== src/WriteQueue/Queue/Placed.antt =====
-- The positions of the static buffer and the spans that lie in it.
use mini_web_srv.Base.{
  ℕ, ◌+◌, ◌-◌, ◌≤◌, ◌<◌, ◌≡◌, sym, subst, ◌⊎◌, inl, inr, some, List, [], ◌∷◌, ◌++◌, ltb, ◌==◌,
  if◌then◌else◌, arith,
}
use mini_web_srv.WriteQueue.{Fifo, from_begin, from_fifo_begin, allocate_fifo}
use mini_web_srv.WriteQueue.Queue.Ring.{
  Span, Laid, Laid-le, Laid-grow, Laid-snoc, Laid-widen, Laid-last, Away, Laid-Away, Wrapped,
  Laid-Wrapped, Laid-Wrapped_snoc, Wrapped-snoc, Wrapped-widen, Wrapped-last, Wrapped-Away,
}

module _ (size : ℕ) where
  abbrev pub Lies : ℕ → ℕ → List Span → Type 0
  Lies free used ss =
      (Laid free used ss × (free < size))
      ⊎ (Wrapped size free used ss × ((free < used) × (used < size)))

  abbrev pub Placed : Fifo → List Span → Type 0
  Placed f ss = Lies f.free_begin f.used_begin ss

  -- The positions after the commit of `m` of the last `n` bytes.
  abbrev pub committed : Fifo → ℕ → ℕ → Fifo
  committed g n m =
      if ltb m n
      then record {
        free_begin = if g.free_begin == 0 then size - (n - m) else g.free_begin - (n - m);
        used_begin = g.used_begin;
      }
      else g

  -- The ways to find space: behind the data, up to the end or not, at the start, or between.
  abbrev pub Found : Fifo → ℕ → ℕ → Fifo → Type 0
  Found f n o g =
      (g.used_begin ≡ f.used_begin)
      × (((f.used_begin ≤ f.free_begin)
            × (o ≡ f.free_begin)
            × (o + n < size)
            × (g.free_begin ≡ o + n))
          ⊎ (((f.used_begin ≤ f.free_begin)
                × (0 < f.used_begin)
                × (o ≡ f.free_begin)
                × (o + n ≡ size)
                × (g.free_begin ≡ 0))
              ⊎ (((f.used_begin ≤ f.free_begin) × (n < f.used_begin) × (o ≡ 0) × (g.free_begin ≡ n))
                  ⊎ ((f.free_begin < f.used_begin)
                      × (o ≡ f.free_begin)
                      × (o + n < f.used_begin)
                      × (g.free_begin ≡ o + n)))))

  pub allocate_fifo-cases :
      (f g : Fifo) (n o : ℕ)
      → f.free_begin < size
      → f.used_begin < size
      → 0 < n
      → allocate_fifo size f n ≡ some (o, g)
      → Found f n o g
  unfolding allocate_fifo from_begin from_fifo_begin
  allocate_fifo-cases f g n o v w h e = ground arith

  pub Placed-bounds :
      (f : Fifo) (ss : List Span) → Placed f ss → (f.free_begin < size) × (f.used_begin < size)
  Placed-bounds f ss (inl (l, h)) = (h, omega (arith, Laid-le f.free_begin f.used_begin ss l))
  Placed-bounds f ss (inr (l, h)) = (omega arith, omega arith)

  -- The allocated space lies in the static buffer, away from all spans.
  pub allocate_fifo-Away :
      (f g : Fifo) (n o : ℕ) (ss : List Span)
      → Placed f ss
      → Found f n o g
      → (o + n ≤ size) × Away o n ss
  allocate_fifo-Away f g n o ss (inl (l, h)) (e, inl a) =
      (omega arith, Laid-Away f.free_begin f.used_begin o n ss l (inl (omega arith)))
  allocate_fifo-Away f g n o ss (inl (l, h)) (e, inr (inl a)) =
      (omega arith, Laid-Away f.free_begin f.used_begin o n ss l (inl (omega arith)))
  allocate_fifo-Away f g n o ss (inl (l, h)) (e, inr (inr (inl a))) = (
    omega (arith, Laid-le f.free_begin f.used_begin ss l),
    Laid-Away f.free_begin f.used_begin o n ss l (inr (omega arith)),
  )
  allocate_fifo-Away f g n o ss (inl (l, h)) (e, inr (inr (inr a))) =
      absurd (omega (arith, Laid-le f.free_begin f.used_begin ss l))
  allocate_fifo-Away f g n o ss (inr (l, h)) (e, inl a) = absurd (omega arith)
  allocate_fifo-Away f g n o ss (inr (l, h)) (e, inr (inl a)) = absurd (omega arith)
  allocate_fifo-Away f g n o ss (inr (l, h)) (e, inr (inr (inl a))) = absurd (omega arith)
  allocate_fifo-Away f g n o ss (inr (l, h)) (e, inr (inr (inr a))) = (
    omega arith,
    Wrapped-Away size f.free_begin f.used_begin o n ss l (omega arith) (omega arith),
  )

  -- The free begin after the commit is the end of what was committed, or the start.
  abbrev Ends : Fifo → ℕ → ℕ → ℕ → ℕ → Type 0
  Ends f n m o free =
      ((free ≡ o + m) × (o + m < size))
      ⊎ ((o + m ≡ size)
          × ((0 < f.used_begin)
              × ((f.used_begin ≤ f.free_begin) × ((o ≡ f.free_begin) × (free ≡ 0)))))

  committed-Ends :
      (f g : Fifo) (n m o : ℕ)
      → f.used_begin < size
      → Found f n o g
      → m ≤ n
      → 0 < n
      → Ends f n m o (committed g n m).free_begin
  committed-Ends f g n m o w h k p = ground arith

  Lies-snoc :
      (f g : Fifo) (n m o free : ℕ) (ss : List Span)
      → Placed f ss
      → Found f n o g
      → Ends f n m o free
      → m ≤ n
      → 0 < m
      → Lies free f.used_begin (ss ++ (o, m) ∷ [])
  Lies-snoc f g n m o free ss (inl (l, h)) c (inr z) k p = inr (
    Laid-Wrapped size free f.used_begin (ss ++ (o, m) ∷ [])
        (Laid-snoc f.free_begin size f.used_begin o m ss l (omega arith) p (omega arith)),
    (omega arith, omega arith),
  )
  Lies-snoc f g n m o free ss (inr (l, h)) c (inr z) k p = absurd (omega arith)
  Lies-snoc f g n m o free ss (inl (l, h)) (e, inl a) (inl z) k p =
      inl (
        Laid-snoc f.free_begin free f.used_begin o m ss l (omega arith) p (omega arith),
        omega arith,
      )
  Lies-snoc f g n m o free ss (inl (l, h)) (e, inr (inl a)) (inl z) k p =
      inl (
        Laid-snoc f.free_begin free f.used_begin o m ss l (omega arith) p (omega arith),
        omega arith,
      )
  Lies-snoc f g n m o free ss (inl (l, h)) (e, inr (inr (inl a))) (inl z) k p =
      let used = Laid-le f.free_begin f.used_begin ss l in
      inr (
        Laid-Wrapped_snoc size free f.used_begin o m ss
            (Laid-grow f.free_begin size f.used_begin f.used_begin ss (omega arith) (omega arith) l)
            p (omega arith),
        (omega arith, omega arith),
      )
  Lies-snoc f g n m o free ss (inl (l, h)) (e, inr (inr (inr a))) (inl z) k p =
      absurd (omega (arith, Laid-le f.free_begin f.used_begin ss l))
  Lies-snoc f g n m o free ss (inr (l, h)) (e, a) (inl z) k p =
      let c : (f.free_begin ≡ o) × (o + n < f.used_begin) = ground arith in
      inr (
        Wrapped-snoc size f.free_begin free f.used_begin o m ss l (omega arith) p (omega arith),
        (omega arith, omega arith),
      )

  Lies-none :
      (f g : Fifo) (n o free : ℕ) (ss : List Span)
      → Placed f ss
      → Found f n o g
      → Ends f n 0 o free
      → 0 < n
      → Lies free f.used_begin ss
  Lies-none f g n o free ss p c (inr z) k = absurd (omega (arith, Placed-bounds f ss p))
  Lies-none f g n o free ss (inl (l, h)) (e, inl a) (inl z) k = inl (
    Laid-grow f.free_begin free f.used_begin f.used_begin ss (omega arith) (omega arith) l,
    omega arith,
  )
  Lies-none f g n o free ss (inl (l, h)) (e, inr (inl a)) (inl z) k = inl (
    Laid-grow f.free_begin free f.used_begin f.used_begin ss (omega arith) (omega arith) l,
    omega arith,
  )
  Lies-none f g n o free ss (inl (l, h)) (e, inr (inr (inl a))) (inl z) k =
      let used = Laid-le f.free_begin f.used_begin ss l in
      inr (
        Laid-Wrapped size free f.used_begin ss (
            Laid-grow f.free_begin size f.used_begin f.used_begin ss (omega arith) (omega arith) l),
        (omega arith, omega arith),
      )
  Lies-none f g n o free ss (inl (l, h)) (e, inr (inr (inr a))) (inl z) k =
      absurd (omega (arith, Laid-le f.free_begin f.used_begin ss l))
  Lies-none f g n o free ss (inr (l, h)) (e, a) (inl z) k =
      let c : f.free_begin ≡ free = ground arith in
      subst (λ x. Lies x f.used_begin ss) c (inr (l, h))

  Lies-widen :
      (f g : Fifo) (n m o i k free : ℕ) (ss : List Span)
      → Placed f (ss ++ (i, k) ∷ [])
      → Found f n o g
      → Ends f n m o free
      → m ≤ n
      → o ≡ i + k
      → Lies free f.used_begin (ss ++ (i, k + m) ∷ [])
  Lies-widen f g n m o i k free ss (inl (l, h)) c (inr z) p e = inr (
    Laid-Wrapped size free f.used_begin (ss ++ (i, k + m) ∷ [])
        (Laid-widen f.free_begin size f.used_begin i k (k + m) ss l (omega arith) (omega arith)),
    (omega arith, omega arith),
  )
  Lies-widen f g n m o i k free ss (inr (l, h)) c (inr z) p e = absurd (omega arith)
  Lies-widen f g n m o i k free ss (inl (l, h)) (c, a) (inl z) p e =
      let last = Laid-last f.free_begin f.used_begin i k ss l in
      inl (
        Laid-widen f.free_begin free f.used_begin i k (k + m) ss l (omega arith) (omega arith),
        omega arith,
      )
  Lies-widen f g n m o i k free ss (inr (l, h)) (c, a) (inl z) p e =
      let b : (f.free_begin ≡ o) × (o + n < f.used_begin) = ground arith in
      inr (
        Wrapped-widen size f.free_begin free f.used_begin i k (k + m) ss l (omega arith)
            (omega arith) (omega arith) (omega arith),
        (omega arith, omega arith),
      )

  -- The spans after an allocation and the commit of a part of it, at the end of the others.
  pub committed-Placed :
      (f g : Fifo) (n m o : ℕ) (ss : List Span)
      → Placed f ss
      → Found f n o g
      → m ≤ n
      → 0 < m
      → Placed (committed g n m) (ss ++ (o, m) ∷ [])
  committed-Placed f g n m o ss p c k h =
      let e : (committed g n m).used_begin ≡ f.used_begin = ground arith in
      subst (λ u. Lies (committed g n m).free_begin u (ss ++ (o, m) ∷ [])) (sym e)
        (Lies-snoc f g n m o (committed g n m).free_begin ss p c
          (committed-Ends f g n m o (Placed-bounds f ss p).1 c k (omega arith)) k h)

  pub committed-Placed_none :
      (f g : Fifo) (n o : ℕ) (ss : List Span)
      → Placed f ss
      → Found f n o g
      → 0 < n
      → Placed (committed g n 0) ss
  committed-Placed_none f g n o ss p c h =
      let e : (committed g n 0).used_begin ≡ f.used_begin = ground arith in
      subst (λ u. Lies (committed g n 0).free_begin u ss) (sym e)
        (Lies-none f g n o (committed g n 0).free_begin ss p c
          (committed-Ends f g n 0 o (Placed-bounds f ss p).1 c (omega arith) h) h)

  -- The same, if the last span is extended.
  pub committed-Placed_widen :
      (f g : Fifo) (n m o i k : ℕ) (ss : List Span)
      → Placed f (ss ++ (i, k) ∷ [])
      → Found f n o g
      → m ≤ n
      → 0 < n
      → o ≡ i + k
      → Placed (committed g n m) (ss ++ (i, k + m) ∷ [])
  committed-Placed_widen f g n m o i k ss p c h q d =
      let e : (committed g n m).used_begin ≡ f.used_begin = ground arith in
      subst (λ u. Lies (committed g n m).free_begin u (ss ++ (i, k + m) ∷ [])) (sym e)
        (Lies-widen f g n m o i k (committed g n m).free_begin ss p c
          (committed-Ends f g n m o (Placed-bounds f _ p).1 c h q) h d)

  pub Placed_last : (f : Fifo) (i k : ℕ) (ss : List Span) → Placed f (ss ++ (i, k) ∷ []) → 0 < k
  Placed_last f i k ss (inl (l, h)) = (Laid-last f.free_begin f.used_begin i k ss l).1
  Placed_last f i k ss (inr (l, h)) = Wrapped-last size f.free_begin f.used_begin i k ss l
