-- ===== src/WriteQueue/Queue/Ring.antt =====
-- Where the static buffers of the queue lie: in order, around the end of the static buffer. A span is
-- an offset and a length.
use mini_web_srv.Base.{ℕ, ◌+◌, ◌≤◌, ◌<◌, ◌≡◌, refl, ◌⊎◌, inl, inr, List, [], ◌∷◌, ◌++◌, arith}

abbrev pub Span : Type 0
Span = ℕ × ℕ

-- The spans lie in order between `u` and `f`.
abbrev pub Laid : ℕ → ℕ → List Span → Type 0
Laid f u [] = u ≤ f
Laid f u ((o, n) ∷ ss) = (u ≤ o) × (0 < n) × Laid f (o + n) ss

-- No span has a byte of the `n` bytes at `o`.
abbrev pub Away : ℕ → ℕ → List Span → Type 0
Away o n [] = Unit {0}
Away o n ((i, m) ∷ ss) = ((i + m ≤ o) ⊎ (o + n ≤ i)) × Away o n ss

pub Laid-le : (f u : ℕ) (ss : List Span) → Laid f u ss → u ≤ f
Laid-le f u [] l = l
Laid-le f u ((o, n) ∷ ss) l = omega (arith, Laid-le f (o + n) ss l.2)

pub Laid-grow : (f f' u u' : ℕ) (ss : List Span) → f ≤ f' → u' ≤ u → Laid f u ss → Laid f' u' ss
Laid-grow f f' u u' [] h k l = omega arith
Laid-grow f f' u u' ((o, n) ∷ ss) h k l =
    (omega arith, l.1, Laid-grow f f' (o + n) (o + n) ss h (omega arith) l.2)

pub Laid-snoc :
    (f f' u o n : ℕ) (ss : List Span)
    → Laid f u ss
    → f ≤ o
    → 0 < n
    → o + n ≤ f'
    → Laid f' u (ss ++ (o, n) ∷ [])
Laid-snoc f f' u o n [] l h p k = (omega arith, p, k)
Laid-snoc f f' u o n ((i, m) ∷ ss) l h p k = (l.0, l.1, Laid-snoc f f' (i + m) o n ss l.2 h p k)

pub Laid-widen :
    (f f' u o n n' : ℕ) (ss : List Span)
    → Laid f u (ss ++ (o, n) ∷ [])
    → n ≤ n'
    → o + n' ≤ f'
    → Laid f' u (ss ++ (o, n') ∷ [])
Laid-widen f f' u o n n' [] l h k = (l.0, omega arith, k)
Laid-widen f f' u o n n' ((i, m) ∷ ss) l h k = (l.0, l.1, Laid-widen f f' (i + m) o n n' ss l.2 h k)

pub Laid-last :
    (f u o n : ℕ) (ss : List Span) → Laid f u (ss ++ (o, n) ∷ []) → (u ≤ o) × (0 < n) × (o + n ≤ f)
Laid-last f u o n [] l = l
Laid-last f u o n ((i, m) ∷ ss) l = let h = Laid-last f (i + m) o n ss l.2 in omega arith

pub Laid-empty : (u : ℕ) (ss : List Span) → Laid u u ss → ss ≡ []
Laid-empty u [] l = refl
Laid-empty u ((o, n) ∷ ss) l = absurd (omega (arith, Laid-le u (o + n) ss l.2))

pub Laid-Away : (f u o n : ℕ) (ss : List Span) → Laid f u ss → (f ≤ o) ⊎ (o + n ≤ u) → Away o n ss
Laid-Away f u o n [] l h = tt
Laid-Away f u o n ((i, m) ∷ ss) l h =
    (ground (arith, Laid-le f (i + m) ss l.2), Laid-Away f (i + m) o n ss l.2 (ground arith))

pub Away-left : (o n : ℕ) (ss ts : List Span) → Away o n (ss ++ ts) → Away o n ss
Away-left o n [] ts a = tt
Away-left o n ((i, m) ∷ ss) ts a = (a.0, Away-left o n ss ts a.1)

module _ (size : ℕ) where
  -- Some lie in order from `u` on, and the others from the start of the static buffer up to `f`.
  abbrev pub Wrapped : ℕ → ℕ → List Span → Type 0
  Wrapped f u [] = u ≤ size
  Wrapped f u ((o, n) ∷ ss) =
      ((u ≤ size) × Laid f 0 ((o, n) ∷ ss)) ⊎ ((u ≤ o) × (0 < n) × Wrapped f (o + n) ss)

  pub Wrapped-le : (f u : ℕ) (ss : List Span) → Wrapped f u ss → u ≤ size
  Wrapped-le f u [] l = l
  Wrapped-le f u ((o, n) ∷ ss) (inl l) = l.0
  Wrapped-le f u ((o, n) ∷ ss) (inr l) = omega (arith, Wrapped-le f (o + n) ss l.2)

  pub Laid-Wrapped : (f u : ℕ) (ss : List Span) → Laid size u ss → Wrapped f u ss
  Laid-Wrapped f u [] l = l
  Laid-Wrapped f u ((o, n) ∷ ss) l = inr (l.0, l.1, Laid-Wrapped f (o + n) ss l.2)

  -- A span at the start, behind those that have not wrapped.
  pub Laid-Wrapped_snoc :
      (f u o n : ℕ) (ss : List Span)
      → Laid size u ss
      → 0 < n
      → o + n ≤ f
      → Wrapped f u (ss ++ (o, n) ∷ [])
  Laid-Wrapped_snoc f u o n [] l p h = inl (l, (omega arith, p, h))
  Laid-Wrapped_snoc f u o n ((i, m) ∷ ss) l p h =
      inr (l.0, l.1, Laid-Wrapped_snoc f (i + m) o n ss l.2 p h)

  pub Wrapped-snoc :
      (f f' u o n : ℕ) (ss : List Span)
      → Wrapped f u ss
      → f ≤ o
      → 0 < n
      → o + n ≤ f'
      → Wrapped f' u (ss ++ (o, n) ∷ [])
  Wrapped-snoc f f' u o n [] l e p h = inl (l, (omega arith, p, h))
  Wrapped-snoc f f' u o n ((i, m) ∷ ss) (inl (k, l)) e p h =
      inl (k, Laid-snoc f f' 0 o n ((i, m) ∷ ss) l e p h)
  Wrapped-snoc f f' u o n ((i, m) ∷ ss) (inr l) e p h =
      inr (l.0, l.1, Wrapped-snoc f f' (i + m) o n ss l.2 e p h)

  pub Wrapped-widen :
      (f f' u o n n' : ℕ) (ss : List Span)
      → Wrapped f u (ss ++ (o, n) ∷ [])
      → f < u
      → o + n ≤ f
      → n ≤ n'
      → o + n' ≤ f'
      → Wrapped f' u (ss ++ (o, n') ∷ [])
  Wrapped-widen f f' u o n n' [] (inl (k, l)) w e h p = inl (k, (l.0, omega arith, p))
  Wrapped-widen f f' u o n n' [] (inr l) w e h p = absurd (omega arith)
  Wrapped-widen f f' u o n n' ((i, m) ∷ ss) (inl (k, l)) w e h p =
      inl (k, Laid-widen f f' 0 o n n' ((i, m) ∷ ss) l h p)
  Wrapped-widen f f' u o n n' ((i, m) ∷ ss) (inr l) w e h p =
      inr (l.0, l.1, Wrapped-widen f f' (i + m) o n n' ss l.2 (omega arith) e h p)

  pub Wrapped-last : (f u o n : ℕ) (ss : List Span) → Wrapped f u (ss ++ (o, n) ∷ []) → 0 < n
  Wrapped-last f u o n [] (inl l) = l.1.1
  Wrapped-last f u o n [] (inr l) = l.1
  Wrapped-last f u o n ((i, m) ∷ ss) (inl (k, l)) = (Laid-last f 0 o n ((i, m) ∷ ss) l).1
  Wrapped-last f u o n ((i, m) ∷ ss) (inr l) = Wrapped-last f (i + m) o n ss l.2

  pub Wrapped-Away :
      (f u o n : ℕ) (ss : List Span) → Wrapped f u ss → f ≤ o → o + n ≤ u → Away o n ss
  Wrapped-Away f u o n [] l h k = tt
  Wrapped-Away f u o n ((i, m) ∷ ss) (inl (p, l)) h k = Laid-Away f 0 o n ((i, m) ∷ ss) l (inl h)
  Wrapped-Away f u o n ((i, m) ∷ ss) (inr l) h k =
      (inr (omega arith), Wrapped-Away f (i + m) o n ss l.2 h (omega arith))

  pub Wrapped-full : (f : ℕ) (ss : List Span) → Wrapped f size ss → Laid f 0 ss
  Wrapped-full f [] l = omega arith
  Wrapped-full f ((o, n) ∷ ss) (inl l) = l.1
  Wrapped-full f ((o, n) ∷ ss) (inr l) = absurd (omega (arith, Wrapped-le f (o + n) ss l.2))
