-- ===== src/WriteQueue/Queue/Released.antt =====
-- The positions of the static buffer after a release.
use mini_web_srv.Base.{ℕ, ◌+◌, ◌≤◌, ◌<◌, ◌≡◌, ◌≢◌, sym, subst, ◌⊎◌, inl, inr, List, [], ◌∷◌, arith}
use mini_web_srv.WriteQueue.{Fifo, release_fifo}
use mini_web_srv.WriteQueue.Queue.Ring.{
  Span, Laid, Laid-le, Laid-grow, Laid-empty, Wrapped, Wrapped-le, Wrapped-full,
}
use mini_web_srv.WriteQueue.Queue.Placed.{Placed}

module _ (size : ℕ) where
  -- The positions after a release: the end of what is released, or the start.
  abbrev Released : Fifo → ℕ → Fifo → Type 0
  Released f e g =
      ((e ≡ f.free_begin) × ((g.free_begin ≡ 0) × (g.used_begin ≡ 0)))
      ⊎ (((e < size) × ((g.free_begin ≡ f.free_begin) × ((g.used_begin ≡ e) × (e ≢ f.free_begin))))
          ⊎ ((e ≡ size) × ((g.free_begin ≡ f.free_begin) × (g.used_begin ≡ 0))))

  release_fifo-cases :
      (f : Fifo) (o n : ℕ)
      → o + n ≤ size
      → f.free_begin < size
      → Released f (o + n) (release_fifo size f o n)
  unfolding release_fifo
  release_fifo-cases f o n h k = ground arith

  Laid_release :
      (f g : Fifo) (e : ℕ) (ss : List Span)
      → Laid f.free_begin e ss
      → f.free_begin < size
      → Released f e g
      → Placed size g ss
  Laid_release f g e ss l h (inl (k, z)) =
      let none : ss ≡ [] = Laid-empty f.free_begin ss (subst (λ x. Laid f.free_begin x ss) k l) in
      subst (Placed size g) (sym none) (inl (omega arith, omega arith))
  Laid_release f g e ss l h (inr (inl k)) = inl (
    Laid-grow f.free_begin g.free_begin e g.used_begin ss (omega arith) (omega arith) l,
    omega arith,
  )
  Laid_release f g e ss l h (inr (inr k)) = absurd (omega (arith, Laid-le f.free_begin e ss l))

  Wrapped_release :
      (f g : Fifo) (e : ℕ) (ss : List Span)
      → Wrapped size f.free_begin e ss
      → f.free_begin < e
      → Released f e g
      → Placed size g ss
  Wrapped_release f g e ss l h (inl k) = absurd (omega arith)
  Wrapped_release f g e ss l h (inr (inl k)) =
      let w = subst (λ x. Wrapped size x e ss) (sym k.1.0) l in
      inr (subst (λ x. Wrapped size g.free_begin x ss) (sym k.1.1.0) w, (omega arith, omega arith))
  Wrapped_release f g e ss l h (inr (inr k)) =
      let w =
        Wrapped-full size f.free_begin ss (subst (λ x. Wrapped size f.free_begin x ss) k.0 l) in
      inl (
        Laid-grow f.free_begin g.free_begin 0 g.used_begin ss (omega arith) (omega arith) w,
        omega arith,
      )

  -- The spans after the release of the first.
  pub release_fifo-Placed :
      (f : Fifo) (o n : ℕ) (ss : List Span)
      → Placed size f ((o, n) ∷ ss)
      → Placed size (release_fifo size f o n) ss
  release_fifo-Placed f o n ss (inl (l, h)) =
      let b = Laid-le f.free_begin (o + n) ss l.2 in
      Laid_release f (release_fifo size f o n) (o + n) ss l.2 h
        (release_fifo-cases f o n (omega arith) h)
  release_fifo-Placed f o n ss (inr (inl l, h)) =
      let b = Laid-le f.free_begin (o + n) ss l.1.2 in
      Laid_release f (release_fifo size f o n) (o + n) ss l.1.2 (omega arith)
        (release_fifo-cases f o n (omega arith) (omega arith))
  release_fifo-Placed f o n ss (inr (inr l, h)) =
      let b = Wrapped-le size f.free_begin (o + n) ss l.2 in
      Wrapped_release f (release_fifo size f o n) (o + n) ss l.2 (omega arith)
        (release_fifo-cases f o n b (omega arith))
