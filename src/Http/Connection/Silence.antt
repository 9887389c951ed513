-- ===== src/Http/Connection/Silence.antt =====
-- The silent time of a connection: Connection.cpp, `OnStep`.
use mini_web_srv.Base.{
  ℕ, zero, suc, ◌+◌, ◌^◌, ◌≤◌, ◌<◌, ◌≡◌, ◌↔◌, refl, ◌∙◌, true, false, Bool-cases, inl, inr, none,
  arith, ltb, if◌then◌else◌,
}
use mini_web_srv.Http.Connection.{Idle, on_step}

-- The time of some steps.
abbrev pub elapsed : ℕ → ℕ → ℕ
elapsed interval zero = 0
elapsed interval (suc n) = interval + elapsed interval n

module _ {C : Type 0} (max_silent_time interval : ℕ) where
  -- Steps of the timer, with nothing read or written between them.
  abbrev pub steps : ℕ → Idle C → Idle C
  steps zero s = s
  steps (suc n) s = steps n (on_step max_silent_time s interval).0

  open_step :
      (s : Idle C)
      → s.next_conn ≡ none
      → s.silent_time + interval < 2 ^ 32
      → ((on_step max_silent_time s interval).0.silent_time ≡ s.silent_time + interval)
        × ((on_step max_silent_time s interval).0.next_conn ≡ none)
        × ((on_step max_silent_time s interval).0.is_open
            ≡ (if ltb max_silent_time (s.silent_time + interval) then false else s.is_open))
  unfolding on_step
  open_step s e l = rw e (ground (arith, l))

  closed_step :
      (s : Idle C) → s.is_open ≡ false → (on_step max_silent_time s interval).0.is_open ≡ false
  unfolding on_step
  closed_step s e = ground (arith, e)

  steps-closed : (n : ℕ) (s : Idle C) → s.is_open ≡ false → (steps n s).is_open ≡ false
  steps-closed zero s e = e
  steps-closed (suc n) s e = steps-closed n (on_step max_silent_time s interval).0 (closed_step s e)

  -- A connection with no other to go on with, on which nothing is read or written, is open after some
  -- steps of the timer exactly if it was and the time of the steps, with the silent time before, is
  -- within the limit, while that time is below `2 ^ 32`.
  pub steps_iff :
      (n : ℕ) (s : Idle C)
      → s.next_conn ≡ none
      → s.silent_time ≤ max_silent_time
      → s.silent_time + elapsed interval n < 2 ^ 32
      → ((steps n s).is_open ≡ true)
        ↔ ((s.is_open ≡ true) × (s.silent_time + elapsed interval n ≤ max_silent_time))
  unfolding on_step
  steps_iff zero s e k l = ground arith
  steps_iff (suc n) s e k l =
      let s' = (on_step max_silent_time s interval).0 in
      let (silent, next, shut) = open_step s e (omega (arith, l)) in
      elim (Bool-cases (ltb max_silent_time (s.silent_time + interval))) [
        | inl late ↦ (let c = steps-closed n s' (shut ∙ rw late refl) in ground (arith, c, late))
        | inr soon ↦
            (let i =
                steps_iff n s' next (ground (arith, silent, soon)) (omega (arith, silent, l)) in
              let o : s'.is_open ≡ s.is_open = shut ∙ rw soon refl in ground (arith, i, o, silent))
      ]
