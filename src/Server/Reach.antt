-- ===== src/Server/Reach.antt =====
-- The states that a server reaches, and that an accept never ends without a connection for it.
use mini_web_srv.Base.{
  ℕ, ◌≡◌, refl, sym, ◌∙◌, subst, ◌+◌, ◌%◌, ◌^◌, Bool, true, false, inl, inr, Bool-cases, Option,
  Option-cases, none, some, [], ◌∷◌, ◌++◌, arith, if◌then◌else◌,
}
use mini_web_srv.Server.{
  State, Stepped, restart_accept, restart_timer, on_accept, on_timer, run, stop_internal, stop,
}

-- What the server is told, in any order that the code allows: an accept that ends while one is under
-- way, the timer, and the posted end.
pub data Event : Type 0 where
  accepted : Bool → Bool → Event
  timer : Bool → Event
  end_posted : Event

module _ {C : Type 0} (on_step : C → Stepped C) (response_count : C → ℕ) (start stop_conn : C → C)
    (fresh : C) where
  unfoldable pub handle : State C → Event → Option (State C)
  unfolding on_accept on_timer stop_internal
  handle s (accepted error allowed) = on_accept fresh start s error allowed
  handle s (timer error) = some (on_timer on_step response_count s error)
  handle s end_posted = some (stop_internal stop_conn s)

  -- An accept ends only while one is under way, and then without an error or with one.
  abbrev pub Comes : State C → Event → Type 0
  Comes s (accepted error allowed) = s.accepting ≡ true
  Comes s (timer error) = s.timing ≡ true
  Comes s end_posted = Unit {0}

  -- The states in reach of a server that was started.
  pub data Reached (s0 : State C) : State C → Type 0 where
    started : Reached s0 (run fresh s0)
    after :
        {s s' : State C} (e : Event)
        → Reached s0 s
        → Comes s e
        → handle s e ≡ some s'
        → Reached s0 s'

  abbrev pub HasNext : State C → Type 0
  HasNext s = s.accepting ≡ true → (c : C) × (s.next_conn ≡ some c)

  -- A server that is not accepting accepts again only with a connection.
  restart_accept-HasNext : (s : State C) → s.accepting ≡ false → HasNext (restart_accept fresh s)
  unfolding restart_accept
  restart_accept-HasNext s e = elim (Bool-cases s.is_running) [
    | inl r ↦ elim (Option-cases s.next_conn) [
      | inl n ↦ rw (restart_accept, r, n) (λ h. (fresh, refl))
      | inr (c, n) ↦ rw (restart_accept, r, n) (λ h. (c, refl))
    ]
    | inr r ↦ rw (restart_accept, r) (λ h. absurd (ground arith))
  ]

  on_timer-next :
      (s : State C) (error : Bool)
      → ((on_timer on_step response_count s error).next_conn ≡ s.next_conn)
        × ((on_timer on_step response_count s error).accepting ≡ s.accepting)
  unfolding on_timer restart_timer
  on_timer-next s true = (refl, refl)
  on_timer-next s false = elim (Bool-cases s.is_running) [
    | inl r ↦ rw (on_timer, restart_timer, r) (refl, refl)
    | inr r ↦ rw (on_timer, restart_timer, r) (refl, refl)
  ]

  abbrev IfSome : Option (State C) → Type 0
  IfSome none = Unit {0}
  IfSome (some s) = HasNext s

  on_accept-HasNext :
      (s : State C) (error allowed : Bool) → IfSome (on_accept fresh start s error allowed)
  unfolding on_accept
  on_accept-HasNext s true allowed = restart_accept-HasNext (record s { accepting = false }) refl
  on_accept-HasNext s false allowed = elim (Option-cases s.next_conn) [
    | inl n ↦ rw (on_accept, n) tt
    | inr (c, n) ↦ elim (Bool-cases allowed) [
      | inl a ↦
          rw (on_accept, n, a)
            (restart_accept-HasNext
              (record s {
                accepting = false;
                next_conn = none;
                conn_lst = s.conn_lst ++ start c ∷ [];
                total_conn_count = (s.total_conn_count + 1) % 2 ^ 32;
              })
              refl)
      | inr a ↦
          rw (on_accept, n, a)
            (restart_accept-HasNext (record s { accepting = false; next_conn = none }) refl)
    ]
  ]

  run-HasNext : (s : State C) → HasNext (run fresh s)
  unfolding run restart_accept restart_timer
  run-HasNext s = elim (Option-cases s.next_conn) [
    | inl n ↦ rw (run, restart_accept, restart_timer, n) (λ h. (fresh, refl))
    | inr (c, n) ↦ rw (run, restart_accept, restart_timer, n) (λ h. (c, refl))
  ]

  Reached-HasNext : (s0 s : State C) → Reached s0 s → HasNext s
  unfolding handle stop_internal
  Reached-HasNext s0 _ started = run-HasNext s0
  Reached-HasNext s0 s' (after {s} (accepted error allowed) r c e) =
      subst IfSome e (on_accept-HasNext s error allowed)
  Reached-HasNext s0 s' (after {s} (timer error) r c e) =
      let (n, a) = on_timer-next s error in
      let next = Reached-HasNext s0 s r in
      subst IfSome e (λ h. let (x, y) = next (sym a ∙ h) in (x, n ∙ y))
  Reached-HasNext s0 s' (after {s} end_posted r c e) = subst IfSome e (Reached-HasNext s0 s r)

  -- The state behind an accept, when `RestartAccept` is to come.
  abbrev welcomed : State C → C → Bool → State C
  welcomed s c allowed =
      if allowed
      then record s {
        accepting = false;
        next_conn = none;
        conn_lst = s.conn_lst ++ start c ∷ [];
        total_conn_count = (s.total_conn_count + 1) % 2 ^ 32;
      }
      else record s { accepting = false; next_conn = none }

  on_accept-welcomed :
      (s : State C) (c : C) (allowed : Bool)
      → s.next_conn ≡ some c
      → on_accept fresh start s false allowed ≡ some (restart_accept fresh (welcomed s c allowed))
  unfolding on_accept
  on_accept-welcomed s c true n = rw (on_accept, n) refl
  on_accept-welcomed s c false n = rw (on_accept, n) refl

  -- In every state in reach of a started server, whatever comes is handled: an accept that ends finds
  -- the connection that it is for.
  pub Reached-handles :
      (s0 s : State C) (e : Event)
      → Reached s0 s
      → Comes s e
      → (s' : State C) × (handle s e ≡ some s')
  unfolding handle on_accept
  Reached-handles s0 s (accepted true allowed) r c = (_, refl)
  Reached-handles s0 s (accepted false allowed) r c =
      let (x, y) = Reached-HasNext s0 s r c in
      (restart_accept fresh (welcomed s x allowed), on_accept-welcomed s x allowed y)
  Reached-handles s0 s (timer error) r c = (_, refl)
  Reached-handles s0 s end_posted r c = (_, refl)

  not_restarted :
      (s : State C) (c : C) (allowed : Bool)
      → stop (restart_accept fresh (welcomed (stop_internal stop_conn s) c allowed)) ≡ none
  unfolding stop restart_accept stop_internal
  not_restarted s c true = refl
  not_restarted s c false = refl

  -- From every state in reach with an accept under way, a state is in reach in which the call that
  -- `Stop` makes on the next connection is on the null pointer: the accept ends well behind the posted
  -- end.
  pub Reached-stop-none :
      (s0 s : State C) (allowed : Bool)
      → Reached s0 s
      → s.accepting ≡ true
      → (s' : State C) × Reached s0 s' × (stop s' ≡ none)
  unfolding handle stop_internal stop
  Reached-stop-none s0 s allowed r c =
      let (x, y) = Reached-HasNext s0 s r c in
      let ended = stop_internal stop_conn s in
      (
        restart_accept fresh (welcomed ended x allowed),
        after (accepted false allowed) (after end_posted r tt refl) c
            (on_accept-welcomed ended x allowed y),
        not_restarted s x allowed,
      )
