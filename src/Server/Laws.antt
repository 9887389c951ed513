-- ===== src/Server/Laws.antt =====
-- What a step of the timer does to the connections and the counts, and when there is a connection to
-- accept with.
use mini_web_srv.Base.{
  ℕ, ◌+◌, ◌%◌, ◌^◌, ◌<◌, ◌≡◌, refl, sym, ap, ap₂, ◌∙◌, false, inl, inr, Bool-cases, List, [], ◌∷◌,
  ◌++◌, arith, length, length-append, if◌then◌else◌, append_assoc, append-nil,
}
use mini_web_srv.Server.{
  State, Stepped, Round, to_list, restart_timer, step_conn, step_conns, on_timer,
}

module _ {C : Type 0} (on_step : C → Stepped C) (response_count : C → ℕ) where
  -- The connections that stay, as they are after their step.
  abbrev pub staying : List C → List C
  staying [] = []
  staying (c ∷ cs) = (if (on_step c).stays then (on_step c).conn ∷ [] else []) ++ staying cs

  -- The connections that others go on with.
  abbrev pub going_on : List C → List C
  going_on [] = []
  going_on (c ∷ cs) = to_list (on_step c).next ++ going_on cs

  -- The responses of all connections after their step, whether they stay or not.
  abbrev pub all_responses : List C → ℕ
  all_responses [] = 0
  all_responses (c ∷ cs) = response_count (on_step c).conn + all_responses cs

  -- What a round has more after some connections.
  abbrev Sums : Round C → List C → Round C → Type 0
  Sums r cs r' =
      (r'.kept ≡ r.kept ++ staying cs)
      × (r'.next_conn_lst ≡ r.next_conn_lst ++ going_on cs)
      × ((r'.base + r'.responses) % 2 ^ 32 ≡ (r.base + r.responses + all_responses cs) % 2 ^ 32)
      × (r'.active ≡ (r.active + length (staying cs)) % 2 ^ 32)

  step_conn-Sums :
      (r : Round C) (c : C)
      → r.active < 2 ^ 32
      → Sums r (c ∷ []) (step_conn on_step response_count r c)
  unfolding step_conn
  step_conn-Sums r c h = elim (Bool-cases (on_step c).stays) [
    | inl e ↦
        rw (step_conn, e)
          (
            refl,
            ap (◌++◌ r.next_conn_lst) (sym (append-nil (to_list (on_step c).next))),
            omega arith,
            omega arith,
          )
    | inr e ↦
        rw (step_conn, e)
          (
            sym (append-nil r.kept),
            ap (◌++◌ r.next_conn_lst) (sym (append-nil (to_list (on_step c).next))),
            omega arith,
            omega arith,
          )
  ]

  Sums-Sums :
      (r r1 r' : Round C) (c : C) (cs : List C)
      → Sums r (c ∷ []) r1
      → Sums r1 cs r'
      → Sums r (c ∷ cs) r'
  Sums-Sums r r1 r' c cs (a, b, n, m) (a', b', n', m') =
      let one = if (on_step c).stays then (on_step c).conn ∷ [] else [] in
      let new = to_list (on_step c).next in
      (
        a'
            ∙ ap (λ x. x ++ staying cs) (a ∙ ap (◌++◌ r.kept) (append-nil one))
            ∙ append_assoc r.kept one (staying cs),
        b'
            ∙ ap (λ x. x ++ going_on cs) (b ∙ ap (◌++◌ r.next_conn_lst) (append-nil new))
            ∙ append_assoc r.next_conn_lst new (going_on cs),
        omega arith,
        omega (arith, length-append one (staying cs), length-append one []),
      )

  step_conns-Sums :
      (r : Round C) (cs : List C)
      → r.active < 2 ^ 32
      → Sums r cs (step_conns on_step response_count r cs)
  unfolding step_conns
  step_conns-Sums r [] h = (
    sym (append-nil r.kept),
    sym (append-nil r.next_conn_lst),
    ap (λ x. x % 2 ^ 32) {x = r.base + r.responses} (omega arith),
    omega arith,
  )
  step_conns-Sums r (c ∷ cs) h =
      let r1 = step_conn on_step response_count r c in
      let one = step_conn-Sums r c h in
      Sums-Sums r r1 (step_conns on_step response_count r1 cs) c cs one
        (step_conns-Sums r1 cs (omega arith))

  abbrev first_round : State C → Round C
  first_round s = record {
    kept = [];
    next_conn_lst = [];
    active = 0;
    responses = 0;
    base = s.base_resp_count;
  }

  -- A step of the timer keeps, in order, the connections that stay, with those that others go on with
  -- behind them; the count of connections is that of those that stay, and the count of responses has
  -- every response of every connection, of the deleted ones too; both modulo 2^32.
  pub on_timer-counts :
      (s : State C)
      → let s' = on_timer on_step response_count s false in
        (s'.conn_lst ≡ staying s.conn_lst ++ going_on s.conn_lst)
        × (s'.conn_count ≡ length (staying s.conn_lst) % 2 ^ 32)
        × (s'.total_resp_count ≡ (s.base_resp_count + all_responses s.conn_lst) % 2 ^ 32)
  unfolding on_timer restart_timer
  on_timer-counts s =
      let (a, b, n, m) = step_conns-Sums (first_round s) s.conn_lst (omega arith) in
      let r = step_conns on_step response_count (first_round s) s.conn_lst in
      let count : r.active ≡ length (staying s.conn_lst) % 2 ^ 32 = omega arith in
      let total : (r.base + r.responses) % 2 ^ 32
          ≡ (s.base_resp_count + all_responses s.conn_lst) % 2 ^ 32 =
        omega arith in
      elim (Bool-cases s.is_running) [
        | inl e ↦ rw (on_timer, restart_timer, e) (ap₂ ◌++◌ a b, count, total)
        | inr e ↦ rw (on_timer, restart_timer, e) (ap₂ ◌++◌ a b, count, total)
      ]
