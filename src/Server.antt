-- ===== src/Server.antt =====
-- Server.cpp: the list of connections, the accepting of new ones, and the counts. A connection is of
-- the parameter type `C`, with `OnStep`, `GetResponseCount`, `Start` and `Stop` as functions, since
-- `ConnectionBase` is an interface; `fresh` is what `new Connection` makes. A filter's answer and an
-- error are part of an event. The counts are 32 bits wide.
pub mod Laws
pub mod Reach
mod Tests
use mini_web_srv.Base.{
  ℕ, ◌+◌, ◌%◌, ◌^◌, Bool, true, false, Option, none, some, List, [], ◌∷◌, ◌++◌, map, if◌then◌else◌,
}

-- `accepting` and `timing`: an accept, and a wait of the timer, is under way.
pub record State (C : Type 0) : Type 0 where
  pub is_running : Bool
  pub next_conn : Option C
  pub conn_lst : List C
  pub conn_count : ℕ
  pub total_conn_count : ℕ
  pub base_resp_count : ℕ
  pub total_resp_count : ℕ
  pub accepting : Bool
  pub timing : Bool

-- What `OnStep` gives: the connection after it, whether it stays, and a connection to go on with.
pub record Stepped (C : Type 0) : Type 0 where
  pub conn : C
  pub stays : Bool
  pub next : Option C

-- The variables of the loop in `OnTimer`: the connections that stay, the new ones, and the counts.
pub record Round (C : Type 0) : Type 0 where
  pub kept : List C
  pub next_conn_lst : List C
  pub active : ℕ
  pub responses : ℕ
  pub base : ℕ

abbrev pub to_list {ℓ} : {A : Type ℓ} → Option A → List A
to_list none = []
to_list (some a) = a ∷ []

module _ {C : Type 0} where
  unfoldable pub restart_timer : State C → State C
  restart_timer s = if s.is_running then record s { timing = true } else s

  -- `Stop`, when the thread has ended. `none` is a call on the null pointer.
  unfoldable pub stop : State C → Option (State C)
  stop s = elim s.next_conn [
    | none ↦ none
    | some c ↦ some (record s { conn_lst = []; next_conn = none })
  ]

module _ {C : Type 0} (fresh : C) where
  unfoldable pub restart_accept : State C → State C
  restart_accept s =
      if s.is_running
      then record s {
        next_conn = elim s.next_conn [ none ↦ some fresh | some c ↦ some c ];
        accepting = true;
      }
      else s

  -- `Run`, on a server whose thread is not started.
  unfoldable pub run : State C → State C
  unfolding restart_accept restart_timer
  run s = restart_timer (restart_accept (record s { is_running = true }))

  -- `OnAccept`, with the connection's `Start`. `none` is a call on the null pointer.
  unfoldable pub on_accept : (C → C) → State C → Bool → Bool → Option (State C)
  unfolding restart_accept
  on_accept start s error allowed =
      let s' = record s { accepting = false } in
      if error then some (restart_accept s') else elim s.next_conn [
        | none ↦ none
        | some c ↦ some (
            restart_accept (
              if allowed
              then record s' {
                next_conn = none;
                conn_lst = s.conn_lst ++ start c ∷ [];
                total_conn_count = (s.total_conn_count + 1) % 2 ^ 32;
              }
              else record s' { next_conn = none }))
      ]

module _ {C : Type 0} (on_step : C → Stepped C) (response_count : C → ℕ) where
  -- One turn of the loop in `OnTimer`.
  unfoldable pub step_conn : Round C → C → Round C
  step_conn r c =
      let t = on_step c in
      let r' = record r { next_conn_lst = r.next_conn_lst ++ to_list t.next } in
      if t.stays
      then record r' {
        kept = r.kept ++ t.conn ∷ [];
        active = (r.active + 1) % 2 ^ 32;
        responses = (r.responses + response_count t.conn) % 2 ^ 32;
      }
      else record r' { base = (r.base + response_count t.conn) % 2 ^ 32 }

  unfoldable pub step_conns : Round C → List C → Round C
  step_conns r [] = r
  step_conns r (c ∷ cs) = step_conns (step_conn r c) cs

  unfoldable pub on_timer : State C → Bool → State C
  unfolding step_conns restart_timer
  on_timer s error =
      let s' = record s { timing = false } in
      if error
      then s'
      else (let r =
            step_conns
              (record {
                kept = [];
                next_conn_lst = [];
                active = 0;
                responses = 0;
                base = s.base_resp_count;
              })
              s.conn_lst in
          restart_timer (record s' {
            conn_lst = r.kept ++ r.next_conn_lst;
            conn_count = r.active;
            base_resp_count = r.base;
            total_resp_count = (r.base + r.responses) % 2 ^ 32;
          }))

-- What was accepted before may still be reported after it.
unfoldable pub stop_internal : {C : Type 0} → (C → C) → State C → State C
stop_internal stop_conn s = record s { is_running = false; conn_lst = map stop_conn s.conn_lst }
