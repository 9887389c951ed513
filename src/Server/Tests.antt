-- ===== src/Server/Tests.antt =====
-- The theorems at a server whose connections are numbers: the steps that are left.
use mini_web_srv.Base.{
  ℕ, ◌+◌, ◌-◌, ◌%◌, ◌^◌, ◌≡◌, refl, true, false, none, some, [], ◌∷◌, ◌++◌, length, ltb, ◌==◌,
  if◌then◌else◌,
}
use mini_web_srv.Server.{State, Stepped, run, on_timer, stop}
use mini_web_srv.Server.Laws.{staying, going_on, all_responses, on_timer-counts}
use mini_web_srv.Server.Reach.{
  accepted, handle, Reached, started, Reached-handles, Reached-stop-none,
}

-- The connection with two steps left is replaced by another.
abbrev count_down : ℕ → Stepped ℕ
count_down n = record { conn = n - 1; stays = ltb 2 n; next = if n == 2 then some 9 else none }

abbrev responses : ℕ → ℕ
responses n = 10 + n

abbrev same : ℕ → ℕ
same n = n

abbrev server : State ℕ
server = record {
  is_running = false;
  next_conn = none;
  conn_lst = 5 ∷ 2 ∷ 1 ∷ [];
  conn_count = 0;
  total_conn_count = 3;
  base_resp_count = 4;
  total_resp_count = 4;
  accepting = false;
  timing = false;
}

on_timer-counts_example :
    ((on_timer count_down responses server false).conn_lst
      ≡ staying count_down responses server.conn_lst
        ++ going_on count_down responses server.conn_lst)
    × ((on_timer count_down responses server false).conn_count
        ≡ length (staying count_down responses server.conn_lst) % 2 ^ 32)
    × ((on_timer count_down responses server false).total_resp_count
        ≡ (server.base_resp_count + all_responses count_down responses server.conn_lst) % 2 ^ 32)
on_timer-counts_example = on_timer-counts count_down responses server

Reached-handles_example :
    (s' : State ℕ) × (handle count_down responses same same 8 (run 8 server) (accepted false true)
      ≡ some s')
unfolding run
Reached-handles_example =
    Reached-handles count_down responses same same 8 server (run 8 server) (accepted false true)
      started refl

Reached-stop-none_example :
    (s' : State ℕ) × Reached count_down responses same same 8 server s' × (stop s' ≡ none)
unfolding run
Reached-stop-none_example =
    Reached-stop-none count_down responses same same 8 server (run 8 server) true started refl
