-- ===== src/ReadBuff/Tests.antt =====
-- Runs of the read buffer over a storage of eight bytes, and the theorems at concrete inputs.
use mini_web_srv.Base.{ℕ, ◌≤◌, ◌≡◌, refl, true, List, [], ◌∷◌, Bytes, arith, codes, tabulate}
use mini_web_srv.ReadBuff.{Buff, consume, request_data, read_info, receive, reset_relevant}
use mini_web_srv.ReadBuff.Inv.{IsValid}
use mini_web_srv.ReadBuff.View.{view}
use mini_web_srv.ReadBuff.Steps.{
  Op, keep, skip, forget, want, arrive, run, step, stream_run, run-stream_run, request_data-receive,
}

abbrev storage : Bytes
storage = 0 ∷ 0 ∷ 0 ∷ 0 ∷ 0 ∷ 0 ∷ 0 ∷ 0 ∷ []

abbrev start : Buff
start = record { mem = storage; read_pos = 0; relevant = 0; data_end = 0; req_end = 0 }

abbrev dirty : ℕ → ℕ
dirty n = 7

start-IsValid : IsValid start
start-IsValid = omega arith

-- The third read needs a larger block.
abbrev calls : List Op
calls =
    arrive (codes "GET /a")
    ∷ keep 4
    ∷ forget
    ∷ skip 1
    ∷ arrive (codes "bc")
    ∷ keep 1
    ∷ want 9
    ∷ arrive (codes "defgh")
    ∷ []

run-calls : view (run dirty start calls) ≡ record { kept = codes "a"; pending = codes "bcdefgh" }
unfolding run step consume reset_relevant receive request_data tabulate
run-calls = refl

run-stream_run_example :
    IsValid (run dirty start calls) × (view (run dirty start calls) ≡ stream_run (view start) calls)
unfolding run step consume reset_relevant receive request_data tabulate
run-stream_run_example = run-stream_run dirty start calls start-IsValid (omega arith)

request_data-receive_example :
    (3 ≤ (read_info (request_data dirty start 3).0).0)
    × ((read_info (request_data dirty start 3).0).0 ≤ (read_info (request_data dirty start 3).0).1)
    × (request_data dirty (receive (request_data dirty start 3).0 (codes "abcd")) 3
        ≡ (receive (request_data dirty start 3).0 (codes "abcd"), true))
unfolding request_data read_info
request_data-receive_example =
    request_data-receive dirty start 3 (codes "abcd") start-IsValid (omega arith) refl (omega arith)
      (omega arith)

abbrev filled : Buff
filled = record start { data_end = 6; req_end = 6 }
