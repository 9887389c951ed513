-- ===== src/WriteQueue/Queue/Tests.antt =====
-- The queue at a concrete input, on a static buffer of eight bytes.
use mini_web_srv.Base.{ℕ, refl, List, [], ◌∷◌, arith, codes, replicate}
use mini_web_srv.WriteQueue.Queue.{Queue}
use mini_web_srv.WriteQueue.Queue.Inv.{IsValid}
use mini_web_srv.WriteQueue.Queue.Order.{
  Op, put_text, push_text, pop_text, release_text, sources, run, InOrder, run-InOrder,
}
use mini_web_srv.Base.{inl}

abbrev dirty : ℕ → ℕ
dirty n = 7

abbrev empty : Queue
empty = record {
  write_buff = replicate 8 0;
  fifo = record { free_begin = 0; used_begin = 0 };
  last_alloc_length = 0;
  out = [];
  first_pending = 0;
  free = [];
}

empty-IsValid : IsValid 8 empty
empty-IsValid = record {
  stored = refl;
  placed = inl (omega arith, omega arith);
  fit = tt;
  phases = tt;
  kept = tt;
}

-- The second put extends the first; the third wraps, and the last needs a block.
abbrev calls : List Op
calls =
    put_text 4 (codes "abc")
    ∷ push_text (codes "de")
    ∷ pop_text
    ∷ release_text
    ∷ push_text (codes "fghij")
    ∷ pop_text
    ∷ push_text (codes "klmnopqrs")
    ∷ pop_text
    ∷ []

run-InOrder_example :
    IsValid 8 (run 8 dirty empty calls).0
    × InOrder 8 dirty empty (sources calls) (run 8 dirty empty calls).0 (run 8 dirty empty calls).1
run-InOrder_example =
    run-InOrder 8 dirty empty calls empty-IsValid
      ((omega arith, omega arith), (omega arith, (omega arith, (omega arith, tt)))) (omega arith)
