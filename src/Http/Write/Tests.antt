-- ===== src/Http/Write/Tests.antt =====
-- The loop at a concrete queue.
use mini_web_srv.Base.{inl, refl, [], ◌∷◌, ◌++◌, arith, codes, replicate}
use mini_web_srv.WriteQueue.Queue.{Queue, in_static, on_heap, bs_pending}
use mini_web_srv.WriteQueue.Queue.Inv.{IsValid}
use mini_web_srv.Http.Write.Laws.{WritesAll, write_all-WritesAll}

abbrev two_buffers : Queue
two_buffers = record {
  write_buff = codes "abc" ++ replicate 5 0;
  fifo = record { free_begin = 3; used_begin = 0 };
  last_alloc_length = 9;
  out =
      record { place = in_static 0; len = 3; alloc_length = 3; state = bs_pending }
      ∷ record {
        place = on_heap (codes "defghijkl");
        len = 9;
        alloc_length = 9;
        state = bs_pending;
      }
      ∷ [];
  first_pending = 0;
  free = [];
}

two_buffers-IsValid : IsValid 8 two_buffers
two_buffers-IsValid = record {
  stored = refl;
  placed = inl ((omega arith, omega arith, omega arith), omega arith);
  fit = (tt, ((omega arith, omega arith), tt));
  phases = (refl, (refl, tt));
  kept = tt;
}

write_all-WritesAll_example : WritesAll 8 3 two_buffers
write_all-WritesAll_example =
    write_all-WritesAll 8 3 two_buffers two_buffers-IsValid refl (omega arith)
