-- ===== src/WriteQueue/Queue/Release.antt =====
-- What `Release` does to the texts of the buffers.
use mini_web_srv.Base.{
  ℕ, zero, suc, ◌+◌, ◌-◌, ◌%◌, ◌^◌, ◌≤◌, ◌<◌, ◌≡◌, refl, sym, ap, ap₂, subst, List, [], ◌∷◌, ◌++◌,
  Bytes, arith, length, take, drop,
}
use mini_web_srv.WriteQueue.{Fifo}
use mini_web_srv.WriteQueue.Queue.{
  bs_pending, bs_writing, Place, in_static, on_heap, Buffer, DynBuffer, Queue, text, release,
}
use mini_web_srv.WriteQueue.Queue.Placed.{Placed}
use mini_web_srv.WriteQueue.Queue.Released.{release_fifo-Placed}
use mini_web_srv.WriteQueue.Queue.Inv.{
  IsValid, span, spans, texts, Fits, AllStored_add, Phases-length,
}

-- The fields of a queue, the last its first buffer.
abbrev pub with_front : Bytes → Fifo → ℕ → ℕ → List DynBuffer → List Buffer → Buffer → Queue
with_front mem fifo last k free bs b = record {
  write_buff = mem;
  fifo = fifo;
  last_alloc_length = last;
  out = b ∷ bs;
  first_pending = k;
  free = free;
}

module _ (size : ℕ) where
  -- What `Release` gives: the first text that is being written is forgotten, or nothing if none is.
  abbrev pub Releases : Queue → Queue → Type 0
  Releases q q' =
      (forgotten : List Bytes) × (take q.first_pending (texts q.write_buff q.out)
        ≡ forgotten ++ take q'.first_pending (texts q'.write_buff q'.out))
      × (drop q.first_pending (texts q.write_buff q.out)
          ≡ drop q'.first_pending (texts q'.write_buff q'.out))

  abbrev pub Leaves : Bytes → ℕ → List Buffer → Queue → Type 0
  Leaves mem k bs q = IsValid size q × (q.write_buff ≡ mem) × (q.first_pending ≡ k) × (q.out ≡ bs)

  -- A release of the front buffer.
  pub release-front :
      (mem : Bytes) (fifo : Fifo) (last k : ℕ) (free : List DynBuffer) (bs : List Buffer)
      (b : Buffer) (p : Place)
      → b.place ≡ p
      → b.state ≡ bs_writing
      → suc k < 2 ^ 32
      → IsValid size (with_front mem fifo last (suc k) free bs b)
      → Leaves mem k bs (release size (with_front mem fifo last (suc k) free bs b))
  unfolding release
  release-front mem fifo last k free bs b (in_static o) e s h v =
      let small : (suc k + 2 ^ 32 - 1) % 2 ^ 32 ≡ k = omega arith in
      rw (release, s, e, small)
        (
          record {
            stored = v.stored;
            placed =
                release_fifo-Placed size fifo o b.len (spans bs)
                  (subst (λ p. Placed size fifo (span p b.len ++ spans bs)) e v.placed);
            fit = v.fit.1;
            phases = v.phases.1;
            kept = v.kept;
          },
          refl,
          refl,
          refl,
        )
  release-front mem fifo last k free bs b (on_heap block) e s h v =
      let small : (suc k + 2 ^ 32 - 1) % 2 ^ 32 ≡ k = omega arith in
      rw (release, s, e, small)
        (
          record {
            stored = v.stored;
            placed = subst (λ p. Placed size fifo (span p b.len ++ spans bs)) e v.placed;
            fit = v.fit.1;
            phases = v.phases.1;
            kept =
                AllStored_add free _ v.kept (subst (λ p. Fits p b.len b.alloc_length) e v.fit.0).1;
          },
          refl,
          refl,
          refl,
        )

  release_none :
      (mem : Bytes) (fifo : Fifo) (last k : ℕ) (free : List DynBuffer) (bs : List Buffer)
      (b : Buffer)
      → b.state ≡ bs_pending
      → release size (with_front mem fifo last k free bs b) ≡ with_front mem fifo last k free bs b
  unfolding release
  release_none mem fifo last k free bs b e = rw (release, e) refl

  -- A release keeps the queue valid, forgets at most the first of the texts that are being written,
  -- and leaves what waits.
  pub release-Releases :
      (q : Queue)
      → IsValid size q
      → length q.out < 2 ^ 32
      → IsValid size (release size q)
        × Releases q (release size q)
        × (length (release size q).out ≤ length q.out)
  unfolding release
  release-Releases q = at q.write_buff q.fifo q.last_alloc_length q.first_pending q.free q.out
    where
      at :
          (mem : Bytes) (fifo : Fifo) (last k : ℕ) (free : List DynBuffer) (out : List Buffer)
          → IsValid size (record {
            write_buff = mem;
            fifo = fifo;
            last_alloc_length = last;
            out = out;
            first_pending = k;
            free = free;
          })
          → length out < 2 ^ 32
          → let q : Queue = record {
            write_buff = mem;
            fifo = fifo;
            last_alloc_length = last;
            out = out;
            first_pending = k;
            free = free;
          } in
            IsValid size (release size q)
            × Releases q (release size q)
            × (length (release size q).out ≤ length q.out)
      at mem fifo last k free [] v h = (v, ([], refl, refl), omega arith)
      at mem fifo last zero free (b ∷ bs) v h =
          rw (release_none mem fifo last zero free bs b v.phases.0)
            (v, ([], refl, refl), omega arith)
      at mem fifo last (suc k) free (b ∷ bs) v h =
          let (v', m, k', o) =
            release-front mem fifo last k free bs b b.place refl v.phases.0
              (omega (arith, Phases-length (suc k) (b ∷ bs) v.phases)) v in
          let q' = release size (with_front mem fifo last (suc k) free bs b) in
          let same : texts q'.write_buff q'.out ≡ texts mem bs = ap₂ texts m o in
          (
            v',
            (
              text mem b ∷ [],
              ap (◌∷◌ (text mem b)) (sym (ap₂ take k' same)),
              sym (ap₂ drop k' same),
            ),
            omega (arith, ap length o),
          )
