-- ===== src/Http/Write/Laws.antt =====
-- `WriteAll` ends, and writes everything that waits.
use mini_web_srv.Base.{
  ℕ, zero, suc, ◌<◌, ◌≡◌, refl, sym, ap, ap₂, subst, ◌∙◌, some, List, [], ◌∷◌, ◌++◌, Bytes, arith,
  length, drop,
}
use mathlib.Core.List.{flatten}
use mini_web_srv.WriteQueue.{Fifo}
use mini_web_srv.WriteQueue.Queue.{Buffer, DynBuffer, Queue, bs_writing, text, pop, release}
use mini_web_srv.WriteQueue.Queue.Inv.{IsValid, texts}
use mini_web_srv.WriteQueue.Queue.Release.{with_front, release-front}
use mini_web_srv.WriteQueue.Queue.Order.{waiting}
use mini_web_srv.Http.Write.{write_all}

module _ (size : ℕ) where
  abbrev fields : Bytes → Fifo → ℕ → List DynBuffer → List Buffer → Queue
  fields mem fifo last free out = record {
    write_buff = mem;
    fifo = fifo;
    last_alloc_length = last;
    out = out;
    first_pending = 0;
    free = free;
  }

  popped-IsValid :
      (mem : Bytes) (fifo : Fifo) (last : ℕ) (free : List DynBuffer) (b : Buffer) (bs : List Buffer)
      → IsValid size (fields mem fifo last free (b ∷ bs))
      → IsValid size (with_front mem fifo last 1 free bs (record b { state = bs_writing }))
  popped-IsValid mem fifo last free b bs v = record {
    stored = v.stored;
    placed = v.placed;
    fit = v.fit;
    phases = (refl, v.phases.1);
    kept = v.kept;
  }

  write_all-step :
      (fuel : ℕ) (mem : Bytes) (fifo : Fifo) (last : ℕ) (free : List DynBuffer) (b : Buffer)
      (bs : List Buffer) (q : Queue) (ts : List Bytes)
      → write_all size fuel
          (release size (with_front mem fifo last 1 free bs (record b { state = bs_writing })))
        ≡ some (q, ts)
      → write_all size (suc fuel) (fields mem fifo last free (b ∷ bs)) ≡ some (q, text mem b ∷ ts)
  unfolding write_all pop
  write_all-step fuel mem fifo last free b bs q ts e = rw (write_all, e) refl

  write_all-nil :
      (fuel : ℕ) (mem : Bytes) (fifo : Fifo) (last : ℕ) (free : List DynBuffer)
      → write_all size (suc fuel) (fields mem fifo last free [])
        ≡ some (fields mem fifo last free [], [])
  unfolding write_all pop
  write_all-nil fuel mem fifo last free = refl

  -- The loop returns, has written everything that waited, and leaves an empty queue.
  abbrev pub WritesAll : ℕ → Queue → Type 0
  WritesAll fuel q =
      (q' : Queue) × (ts : List Bytes) × (write_all size fuel q ≡ some (q', ts))
      × (flatten ts ≡ waiting q)
      × IsValid size q'
      × (q'.out ≡ [])

  write_all-fields :
      (fuel : ℕ) (mem : Bytes) (fifo : Fifo) (last : ℕ) (free : List DynBuffer) (out : List Buffer)
      → ((q : Queue)
          → IsValid size q
          → q.first_pending ≡ 0
          → length q.out < fuel
          → WritesAll fuel q)
      → IsValid size (fields mem fifo last free out)
      → length out < suc fuel
      → WritesAll (suc fuel) (fields mem fifo last free out)
  unfolding flatten
  write_all-fields fuel mem fifo last free [] rest v l =
      (fields mem fifo last free [], [], write_all-nil fuel mem fifo last free, refl, v, refl)
  write_all-fields fuel mem fifo last free (b ∷ bs) rest v l =
      let q1 =
        release size (with_front mem fifo last 1 free bs (record b { state = bs_writing })) in
      let (v1, m, k, o) =
        release-front size mem fifo last 0 free bs (record b { state = bs_writing }) b.place refl
          refl (omega arith) (popped-IsValid mem fifo last free b bs v) in
      let (q', ts, e, w, v', z) = rest q1 v1 k (omega (arith, ap length o)) in
      (
        q',
        text mem b ∷ ts,
        write_all-step fuel mem fifo last free b bs q' ts e,
        ap (◌++◌ (text mem b)) (
            w
            ∙ ap (λ k. flatten (drop k (texts q1.write_buff q1.out))) k
            ∙ ap₂ (λ m o. flatten (texts m o)) m o),
        v',
        z,
      )

  -- From a valid queue of which nothing is being written, `WriteAll` ends after as many rounds as
  -- there are buffers and one; it has written everything that waited, in order, and leaves no buffer.
  pub write_all-WritesAll :
      (fuel : ℕ) (q : Queue)
      → IsValid size q
      → q.first_pending ≡ 0
      → length q.out < fuel
      → WritesAll fuel q
  write_all-WritesAll zero q v z l = absurd (omega arith)
  write_all-WritesAll (suc fuel) q v z l =
      let same : q ≡ record q { first_pending = 0 } = ap (λ k. record q { first_pending = k }) z in
      subst (WritesAll (suc fuel)) (sym same) (
        write_all-fields fuel q.write_buff q.fifo q.last_alloc_length q.free q.out
          (write_all-WritesAll fuel) (subst (IsValid size) same v) l)
