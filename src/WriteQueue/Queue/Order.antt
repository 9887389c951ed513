-- ===== src/WriteQueue/Queue/Order.antt =====
-- The queue as a FIFO of bytes: what is popped is what was put, in order, over any calls.
use mini_web_srv.Base.{
  ℕ, ◌+◌, ◌≤◌, ◌<◌, ◌^◌, ◌≡◌, refl, sym, ap, ◌∙◌, Option, none, some, List, [], ◌∷◌, ◌++◌, Bytes,
  arith, length, take, drop, append_assoc, append-nil,
}
use mathlib.Core.List.{flatten}
use mini_web_srv.WriteQueue.Queue.{Queue, put, push, pop, release}
use mini_web_srv.WriteQueue.Queue.Inv.{IsValid, texts}
use mini_web_srv.WriteQueue.Queue.Grown.{Puts}
use mini_web_srv.WriteQueue.Queue.Heap.{put-Puts}
use mini_web_srv.WriteQueue.Queue.Push.{push-Puts}
use mini_web_srv.WriteQueue.Queue.Pop.{Pops, pop-Pops}
use mini_web_srv.WriteQueue.Queue.Release.{release-Releases}

-- The calls: a put allocates some length and commits its source, a push allocates what it commits.
pub data Op : Type 0 where
  put_text : ℕ → Bytes → Op
  push_text : Bytes → Op
  pop_text : Op
  release_text : Op

-- The texts that `Pop` returned and that are not released.
abbrev pub writing : Queue → List Bytes
writing q = take q.first_pending (texts q.write_buff q.out)

-- The bytes that wait for `Pop`.
abbrev pub waiting : Queue → Bytes
waiting q = flatten (drop q.first_pending (texts q.write_buff q.out))

abbrev pub outputs : Option Bytes → List Bytes
outputs none = []
outputs (some t) = t ∷ []

-- What the puts wrote, in order.
abbrev pub sources : List Op → Bytes
sources [] = []
sources (put_text n src ∷ ops) = src ++ sources ops
sources (push_text src ∷ ops) = src ++ sources ops
sources (pop_text ∷ ops) = sources ops
sources (release_text ∷ ops) = sources ops

-- Each put writes at most what it allocates, and all allocate less than 2^32 - 255 bytes.
abbrev pub Fit : List Op → Type 0
Fit [] = Unit {0}
Fit (put_text n src ∷ ops) = ((length src ≤ n) × (n + 255 < 2 ^ 32)) × Fit ops
Fit (push_text src ∷ ops) = (length src + 255 < 2 ^ 32) × Fit ops
Fit (pop_text ∷ ops) = Fit ops
Fit (release_text ∷ ops) = Fit ops

flatten-append : (xs ys : List Bytes) → flatten (xs ++ ys) ≡ flatten xs ++ flatten ys
unfolding flatten
flatten-append [] ys = refl
flatten-append (x ∷ xs) ys =
    ap (◌++◌ x) (flatten-append xs ys) ∙ sym (append_assoc x (flatten xs) (flatten ys))

module _ (size : ℕ) (garbage : ℕ → ℕ) where
  -- The queue after some calls, and the texts that were popped.
  abbrev pub run : Queue → List Op → Queue × List Bytes
  run q [] = (q, [])
  run q (put_text n src ∷ ops) = run (put size garbage q n src) ops
  run q (push_text src ∷ ops) = run (push size garbage q src) ops
  run q (pop_text ∷ ops) = let (q'', outs) = run (pop q).0 ops in (q'', outputs (pop q).1 ++ outs)
  run q (release_text ∷ ops) = run (release size q) ops

  -- The bytes that come out, and those that wait at the end, are those that waited and those that
  -- were put; and what is being written at the end was popped, and is as it was popped.
  abbrev pub InOrder : Queue → Bytes → Queue → List Bytes → Type 0
  InOrder q src q' outs =
      (flatten outs ++ waiting q' ≡ waiting q ++ src)
      × (released : List Bytes) × (writing q ++ outs ≡ released ++ writing q')

  put-InOrder :
      (q q' : Queue) (src : Bytes)
      → Puts size q src q'
      → (writing q' ≡ writing q) × (waiting q' ≡ waiting q ++ src)
  put-InOrder q q' src p = (
    ap (λ k. take k (texts q'.write_buff q'.out)) p.first ∙ p.grown.0,
    ap (λ k. flatten (drop k (texts q'.write_buff q'.out))) p.first ∙ p.grown.1,
  )

  pop-InOrder :
      (q q' : Queue) (r : Option Bytes)
      → Pops size q q' r
      → (waiting q ≡ flatten (outputs r) ++ waiting q') × (writing q' ≡ writing q ++ outputs r)
  unfolding flatten
  pop-InOrder q q' none (e, d) = (ap waiting (sym e), ap writing e ∙ sym (append-nil (writing q)))
  pop-InOrder q q' (some t) (a, b) =
      (ap flatten a ∙ ap (λ x. x ++ waiting q') (sym (append-nil t)), b)

  -- A put, and what comes after it.
  run-next :
      (q q' : Queue) (src : Bytes) (ops : List Op)
      → Puts size q src q'
      → (IsValid size q'
          → length q'.out ≤ length q.out + 1
          → IsValid size (run q' ops).0 × InOrder q' (sources ops) (run q' ops).0 (run q' ops).1)
      → IsValid size (run q' ops).0 × InOrder q (src ++ sources ops) (run q' ops).0 (run q' ops).1
  run-next q q' src ops p k =
      let (a, b) = put-InOrder q q' src p in
      let (v', (x, r, y)) = k p.valid p.longer in
      (
        v',
        (
          x ∙ ap (λ z. z ++ sources ops) b ∙ append_assoc (waiting q) src (sources ops),
          r,
          ap (λ z. z ++ (run q' ops).1) (sym a) ∙ y,
        ),
      )

  -- From a valid queue, over any puts, pushes, pops and releases, the bytes come out in the order in which
  -- they were put, none is lost, and what was popped stays as it was until it is released; under the
  -- bounds on the lengths and on the number of buffers.
  pub run-InOrder :
      (q : Queue) (ops : List Op)
      → IsValid size q
      → Fit ops
      → length q.out + length ops < 2 ^ 32
      → IsValid size (run q ops).0 × InOrder q (sources ops) (run q ops).0 (run q ops).1
  unfolding flatten
  run-InOrder q [] v f h = (v, (sym (append-nil (waiting q)), [], append-nil (writing q)))
  run-InOrder q (put_text n src ∷ ops) v f h =
      run-next q (put size garbage q n src) src ops (put-Puts size garbage q n src v f.0.0 f.0.1)
        (λ v' l. run-InOrder (put size garbage q n src) ops v' f.1 (omega arith))
  run-InOrder q (push_text src ∷ ops) v f h =
      run-next q (push size garbage q src) src ops (push-Puts size garbage q src v f.0)
        (λ v' l. run-InOrder (push size garbage q src) ops v' f.1 (omega arith))
  run-InOrder q (pop_text ∷ ops) v f h =
      let q' = (pop q).0 in
      let out = outputs (pop q).1 in
      let (v0, p, l) = pop-Pops size q v (omega arith) in
      let (a, b) = pop-InOrder q q' (pop q).1 p in
      let (v', (x, r, y)) = run-InOrder q' ops v0 f (omega arith) in
      let outs = (run q' ops).1 in
      (
        v',
        (
          ap (λ z. z ++ waiting (run q' ops).0) (flatten-append out outs)
              ∙ append_assoc (flatten out) (flatten outs) (waiting (run q' ops).0)
              ∙ ap (◌++◌ (flatten out)) x
              ∙ sym (append_assoc (flatten out) (waiting q') (sources ops))
              ∙ ap (λ z. z ++ sources ops) (sym a),
          r,
          sym (append_assoc (writing q) out outs) ∙ ap (λ z. z ++ outs) (sym b) ∙ y,
        ),
      )
  run-InOrder q (release_text ∷ ops) v f h =
      let q' = release size q in
      let (v0, (r0, a, b), l) = release-Releases size q v (omega arith) in
      let (v', (x, r, y)) = run-InOrder q' ops v0 f (omega arith) in
      (
        v',
        (
          x ∙ ap (λ z. flatten z ++ sources ops) (sym b),
          r0 ++ r,
          ap (λ z. z ++ (run q' ops).1) a
              ∙ append_assoc r0 (writing q') (run q' ops).1
              ∙ ap (◌++◌ r0) y
              ∙ sym (append_assoc r0 r (writing (run q' ops).0)),
        ),
      )
