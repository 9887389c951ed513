-- ===== src/WriteQueue/Queue/Pop.antt =====
-- What `Pop` does to the texts of the buffers.
use mini_web_srv.Base.{
  ℕ, zero, suc, ◌+◌, ◌%◌, ◌^◌, ◌<◌, ◌≡◌, refl, sym, ap, ◌∙◌, subst, inl, inr, Option, Option-cases,
  none, some, List, [], ◌∷◌, ◌++◌, Bytes, arith, length, get_elem?, take, drop,
}
use mini_web_srv.WriteQueue.Queue.{Buffer, Queue, set_writing, text, pop}
use mini_web_srv.WriteQueue.Queue.Placed.{Placed}
use mini_web_srv.WriteQueue.Queue.Inv.{IsValid, span, spans, texts, AllFit, Phases, Phases-length}

spans-set_writing : (k : ℕ) (bs : List Buffer) → spans (set_writing k bs) ≡ spans bs
spans-set_writing k [] = refl
spans-set_writing zero (b ∷ bs) = refl
spans-set_writing (suc k) (b ∷ bs) = ap (◌++◌ (span b.place b.len)) (spans-set_writing k bs)

AllFit-set_writing : (k : ℕ) (bs : List Buffer) → AllFit bs → AllFit (set_writing k bs)
AllFit-set_writing k [] f = f
AllFit-set_writing zero (b ∷ bs) f = f
AllFit-set_writing (suc k) (b ∷ bs) f = (f.0, AllFit-set_writing k bs f.1)

length-set_writing : (k : ℕ) (bs : List Buffer) → length (set_writing k bs) ≡ length bs
length-set_writing k [] = refl
length-set_writing zero (b ∷ bs) = refl
length-set_writing (suc k) (b ∷ bs) = ap suc (length-set_writing k bs)

texts-set_writing :
    (mem : Bytes) (k : ℕ) (bs : List Buffer) → texts mem (set_writing k bs) ≡ texts mem bs
unfolding text
texts-set_writing mem k [] = refl
texts-set_writing mem zero (b ∷ bs) = refl
texts-set_writing mem (suc k) (b ∷ bs) = ap (◌∷◌ (text mem b)) (texts-set_writing mem k bs)

Phases-set_writing :
    (k : ℕ) (bs : List Buffer) (b : Buffer)
    → Phases k bs
    → get_elem? bs k ≡ some b
    → Phases (suc k) (set_writing k bs)
Phases-set_writing zero [] b p e = absurd (ground arith)
Phases-set_writing (suc k) [] b p e = absurd (ground arith)
Phases-set_writing zero (c ∷ cs) b p e = (refl, p.1)
Phases-set_writing (suc k) (c ∷ cs) b p e = (p.0, Phases-set_writing k cs b p.1 e)

nothing_waits :
    (mem : Bytes) (k : ℕ) (bs : List Buffer) → get_elem? bs k ≡ none → drop k (texts mem bs) ≡ []
nothing_waits mem zero [] e = refl
nothing_waits mem (suc k) [] e = refl
nothing_waits mem zero (b ∷ bs) e = absurd (ground arith)
nothing_waits mem (suc k) (b ∷ bs) e = nothing_waits mem k bs e

next_waits :
    (mem : Bytes) (k : ℕ) (bs : List Buffer) (b : Buffer)
    → get_elem? bs k ≡ some b
    → (drop k (texts mem bs) ≡ text mem b ∷ drop (suc k) (texts mem bs))
      × (take (suc k) (texts mem bs) ≡ take k (texts mem bs) ++ text mem b ∷ [])
next_waits mem zero [] b e = absurd (ground arith)
next_waits mem (suc k) [] b e = absurd (ground arith)
next_waits mem zero (c ∷ cs) b e =
    let same : text mem c ≡ text mem b =
      ap (λ (o : Option Buffer). elim o [ none ↦ [] | some x ↦ text mem x ]) e in
    (ap (λ t. t ∷ texts mem cs) same, ap (λ t. t ∷ []) same)
next_waits mem (suc k) (c ∷ cs) b e =
    let (x, y) = next_waits mem k cs b e in (x, ap (◌∷◌ (text mem c)) y)

module _ (size : ℕ) where
  -- What `Pop` gives: the first text that waits, which is then being written, or nothing if none
  -- waits.
  abbrev pub Pops : Queue → Queue → Option Bytes → Type 0
  Pops q q' none = (q' ≡ q) × (drop q.first_pending (texts q.write_buff q.out) ≡ [])
  Pops q q' (some t) =
      (drop q.first_pending (texts q.write_buff q.out)
        ≡ t ∷ drop q'.first_pending (texts q'.write_buff q'.out))
      × (take q'.first_pending (texts q'.write_buff q'.out)
          ≡ take q.first_pending (texts q.write_buff q.out) ++ t ∷ [])

  pub pop-Pops :
      (q : Queue)
      → IsValid size q
      → length q.out < 2 ^ 32
      → IsValid size (pop q).0 × Pops q (pop q).0 (pop q).1 × (length (pop q).0.out ≡ length q.out)
  unfolding pop
  pop-Pops q v h = elim (Option-cases (get_elem? q.out q.first_pending)) [
    | inl e ↦ rw (pop, e) (v, (refl, nothing_waits q.write_buff q.first_pending q.out e), refl)
    | inr (b, e) ↦
        let k = q.first_pending in
        let p = Phases-set_writing k q.out b v.phases e in
        let small : (k + 1) % 2 ^ 32 ≡ suc k =
          omega
            (arith, Phases-length (suc k) (set_writing k q.out) p, length-set_writing k q.out) in
        let (x, y) = next_waits q.write_buff k q.out b e in
        let t = texts-set_writing q.write_buff k q.out in
        rw (pop, e, small)
          (
            record {
              stored = v.stored;
              placed = subst (Placed size q.fifo) (sym (spans-set_writing k q.out)) v.placed;
              fit = AllFit-set_writing k q.out v.fit;
              phases = p;
              kept = v.kept;
            },
            (x ∙ ap (λ z. text q.write_buff b ∷ drop (suc k) z) (sym t), ap (take (suc k)) t ∙ y),
            length-set_writing k q.out,
          )
  ]
