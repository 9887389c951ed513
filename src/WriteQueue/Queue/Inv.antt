-- ===== src/WriteQueue/Queue/Inv.antt =====
-- The state of a queue between calls, and the texts of its buffers.
use mini_web_srv.Base.{
  ℕ, zero, suc, ◌+◌, ◌≤◌, ◌≡◌, refl, sym, ap, ap₂, ◌∙◌, ◌⊎◌, inl, inr, some, List, [], ◌∷◌, ◌++◌,
  Bytes, map, append_assoc, false, arith, length, take, drop,
}
use mini_web_srv.WriteQueue.Queue.{
  bs_pending, bs_writing, Place, in_static, on_heap, Buffer, DynBuffer, Queue, is_allocated, back,
  overwrite, text,
}
use mini_web_srv.WriteQueue.Queue.Memory.{overwrite_before, overwrite_behind}
use mini_web_srv.WriteQueue.Queue.Ring.{Span, Away}
use mini_web_srv.WriteQueue.Queue.Placed.{Placed}

abbrev pub span : Place → ℕ → List Span
span (in_static o) n = (o, n) ∷ []
span (on_heap block) n = []

abbrev pub spans : List Buffer → List Span
spans [] = []
spans (b ∷ bs) = span b.place b.len ++ spans bs

abbrev pub Fits : Place → ℕ → ℕ → Type 0
Fits (in_static o) n a = Unit {0}
Fits (on_heap block) n a = (n ≤ length block) × (a ≤ length block)

-- A buffer is not longer than its block.
abbrev pub AllFit : List Buffer → Type 0
AllFit [] = Unit {0}
AllFit (b ∷ bs) = Fits b.place b.len b.alloc_length × AllFit bs

abbrev pub AllStored : List DynBuffer → Type 0
AllStored [] = Unit {0}
AllStored (d ∷ ds) = (d.len ≤ length d.block) × AllStored ds

-- The first `k` buffers are being written, and the others wait.
abbrev pub Phases : ℕ → List Buffer → Type 0
Phases zero [] = Unit {0}
Phases (suc k) [] = suc k ≤ 0
Phases zero (b ∷ bs) = (b.state ≡ bs_pending) × Phases zero bs
Phases (suc k) (b ∷ bs) = (b.state ≡ bs_writing) × Phases k bs

module _ (size : ℕ) where
  pub record IsValid (q : Queue) : Type 0 where
    pub stored : length q.write_buff ≡ size
    pub placed : Placed size q.fifo (spans q.out)
    pub fit : AllFit q.out
    pub phases : Phases q.first_pending q.out
    pub kept : AllStored q.free

abbrev pub texts : Bytes → List Buffer → List Bytes
texts mem bs = map (text mem) bs

pub spans-append : (xs ys : List Buffer) → spans (xs ++ ys) ≡ spans xs ++ spans ys
spans-append [] ys = refl
spans-append (x ∷ xs) ys =
    ap (◌++◌ (span x.place x.len)) (spans-append xs ys)
    ∙ sym (append_assoc (span x.place x.len) (spans xs) (spans ys))

pub texts-append :
    (mem : Bytes) (xs ys : List Buffer) → texts mem (xs ++ ys) ≡ texts mem xs ++ texts mem ys
texts-append mem [] ys = refl
texts-append mem (x ∷ xs) ys = ap (◌∷◌ (text mem x)) (texts-append mem xs ys)

pub AllFit-append : (xs ys : List Buffer) → AllFit xs → AllFit ys → AllFit (xs ++ ys)
AllFit-append [] ys h k = k
AllFit-append (x ∷ xs) ys h k = (h.0, AllFit-append xs ys h.1 k)

pub AllFit-left : (xs ys : List Buffer) → AllFit (xs ++ ys) → AllFit xs
AllFit-left [] ys h = tt
AllFit-left (x ∷ xs) ys h = (h.0, AllFit-left xs ys h.1)

pub AllStored_add :
    (ds : List DynBuffer) (d : DynBuffer)
    → AllStored ds
    → d.len ≤ length d.block
    → AllStored (ds ++ d ∷ [])
AllStored_add [] d h k = (k, tt)
AllStored_add (e ∷ ds) d h k = (h.0, AllStored_add ds d h.1 k)

pub Phases-length : (k : ℕ) (bs : List Buffer) → Phases k bs → k ≤ length bs
Phases-length zero bs p = omega arith
Phases-length (suc k) [] p = absurd (omega arith)
Phases-length (suc k) (b ∷ bs) p = omega (arith, Phases-length k bs p.1)

pub Phases-add :
    (k : ℕ) (bs : List Buffer) (b : Buffer)
    → Phases k bs
    → b.state ≡ bs_pending
    → Phases k (bs ++ b ∷ [])
Phases-add zero [] b p e = (e, tt)
Phases-add zero (c ∷ cs) b p e = (p.0, Phases-add zero cs b p.1 e)
Phases-add (suc k) [] b p e = absurd (omega arith)
Phases-add (suc k) (c ∷ cs) b p e = (p.0, Phases-add k cs b p.1 e)

pub Phases-back :
    (k : ℕ) (bs : List Buffer) (b : Buffer)
    → Phases k bs
    → back bs ≡ some b
    → is_allocated b.state ≡ false
unfolding back
Phases-back zero [] b p e = absurd (ground arith)
Phases-back (suc k) [] b p e = absurd (ground arith)
Phases-back zero (c ∷ []) b p e = ground arith
Phases-back (suc k) (c ∷ []) b p e = ground arith
Phases-back zero (c ∷ d ∷ ds) b p e = Phases-back zero (d ∷ ds) b p.1 e
Phases-back (suc k) (c ∷ d ∷ ds) b p e = Phases-back k (d ∷ ds) b p.1 e

-- The phases with another pending buffer at the end.
pub Phases-change :
    (k : ℕ) (bs : List Buffer) (b c : Buffer)
    → Phases k (bs ++ b ∷ [])
    → b.state ≡ bs_pending
    → c.state ≡ bs_pending
    → Phases k (bs ++ c ∷ [])
Phases-change zero [] b c p e d = (d, tt)
Phases-change (suc k) [] b c p e d = absurd (ground arith)
Phases-change zero (x ∷ xs) b c p e d = (p.0, Phases-change zero xs b c p.1 e d)
Phases-change (suc k) (x ∷ xs) b c p e d = (p.0, Phases-change k xs b c p.1 e d)

pub Phases-before :
    (k : ℕ) (bs : List Buffer) (b : Buffer)
    → Phases k (bs ++ b ∷ [])
    → b.state ≡ bs_pending
    → k ≤ length bs
Phases-before zero bs b p e = omega arith
Phases-before (suc k) [] b p e = absurd (ground arith)
Phases-before (suc k) (x ∷ xs) b p e = omega (arith, Phases-before k xs b p.1 e)

pub length-texts : (mem : Bytes) (bs : List Buffer) → length (texts mem bs) ≡ length bs
length-texts mem [] = refl
length-texts mem (b ∷ bs) = ap suc (length-texts mem bs)

text-overwrite :
    (mem src : Bytes) (o n i m : ℕ)
    → length src ≤ n
    → (i + m ≤ o) ⊎ (o + n ≤ i)
    → take m (drop i (overwrite o src mem)) ≡ take m (drop i mem)
text-overwrite mem src o n i m h (inl a) = overwrite_before o i m src mem a
text-overwrite mem src o n i m h (inr a) = ap (take m) (overwrite_behind o i src mem (omega arith))

place-overwrite :
    (mem src : Bytes) (o n m : ℕ) (p : Place)
    → length src ≤ n
    → Away o n (span p m)
    → (elim p [
      | in_static i ↦ take m (drop i (overwrite o src mem))
      | on_heap block ↦ take m block
    ])
      ≡ (elim p [ in_static i ↦ take m (drop i mem) | on_heap block ↦ take m block ])
place-overwrite mem src o n m (in_static i) h a = text-overwrite mem src o n i m h a.0
place-overwrite mem src o n m (on_heap block) h a = refl

Away-parts :
    (o n m : ℕ) (p : Place) (ss : List Span)
    → Away o n (span p m ++ ss)
    → Away o n (span p m) × Away o n ss
Away-parts o n m (in_static i) ss a = ((a.0, tt), a.1)
Away-parts o n m (on_heap block) ss a = (tt, a)

-- A write away from the buffers leaves their texts.
pub texts-overwrite :
    (mem src : Bytes) (o n : ℕ) (bs : List Buffer)
    → length src ≤ n
    → Away o n (spans bs)
    → texts (overwrite o src mem) bs ≡ texts mem bs
unfolding text
texts-overwrite mem src o n [] h a = refl
texts-overwrite mem src o n (b ∷ bs) h a =
    let (x, y) = Away-parts o n b.len b.place (spans bs) a in
    ap₂ ◌∷◌ (place-overwrite mem src o n b.len b.place h x) (texts-overwrite mem src o n bs h y)
