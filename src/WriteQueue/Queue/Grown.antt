-- ===== src/WriteQueue/Queue/Grown.antt =====
-- What a put does to a queue.
use mini_web_srv.Base.{
  ℕ, ◌+◌, ◌≤◌, ◌≡◌, refl, sym, ap, ◌∙◌, List, [], ◌∷◌, ◌++◌, Bytes, length, take, drop,
  take-append_le, drop-append_le, append-nil, append_assoc,
}
use mathlib.Core.List.{flatten}
use mini_web_srv.WriteQueue.Queue.{Queue}
use mini_web_srv.WriteQueue.Queue.Inv.{IsValid, texts}

-- The texts that wait are longer by `src`, and those that are being written are as they were.
abbrev pub Grown : ℕ → List Bytes → List Bytes → Bytes → Type 0
Grown k ts ts' src = (take k ts' ≡ take k ts) × (flatten (drop k ts') ≡ flatten (drop k ts) ++ src)

flatten-snoc : (ts : List Bytes) (t : Bytes) → flatten (ts ++ t ∷ []) ≡ flatten ts ++ t
unfolding flatten
flatten-snoc [] t = append-nil t
flatten-snoc (x ∷ ts) t = ap (◌++◌ x) (flatten-snoc ts t) ∙ sym (append_assoc x (flatten ts) t)

pub Grown-new :
    (k : ℕ) (ts : List Bytes) (src : Bytes) → k ≤ length ts → Grown k ts (ts ++ src ∷ []) src
Grown-new k ts src h = (
  take-append_le k ts (src ∷ []) h,
  ap flatten (drop-append_le k ts (src ∷ []) h) ∙ flatten-snoc (drop k ts) src,
)

pub Grown-same : (k : ℕ) (ts : List Bytes) (src : Bytes) → src ≡ [] → Grown k ts ts src
Grown-same k ts src e =
    (refl, sym (append-nil (flatten (drop k ts))) ∙ ap (◌++◌ (flatten (drop k ts))) (sym e))

pub Grown-joined :
    (k : ℕ) (ts : List Bytes) (t src : Bytes)
    → k ≤ length ts
    → Grown k (ts ++ t ∷ []) (ts ++ (t ++ src) ∷ []) src
Grown-joined k ts t src h =
    let (a, b) = Grown-new k ts t h in
    let (c, d) = Grown-new k ts (t ++ src) h in
    (c ∙ sym a, d ∙ sym (append_assoc (flatten (drop k ts)) t src) ∙ ap (λ x. x ++ src) (sym b))

pub Grown-by :
    (k : ℕ) (ts us ts' us' : List Bytes) (src : Bytes)
    → ts ≡ us
    → ts' ≡ us'
    → Grown k us us' src
    → Grown k ts ts' src
Grown-by k ts us ts' us' src e d g = rw (e, d) g

module _ (size : ℕ) where
  -- What a put does to a queue.
  pub record Puts (q : Queue) (src : Bytes) (q' : Queue) : Type 0 where
    pub valid : IsValid size q'
    pub first : q'.first_pending ≡ q.first_pending
    pub grown : Grown q.first_pending (texts q.write_buff q.out) (texts q'.write_buff q'.out) src
    pub longer : length q'.out ≤ length q.out + 1
