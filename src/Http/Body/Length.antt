-- ===== src/Http/Body/Length.antt =====
-- A response that announces its length.
use mini_web_srv.Base.{
  ℕ, zero, suc, ◌+◌, ◌-◌, ◌≤◌, ◌<◌, ◌≡◌, refl, sym, ap, ap₂, ◌∙◌, true, false, some, List, [], ◌∷◌,
  ◌++◌, Bytes, arith, leb, ◌==◌, length, length-append, append_assoc,
}
use mini_web_srv.Http.Body.{Read, length_body}

-- Reads before the last one: none finishes.
abbrev pub GoesOn : List Read → Type 0
GoesOn [] = Unit {0}
GoesOn (r ∷ rs) = (r.is_finished ≡ false) × GoesOn rs

abbrev pub all_bytes : List Read → Bytes
all_bytes [] = []
all_bytes (r ∷ rs) = r.bytes ++ all_bytes rs

length_body-last :
    (n : ℕ) (last : Read)
    → 0 < n
    → last.is_finished ≡ true
    → length_body n (last ∷ [])
      ≡ some
          (record { out = last.bytes; total = length last.bytes; keep = leb n (length last.bytes) })
unfolding length_body
length_body-last zero last h f = absurd (omega arith)
length_body-last (suc n) last h f = ground (arith, f)

leb-minus : (n m k : ℕ) → m ≤ n → leb (n - m) k ≡ leb n (m + k)
leb-minus n m k h = ground arith

-- A response whose reads, the last of them marked, give what it announced or less is written
-- completely, in order, and the connection is kept exactly if nothing is missing; the announced
-- length is not 0, and only the last read reaches it.
pub length_body-all_bytes :
    (n : ℕ) (rs : List Read) (last : Read)
    → GoesOn rs
    → last.is_finished ≡ true
    → length (all_bytes rs) < n
    → length_body n (rs ++ last ∷ [])
      ≡ some (record {
        out = all_bytes rs ++ last.bytes;
        total = length (all_bytes rs ++ last.bytes);
        keep = leb n (length (all_bytes rs ++ last.bytes));
      })
unfolding length_body
length_body-all_bytes n [] last g f h = length_body-last n last h f
length_body-all_bytes zero (r ∷ rs) last g f h = absurd (omega arith)
length_body-all_bytes (suc n) (r ∷ rs) last g f h =
    let le : leb (length r.bytes) (suc n) ≡ true =
      ground (arith, length-append r.bytes (all_bytes rs)) in
    let ne : (suc n - length r.bytes == 0) ≡ false =
      ground (arith, length-append r.bytes (all_bytes rs)) in
    let ih =
      length_body-all_bytes (suc n - length r.bytes) rs last g.1 f
        (omega (arith, length-append r.bytes (all_bytes rs))) in
    let all = all_bytes rs ++ last.bytes in
    let k : leb (suc n - length r.bytes) (length all) ≡ leb (suc n) (length r.bytes + length all) =
      leb-minus (suc n) (length r.bytes) (length all)
        (omega (arith, length-append r.bytes (all_bytes rs))) in
    rw (le, g.0, ne, ih)
      (ap₂ (λ x b. some (record { out = r.bytes ++ all; total = x; keep = b })) refl k
        ∙ ap (λ x. some (record { out = r.bytes ++ all; total = x; keep = leb (suc n) x }))
            (sym (length-append r.bytes all))
        ∙ ap (λ x. some (record { out = x; total = length x; keep = leb (suc n) (length x) }))
            (sym (append_assoc r.bytes (all_bytes rs) last.bytes)))
