-- ===== src/Http/Head/Scan.antt =====
-- The scan of a head: it does not depend on the blocks, and it gives the lines.
use mini_web_srv.Base.{
  ℕ, Bool-cases, suc, subst, ◌≤◌, ◌+◌, ◌≡◌, refl, sym, ap, ◌∙◌, Bool, true, false, inl, inr, Option,
  none, some, [], ◌∷◌, ◌++◌, Bytes, arith, ltb, ◌==◌, if◌then◌else◌, length,
}
use mini_web_srv.Http.RequestLine.{Request, parse_request_line}
use mini_web_srv.Http.Head.{
  Head, Scanned, more, done, refused, overrun, end_line, scan_byte, shift, scan,
}

abbrev pub scan_from : Scanned → Bytes → Scanned
scan_from (more h) ys = scan h ys
scan_from r ys = r

abbrev pub scan_then : ℕ → Scanned → Bytes → Scanned
scan_then k (more h) ys = shift k (scan h ys)
scan_then k r ys = r

pub shift-shift : (j k m : ℕ) (r : Scanned) → m ≡ j + k → shift j (shift k r) ≡ shift m r
shift-shift j k m (done h n) e = ap (done h) (omega arith)
shift-shift j k m (more h) e = refl
shift-shift j k m refused e = refl
shift-shift j k m overrun e = refl

shift-scan_then :
    (k m : ℕ) (r : Scanned) (ys : Bytes)
    → m ≡ 1 + k
    → shift 1 (scan_then k r ys) ≡ scan_then m (shift 1 r) ys
shift-scan_then k m (more h) ys e = shift-shift 1 k m (scan h ys) e
shift-scan_then k m (done h n) ys e = refl
shift-scan_then k m refused ys e = refl
shift-scan_then k m overrun ys e = refl

pub shift_zero : (r : Scanned) → shift 0 r ≡ r
shift_zero (done h n) = ap (done h) (omega arith)
shift_zero (more h) = refl
shift_zero refused = refl
shift_zero overrun = refl

scan-cons : (h : Head) (x : ℕ) (xs : Bytes) → scan h (x ∷ xs) ≡ scan_then 1 (scan_byte h x) xs
unfolding scan
scan-cons h x xs = go (scan_byte h x) refl
  where
    go : (r : Scanned) → scan_byte h x ≡ r → scan h (x ∷ xs) ≡ scan_then 1 (scan_byte h x) xs
    go (more h') e = rw (scan, e) refl
    go (done h' n) e = rw (scan, e) refl
    go refused e = rw (scan, e) refl
    go overrun e = rw (scan, e) refl

scan_then-append :
    (k m : ℕ) (r : Scanned) (xs ys : Bytes)
    → ((h : Head) → scan h (xs ++ ys) ≡ scan_then k (scan h xs) ys)
    → m ≡ 1 + k
    → scan_then 1 r (xs ++ ys) ≡ scan_then m (scan_then 1 r xs) ys
scan_then-append k m (more h) xs ys ih e =
    ap (shift 1) (ih h) ∙ shift-scan_then k m (scan h xs) ys e
scan_then-append k m (done h n) xs ys ih e = refl
scan_then-append k m refused xs ys ih e = refl
scan_then-append k m overrun xs ys ih e = refl

-- The scan of a stream is the scan of its first block, and of the rest if that did not end it.
pub scan-append :
    (h : Head) (xs ys : Bytes) → scan h (xs ++ ys) ≡ scan_then (length xs) (scan h xs) ys
unfolding scan
scan-append h [] ys = sym (shift_zero (scan h ys))
scan-append h (x ∷ xs) ys =
    scan-cons h x (xs ++ ys)
    ∙ scan_then-append (length xs) (suc (length xs)) (scan_byte h x) xs ys
        (λ h'. scan-append h' xs ys) (omega arith)
    ∙ ap (λ r. scan_then (suc (length xs)) r ys) (sym (scan-cons h x xs))

-- The bytes that a finished head takes are there.
abbrev pub Counts : ℕ → Scanned → Type 0
Counts k (done h n) = n ≤ k
Counts k r = Unit {0}

end_line-Counts : (h : Head) → Counts 1 (end_line h)
unfolding end_line
end_line-Counts h = elim (Bool-cases h.found) [
  | inl f ↦ rw f tt
  | inr f ↦ rw f (parsed (parse_request_line h.request h.line))
]
  where
    parsed :
        (p : Option (Request × Bool))
        → Counts 1 (elim p [
          | none ↦ overrun
          | some (request, ok) ↦
              if ok then more (record h { request = request; found = true; line = [] }) else refused
        ])
    parsed none = tt
    parsed (some (r, true)) = tt
    parsed (some (r, false)) = tt

scan_byte-Counts : (h : Head) (c : ℕ) → Counts 1 (scan_byte h c)
unfolding scan_byte
scan_byte-Counts h c = elim (Bool-cases (c == b'\n')) [
  | inl e ↦ elim (Bool-cases (ltb 1 (length h.line))) [
    | inl l ↦ rw (e, l) (end_line-Counts h)
    | inr l ↦ rw (e, l) (omega arith)
  ]
  | inr e ↦ rw e tt
]

scan_then-Counts :
    (k m : ℕ) (r : Scanned) (ys : Bytes)
    → Counts 1 r
    → ((h : Head) → Counts k (scan h ys))
    → m ≡ 1 + k
    → Counts m (scan_then 1 r ys)
scan_then-Counts k m (more h) ys i j e = shifted (scan h ys) (j h)
  where
    shifted : (r : Scanned) → Counts k r → Counts m (shift 1 r)
    shifted (done h' n) l = omega arith
    shifted (more h') l = tt
    shifted refused l = tt
    shifted overrun l = tt
scan_then-Counts k m (done h n) ys i j e = omega arith
scan_then-Counts k m refused ys i j e = tt
scan_then-Counts k m overrun ys i j e = tt

pub scan-Counts : (h : Head) (xs : Bytes) → Counts (length xs) (scan h xs)
unfolding scan
scan-Counts h [] = tt
scan-Counts h (x ∷ xs) = subst (Counts (suc (length xs))) (sym (scan-cons h x xs)) (
    scan_then-Counts (length xs) (suc (length xs)) (scan_byte h x) xs (scan_byte-Counts h x)
      (λ h'. scan-Counts h' xs) (omega arith))
