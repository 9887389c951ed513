-- ===== src/Query/Boundary/Window.antt =====
-- Windows of a chunk that grows by a byte, and what events say in items.
use mini_web_srv.Base.{
  ℕ, zero, suc, ◌+◌, ◌-◌, ◌≤◌, ◌≡◌, refl, sym, ap, ◌∙◌, List, [], ◌∷◌, ◌++◌, Bytes, arith, length,
  drop, append_assoc, length-append, take-append_le, drop-append_le, take-append-length,
  drop-append-length, take_all, drop_all, take-append-drop,
}
use mini_web_srv.Query.Boundary.{Event, emit, slice}
use mini_web_srv.Query.Boundary.Stream.{
  Item, byte, bytes, items, bytes-append, items-append, items-emit,
}

pub length-concat : (xs : Bytes) (c : ℕ) → length (xs ++ c ∷ []) ≡ length xs + 1
length-concat xs c = omega (arith, length-append xs (c ∷ []))

pub slice-concat :
    (i j : ℕ) (xs : Bytes) (c : ℕ) → j ≤ length xs → slice i j (xs ++ c ∷ []) ≡ slice i j xs
slice-concat i j xs c h = ap (drop i) (take-append_le j xs (c ∷ []) h)

pub slice_whole : (i j : ℕ) (xs : Bytes) → j ≡ length xs → slice i j xs ≡ drop i xs
slice_whole i j xs e = ap (drop i) (take_all j xs (omega arith))

-- A window up to the end is a window up to `j` and the rest.
pub slice-append-drop :
    (i j : ℕ) (xs : Bytes) → i ≤ j → j ≤ length xs → drop i xs ≡ slice i j xs ++ drop j xs
slice-append-drop zero j xs h k = sym (take-append-drop j xs)
slice-append-drop (suc i) zero xs h k = ground arith
slice-append-drop (suc i) (suc j) [] h k = refl
slice-append-drop (suc i) (suc j) (x ∷ xs) h k =
    slice-append-drop i j xs (omega arith) (omega arith)

pub slice-concat_last :
    (i : ℕ) (xs : Bytes) (c : ℕ) → slice i (length (xs ++ c ∷ []) - 1) (xs ++ c ∷ []) ≡ drop i xs
slice-concat_last i xs c =
    ap (λ n. slice i n (xs ++ c ∷ [])) (omega (arith, length-concat xs c))
    ∙ ap (drop i) (take-append-length xs (c ∷ []))

pub drop-concat_last :
    (xs : Bytes) (c : ℕ) → drop (length (xs ++ c ∷ []) - 1) (xs ++ c ∷ []) ≡ c ∷ []
drop-concat_last xs c =
    ap (λ n. drop n (xs ++ c ∷ [])) (omega (arith, length-concat xs c))
    ∙ drop-append-length xs (c ∷ [])

pub drop-all_concat : (xs : Bytes) → drop (length xs) xs ≡ []
drop-all_concat xs = drop_all (length xs) xs (omega arith)

pub slice_end : (xs : Bytes) → slice (length xs) (length xs - 0) xs ≡ []
slice_end xs = slice_whole (length xs) (length xs - 0) xs (omega arith) ∙ drop-all_concat xs

-- The window before the match does not change with one more byte.
pub window-concat :
    (i k : ℕ) (xs : Bytes) (c : ℕ)
    → k ≤ length xs
    → slice i (length (xs ++ c ∷ []) - (k + 1)) (xs ++ c ∷ []) ≡ slice i (length xs - k) xs
window-concat i k xs c h =
    ap (λ n. slice i n (xs ++ c ∷ [])) (omega (arith, length-concat xs c))
    ∙ slice-concat i (length xs - k) xs c (omega arith)

pub held-concat :
    (k : ℕ) (xs : Bytes) (c : ℕ)
    → k ≤ length xs
    → drop (length (xs ++ c ∷ []) - (k + 1)) (xs ++ c ∷ []) ≡ drop (length xs - k) xs ++ c ∷ []
held-concat k xs c h =
    ap (λ n. drop n (xs ++ c ∷ [])) (omega (arith, length-concat xs c))
    ∙ drop-append_le (length xs - k) xs (c ∷ []) (omega arith)

pub items-concat :
    (done out : List Item) (xs : Bytes) (c : ℕ)
    → done ≡ out ++ bytes xs
    → done ++ byte c ∷ [] ≡ out ++ bytes (xs ++ c ∷ [])
items-concat done out xs c e =
    ap (λ d. d ++ byte c ∷ []) e
    ∙ append_assoc out (bytes xs) (byte c ∷ [])
    ∙ ap (◌++◌ out) (sym (bytes-append xs (c ∷ [])))

pub items-out :
    (out : List Event) (bs : Bytes) (es : List Event)
    → items (out ++ (emit bs ++ es)) ≡ items out ++ (bytes bs ++ items es)
items-out out bs es =
    items-append out (emit bs ++ es)
    ∙ ap (◌++◌ (items out)) (items-append (emit bs) es ∙ ap (λ x. x ++ items es) (items-emit bs))
