-- ===== src/Query/Boundary/Inv.antt =====
-- What holds between the bytes of a chunk, kept by each branch of `AppendFormMultipart`.
use mini_web_srv.Base.{
  ℕ, ◌+◌, ◌-◌, ◌≤◌, ◌<◌, ◌≡◌, refl, sym, ap, ap₂, ◌∙◌, inl, inr, List, [], ◌∷◌, ◌++◌, arith, ◌==◌,
  ==_iff, Bool-cases, length, take, drop, append_assoc, append-nil, drop-append_le, drop_all,
  drop-nil,
}
use mini_web_srv.Query.Boundary.{
  new_part, Scan, emit, slice, search, full_match, broken_match, finish,
}
use mini_web_srv.Query.Boundary.Stream.{
  Item, part, bytes, items, Held, restart, bytes-append, items-append, items-emit,
}
use mini_web_srv.Query.Boundary.Window.{
  length-concat, slice_whole, slice-append-drop, slice-concat_last, drop-concat_last,
  drop-all_concat, slice_end, window-concat, held-concat, items-concat, items-out,
}

-- What is known inside a call: either the match started in this chunk, or it was carried over and
-- nothing else has been seen.
pub data Inv (s : Scan) (done : List Item) (h : Held) : Type 0 where
  here :
      s.parse_tmp ≡ []
      → h.matched ≡ s.counter
      → s.content + s.counter ≤ length s.seen
      → done ≡ items s.out ++ bytes (slice s.content (length s.seen - s.counter) s.seen)
      → h.held ≡ drop (length s.seen - s.counter) s.seen
      → Inv s done h
  carried :
      s.out ≡ []
      → s.content ≡ 0
      → length s.parse_tmp + length s.seen ≤ s.counter
      → length s.seen < s.counter
      → h.matched ≡ s.counter
      → done ≡ []
      → h.held ≡ s.parse_tmp ++ s.seen
      → Inv s done h

pub search-Inv :
    (s : Scan) (done : List Item) (c : ℕ)
    → s.counter ≡ 0
    → s.parse_tmp ≡ []
    → s.content ≤ length s.seen
    → done ≡ items s.out ++ bytes (drop s.content s.seen)
    → Inv (search s c) (done ++ (restart c).0) (restart c).1
unfolding search
search-Inv s done c k t h e = elim (Bool-cases (c == b'\r')) [
  | inl q ↦
      here t (ground arith) (ground (arith, length-concat s.seen c))
        (ground (arith, append-nil done, e, slice-concat_last s.content s.seen c))
        (ground (arith, drop-concat_last s.seen c))
  | inr q ↦
      here t (ground arith) (ground (arith, length-concat s.seen c))
        (ground (
          arith,
          items-concat done (items s.out) (drop s.content s.seen) c e,
          drop-append_le s.content s.seen (c ∷ []) h,
          slice_whole s.content (length (s.seen ++ c ∷ [])) (s.seen ++ c ∷ []) refl,
        ))
        (ground (arith, drop-all_concat (s.seen ++ c ∷ [])))
]

spent : (t k n m : ℕ) → m ≡ n + 1 → t + n ≤ k → t - (k + 1 - m) ≡ 0
spent t k n m e h = omega arith

pub full_match-Inv :
    (s : Scan) (done : List Item) (h : Held) (c : ℕ)
    → Inv s done h
    → Inv (full_match s (s.counter + 1) c) (done ++ part ∷ []) (record { matched = 0; held = [] })
unfolding full_match
full_match-Inv s done h c (here t m le d e) =
    here refl refl (omega arith)
      (grind (
        arith,
        d,
        slice_end (s.seen ++ c ∷ []),
        window-concat s.content s.counter s.seen c (omega arith),
        length-concat s.seen c,
        append_assoc (items s.out) (bytes (slice s.content (length s.seen - s.counter) s.seen))
            (part ∷ []),
        append-nil (
            items s.out
            ++ (bytes (slice s.content (length s.seen - s.counter) s.seen) ++ part ∷ [])),
        items-out s.out (slice s.content (length s.seen - s.counter) s.seen) (new_part ∷ []),
      ))
      (sym (drop_all (length (s.seen ++ c ∷ []) - 0) (s.seen ++ c ∷ []) (omega arith)))
full_match-Inv s done h c (carried o z le lt m d e) =
    here refl refl (omega arith)
      (ground (
        arith,
        length-concat s.seen c,
        d,
        slice_end (s.seen ++ c ∷ []),
        ap items o,
        items-append s.out (new_part ∷ []),
        ap (λ n. take n s.parse_tmp)
            (spent (length s.parse_tmp) s.counter (length s.seen) (length (s.seen ++ c ∷ []))
              (length-concat s.seen c) le),
      ))
      (sym (drop_all (length (s.seen ++ c ∷ []) - 0) (s.seen ++ c ∷ []) (omega arith)))

pub broken_match-done :
    (s : Scan) (done : List Item) (h : Held)
    → Inv s done h
    → items (broken_match s).out ≡ done ++ bytes h.held
unfolding broken_match
broken_match-done s done h (here t m le d e) =
    items-out s.out s.parse_tmp (emit (drop s.content s.seen))
    ∙ ap₂ (λ tmp rest. items s.out ++ (bytes tmp ++ rest)) t
        (items-emit (drop s.content s.seen)
          ∙ ap bytes (
              slice-append-drop s.content (length s.seen - s.counter) s.seen (omega arith)
                (omega arith))
          ∙ bytes-append (slice s.content (length s.seen - s.counter) s.seen)
              (drop (length s.seen - s.counter) s.seen))
    ∙ sym (
        append_assoc (items s.out) (bytes (slice s.content (length s.seen - s.counter) s.seen))
          (bytes (drop (length s.seen - s.counter) s.seen)))
    ∙ ap₂ (λ x y. x ++ bytes y) (sym d) (sym e)
broken_match-done s done h (carried o z le lt m d e) =
    items-out s.out s.parse_tmp (emit (drop s.content s.seen))
    ∙ ap₂ (λ out n. items out ++ (bytes s.parse_tmp ++ items (emit (drop n s.seen)))) o z
    ∙ ap (◌++◌ (bytes s.parse_tmp)) (items-emit s.seen)
    ∙ sym (bytes-append s.parse_tmp s.seen)
    ∙ ap₂ (λ x y. x ++ bytes y) (sym d) (sym e)

pub match-Inv :
    (s : Scan) (done : List Item) (h : Held) (c : ℕ)
    → Inv s done h
    → Inv
        (record s { counter = s.counter + 1; seen = s.seen ++ c ∷ [] })
        (done ++ [])
        (record { matched = h.matched + 1; held = h.held ++ c ∷ [] })
match-Inv s done h c (here t m le d e) =
    here t (omega arith) (omega (arith, length-concat s.seen c))
      (append-nil done
        ∙ d
        ∙ ap (λ w. items s.out ++ bytes w)
            (sym (window-concat s.content s.counter s.seen c (omega arith))))
      (ap (λ w. w ++ c ∷ []) e ∙ sym (held-concat s.counter s.seen c (omega arith)))
match-Inv s done h c (carried o z le lt m d e) =
    carried o z (omega (arith, length-concat s.seen c)) (omega (arith, length-concat s.seen c))
      (omega arith) (append-nil done ∙ d)
      (ap (λ w. w ++ c ∷ []) e ∙ append_assoc s.parse_tmp s.seen (c ∷ []))

-- Both branches of what is behind the loop, in one form.
finish-items :
    (s : Scan)
    → items (finish s).0 ≡ items s.out ++ bytes (slice s.content (length s.seen - s.counter) s.seen)
unfolding finish
finish-items s = elim (Bool-cases (s.counter == 0)) [
  | inl q ↦ ground (
    arith,
    items-append s.out (emit (drop s.content s.seen)),
    items-emit (drop s.content s.seen),
    slice_whole s.content (length s.seen - s.counter) s.seen
        (omega (arith, (==_iff s.counter 0).0 q)),
  )
  | inr q ↦ ground (
    arith,
    items-append s.out (emit (slice s.content (length s.seen - s.counter) s.seen)),
    items-emit (slice s.content (length s.seen - s.counter) s.seen),
  )
]

finish-counter : (s : Scan) → (finish s).1.counter ≡ s.counter
unfolding finish
finish-counter s = ground arith

finish-parse_tmp :
    (s : Scan) → (finish s).1.parse_tmp ≡ s.parse_tmp ++ drop (length s.seen - s.counter) s.seen
unfolding finish
finish-parse_tmp s = elim (Bool-cases (s.counter == 0)) [
  | inl q ↦ ground (
    arith,
    drop_all (length s.seen - s.counter) s.seen (omega (arith, (==_iff s.counter 0).0 q)),
    append-nil s.parse_tmp,
  )
  | inr q ↦ ground arith
]

pub finish-Inv :
    (s : Scan) (done : List Item) (h : Held)
    → Inv s done h
    → (items (finish s).0 ≡ done)
      × ((finish s).1.counter ≡ h.matched)
      × ((finish s).1.parse_tmp ≡ h.held)
finish-Inv s done h (here t m le d e) = (
  finish-items s ∙ sym d,
  finish-counter s ∙ sym m,
  finish-parse_tmp s ∙ ap (λ x. x ++ drop (length s.seen - s.counter) s.seen) t ∙ sym e,
)
finish-Inv s done h (carried o z le lt m d e) = (
  finish-items s
      ∙ ap₂ (λ out n. items out ++ bytes (slice s.content n s.seen)) {v = 0} o (omega arith)
      ∙ ap bytes (drop-nil s.content)
      ∙ sym d,
  finish-counter s ∙ sym m,
  finish-parse_tmp s ∙ ap (λ n. s.parse_tmp ++ drop n s.seen) {y = 0} (omega arith) ∙ sym e,
)
