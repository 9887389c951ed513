-- ===== src/Query/Boundary/Chunks.antt =====
-- A call of `AppendFormMultipart` does what the machine does on its chunk, so the chunks do not matter.
use mini_web_srv.Base.{
  ℕ, ◌+◌, ◌-◌, ◌≤◌, ◌≡◌, refl, sym, ap, ap₂, subst, ◌∙◌, inl, inr, List, [], ◌∷◌, ◌++◌, Bytes,
  arith, ◌==◌, ==_iff, Bool-cases, length, drop_all, drop-nil, take_all, take-nil, get_or,
  append_assoc, append-nil,
}
use mini_web_srv.Query.Boundary.{
  Splitter, Scan, search, broken_match, scan_byte, scan, append_form_multipart, append_chunks,
}
use mini_web_srv.Query.Boundary.Stream.{
  Item, bytes, items, Held, restart, read_byte, read_bytes, read_bytes-held, read_bytes-append,
  items-append,
}
use mathlib.Core.List.{flatten}
use mini_web_srv.Query.Boundary.Window.{slice_whole}
use mini_web_srv.Query.Boundary.Inv.{
  Inv, here, carried, search-Inv, full_match-Inv, broken_match-done, match-Inv, finish-Inv,
}

-- At most as many bytes are held back as are matched; fewer, while the first line break is left out.
abbrev pub IsHeld : Splitter → Type 0
IsHeld s = length s.parse_tmp ≤ s.counter

abbrev pub held_of : Splitter → Held
held_of s = record { matched = s.counter; held = s.parse_tmp }

empty : (xs : Bytes) → length xs ≤ 0 → xs ≡ []
empty xs h = sym (take_all 0 xs h)

Inv-content : (s : Scan) (done : List Item) (h : Held) → Inv s done h → s.content ≤ length s.seen
Inv-content s done h (here t m le d e) = omega arith
Inv-content s done h (carried o z le lt m d e) = omega arith

Inv-matched : (s : Scan) (done : List Item) (h : Held) → Inv s done h → h.matched ≡ s.counter
Inv-matched s done h (here t m le d e) = m
Inv-matched s done h (carried o z le lt m d e) = m

search_idle-Inv :
    (s : Scan) (done : List Item) (h : Held) (c : ℕ)
    → Inv s done h
    → s.counter ≡ 0
    → Inv (search s c) (done ++ (restart c).0) (restart c).1
search_idle-Inv s done h c (here t m le d e) k = search-Inv s done c k t (omega arith) (
    d
    ∙ ap (λ w. items s.out ++ bytes w)
        (slice_whole s.content (length s.seen - s.counter) s.seen (omega arith)))
search_idle-Inv s done h c (carried o z le lt m d e) k = absurd (omega arith)

search_broken-Inv :
    (s : Scan) (done : List Item) (h : Held) (c : ℕ)
    → Inv s done h
    → Inv (search (broken_match s) c) (done ++ (bytes h.held ++ (restart c).0)) (restart c).1
unfolding broken_match
search_broken-Inv s done h c i =
    subst (λ d. Inv (search (broken_match s) c) d (restart c).1)
      (append_assoc done (bytes h.held) (restart c).0)
      (search-Inv (broken_match s) (done ++ bytes h.held) c refl refl (omega arith) (
        sym (broken_match-done s done h i)
        ∙ sym (append-nil (items (broken_match s).out))
        ∙ ap (λ w. items (broken_match s).out ++ bytes w)
            (sym (drop_all (length s.seen) s.seen (omega arith)))))

moved :
    (done : List Item) {s t : Scan} {r q : List Item × Held}
    → s ≡ t
    → r ≡ q
    → Inv t (done ++ q.0) q.1
    → Inv s (done ++ r.0) r.1
moved done {s} {t} {r} {q} e f i =
    subst (λ x. Inv x (done ++ r.0) r.1) (sym e) (subst (λ x. Inv t (done ++ x.0) x.1) (sym f) i)

module _ (boundary : Bytes) where
  scan_byte-Inv :
      (s : Scan) (done : List Item) (h : Held) (c : ℕ)
      → Inv s done h
      → Inv (scan_byte boundary s c) (done ++ (read_byte boundary h c).0) (read_byte boundary h c).1
  unfolding scan_byte
  scan_byte-Inv s done h c i =
      let m = Inv-matched s done h i in
      elim (Bool-cases (s.counter == 0)) [
        | inl z ↦
            moved done (ground arith) (ground arith)
              (search_idle-Inv s done h c i ((==_iff s.counter 0).0 z))
        | inr z ↦ elim (Bool-cases (c == get_or boundary s.counter 0)) [
          | inl q ↦ elim (Bool-cases (s.counter + 1 == length boundary)) [
            | inl l ↦ moved done (ground arith) (ground arith) (full_match-Inv s done h c i)
            | inr l ↦ moved done (ground arith) (ground arith) (match-Inv s done h c i)
          ]
          | inr q ↦ moved done (ground arith) (ground arith) (search_broken-Inv s done h c i)
        ]
      ]

  scan-Inv :
      (s : Scan) (done : List Item) (h : Held) (cs : Bytes)
      → Inv s done h
      → Inv (scan boundary s cs) (done ++ (read_bytes boundary h cs).0) (read_bytes boundary h cs).1
  unfolding scan read_bytes
  scan-Inv s done h [] i = subst (λ d. Inv s d h) (sym (append-nil done)) i
  scan-Inv s done h (c ∷ cs) i =
      let h' = (read_byte boundary h c).1 in
      subst (λ d. Inv (scan boundary (scan_byte boundary s c) cs) d (read_bytes boundary h' cs).1)
        (append_assoc done (read_byte boundary h c).0 (read_bytes boundary h' cs).0)
        (scan-Inv (scan_byte boundary s c) (done ++ (read_byte boundary h c).0) h' cs
          (scan_byte-Inv s done h c i))

  start : Splitter → Scan
  start s = record {
    counter = s.counter;
    parse_tmp = s.parse_tmp;
    seen = [];
    content = 0;
    out = [];
  }

  start-Inv : (s : Splitter) → IsHeld s → Inv (start s) [] (held_of s)
  unfolding start
  start-Inv s i = elim (Bool-cases (s.counter == 0)) [
    | inl z ↦
        here (empty s.parse_tmp (omega (arith, (==_iff s.counter 0).0 z))) refl
          (omega (arith, (==_iff s.counter 0).0 z)) (ap bytes (sym (take-nil (0 - s.counter))))
          (empty s.parse_tmp (omega (arith, (==_iff s.counter 0).0 z))
            ∙ sym (drop-nil (0 - s.counter)))
    | inr z ↦
        carried refl refl (omega arith) (ground arith) refl refl (sym (append-nil s.parse_tmp))
  ]

  -- One call reads its chunk as the machine does: the events are the machine's items, and what the
  -- object keeps is what the machine keeps, if at most as many bytes are held back as are matched.
  pub append_form_multipart-read_bytes :
      (s : Splitter) (chunk : Bytes)
      → IsHeld s
      → (items (append_form_multipart boundary s chunk).0
          ≡ (read_bytes boundary (held_of s) chunk).0)
        × (held_of (append_form_multipart boundary s chunk).1
            ≡ (read_bytes boundary (held_of s) chunk).1)
  unfolding append_form_multipart start
  append_form_multipart-read_bytes s chunk i =
      let (a, b, c) =
        finish-Inv (scan boundary (start s) chunk) _ _
          (scan-Inv (start s) [] (held_of s) chunk (start-Inv s i)) in
      (a, ap₂ (λ m x. record { matched = m; held = x }) b c)

  pub append_chunks-read_bytes :
      (s : Splitter) (chunks : List Bytes)
      → IsHeld s
      → (items (append_chunks boundary s chunks).0
          ≡ (read_bytes boundary (held_of s) (flatten chunks)).0)
        × (held_of (append_chunks boundary s chunks).1
            ≡ (read_bytes boundary (held_of s) (flatten chunks)).1)
  unfolding append_chunks read_bytes flatten
  append_chunks-read_bytes s [] i = (refl, refl)
  append_chunks-read_bytes s (chunk ∷ chunks) i =
      let (a, b) = append_form_multipart-read_bytes s chunk i in
      let s' = (append_form_multipart boundary s chunk).1 in
      let (c, d) = append_chunks-read_bytes s' chunks (
        subst (λ h. length h.held ≤ h.matched) (sym b)
          (read_bytes-held boundary (held_of s) chunk i)) in
      let e = read_bytes-append boundary (held_of s) chunk (flatten chunks) in
      let k = λ (h : Held). read_bytes boundary h (flatten chunks) in
      (
        items-append (append_form_multipart boundary s chunk).0 (append_chunks boundary s' chunks).0
            ∙ ap₂ (◌++◌) a (c ∙ ap (λ h. (k h).0) b)
            ∙ sym (ap (λ r. r.0) e),
        d ∙ ap (λ h. (k h).1) b ∙ sym (ap (λ r. r.1) e),
      )

  -- However a body is cut into chunks, the calls append the same bytes to the same parts as one call
  -- on the whole body, and leave the object in the same state, if the object holds at most as many
  -- bytes back as it has matched of the boundary.
  pub append_chunks-flatten :
      (s : Splitter) (chunks : List Bytes)
      → IsHeld s
      → (items (append_chunks boundary s chunks).0
          ≡ items (append_form_multipart boundary s (flatten chunks)).0)
        × ((append_chunks boundary s chunks).1
            ≡ (append_form_multipart boundary s (flatten chunks)).1)
  append_chunks-flatten s chunks i =
      let (a, b) = append_chunks-read_bytes s chunks i in
      let (c, d) = append_form_multipart-read_bytes s (flatten chunks) i in
      (a ∙ sym c, ap (λ h. record { counter = h.matched; parse_tmp = h.held }) (b ∙ sym d))
