-- ===== src/Query/Boundary/Lossless.antt =====
-- Nothing of a body is lost: QueryParams.cpp, `AppendFormMultipart`, over all the chunks of a body.
use mini_web_srv.Base.{
  ℕ, zero, suc, ◌+◌, ◌<◌, ◌≡◌, refl, sym, ap, ap₂, ◌∙◌, inl, inr, List, [], ◌∷◌, ◌++◌, Bytes, arith,
  ◌==◌, ==_iff, Bool-cases, length, take, take_all, length-take, get_or, append_assoc, append-nil,
}
use mathlib.Core.List.{flatten}
use mini_web_srv.Query.Boundary.{Splitter, append_chunks}
use mini_web_srv.Query.Boundary.Stream.{
  Item, byte, part, bytes, items, Held, restart, read_byte, read_bytes,
}
use mini_web_srv.Query.Boundary.Chunks.{held_of, append_chunks-read_bytes}

take-get_or :
    (n m : ℕ) (xs : Bytes) → m ≡ n + 1 → n < length xs → take m xs ≡ take n xs ++ get_or xs n 0 ∷ []
take-get_or n m [] e h = absurd (omega arith)
take-get_or zero zero (x ∷ xs) e h = absurd (omega arith)
take-get_or zero (suc m) (x ∷ xs) e h = ap (λ k. x ∷ take k xs) {y = 0} (omega arith)
take-get_or (suc n) zero (x ∷ xs) e h = absurd (omega arith)
take-get_or (suc n) (suc m) (x ∷ xs) e h =
    ap (◌∷◌ x) (take-get_or n m xs (omega arith) (omega arith))

module _ (boundary : Bytes) where
  -- The bytes that items stand for: a new part stands for the boundary that was read.
  abbrev pub unread : List Item → Bytes
  unread [] = []
  unread (byte b ∷ is) = b ∷ unread is
  unread (part ∷ is) = boundary ++ unread is

  unread-append : (is js : List Item) → unread (is ++ js) ≡ unread is ++ unread js
  unread-append [] js = refl
  unread-append (byte b ∷ is) js = ap (◌∷◌ b) (unread-append is js)
  unread-append (part ∷ is) js =
      ap (◌++◌ boundary) (unread-append is js) ∙ sym (append_assoc boundary (unread is) (unread js))

  unread-bytes : (bs : Bytes) → unread (bytes bs) ≡ bs
  unread-bytes [] = refl
  unread-bytes (b ∷ bs) = ap (◌∷◌ b) (unread-bytes bs)

  -- The bytes held back are the part of the boundary that is matched.
  abbrev pub IsPrefix : Held → Type 0
  IsPrefix h = (h.matched < length boundary) × (h.held ≡ take h.matched boundary)

  -- The boundary has a line break at its start, and more than that.
  abbrev pub StartsLine : Type 0
  StartsLine = (1 < length boundary) × (get_or boundary 0 0 ≡ b'\r')

  restart-IsPrefix : (c : ℕ) → StartsLine → IsPrefix (restart c).1
  restart-IsPrefix c (l, e) = elim (Bool-cases (c == b'\r')) [
    | inl q ↦ (
      ground arith,
      ground (arith, (==_iff c b'\r').0 q, e, take-get_or 0 1 boundary refl (omega arith)),
    )
    | inr q ↦ (ground arith, ground arith)
  ]

  restart-unread : (c : ℕ) → unread (restart c).0 ++ (restart c).1.held ≡ c ∷ []
  restart-unread c = ground arith

  read_byte-IsPrefix :
      (h : Held) (c : ℕ) → StartsLine → IsPrefix h → IsPrefix (read_byte boundary h c).1
  read_byte-IsPrefix h c w (l, e) =
      let (r0, r1) = restart-IsPrefix c w in
      elim (Bool-cases (c == get_or boundary h.matched 0)) [
        | inl q ↦ (
          ground (arith, r0, w),
          ground (
            arith,
            r1,
            e,
            (==_iff c (get_or boundary h.matched 0)).0 q,
            take-get_or h.matched (h.matched + 1) boundary refl l,
          ),
        )
        | inr q ↦ (ground (arith, r0), ground (arith, r1))
      ]

  read_byte-unread :
      (h : Held) (c : ℕ)
      → IsPrefix h
      → unread (read_byte boundary h c).0 ++ (read_byte boundary h c).1.held ≡ h.held ++ c ∷ []
  read_byte-unread h c (l, e) =
      let whole = take-get_or h.matched (h.matched + 1) boundary refl l in
      elim (Bool-cases (h.matched == 0)) [
        | inl z ↦ ground (
          arith,
          restart-unread c,
          e ∙ ap (λ n. take n boundary) {y = 0} ((==_iff h.matched 0).0 z),
        )
        | inr z ↦ elim (Bool-cases (c == get_or boundary h.matched 0)) [
          | inl q ↦ elim (Bool-cases (h.matched + 1 == length boundary)) [
            | inl k ↦ ground (
              arith,
              e,
              whole,
              (==_iff c (get_or boundary h.matched 0)).0 q,
              take_all (h.matched + 1) boundary
                  (omega (arith, (==_iff (h.matched + 1) (length boundary)).0 k)),
              append-nil boundary,
            )
            | inr k ↦ ground arith
          ]
          | inr q ↦ ground (
            arith,
            restart-unread c,
            unread-append (bytes h.held) (restart c).0,
            unread-bytes h.held,
            append_assoc h.held (unread (restart c).0) (restart c).1.held,
          )
        ]
      ]

  read_bytes-unread :
      (h : Held) (cs : Bytes)
      → StartsLine
      → IsPrefix h
      → unread (read_bytes boundary h cs).0 ++ (read_bytes boundary h cs).1.held ≡ h.held ++ cs
  unfolding read_bytes
  read_bytes-unread h [] w i = sym (append-nil h.held)
  read_bytes-unread h (c ∷ cs) w i =
      let (out, h') = read_byte boundary h c in
      let (out', h'') = read_bytes boundary h' cs in
      ap (λ x. x ++ h''.held) (unread-append out out')
      ∙ append_assoc (unread out) (unread out') h''.held
      ∙ ap (◌++◌ (unread out)) (read_bytes-unread h' cs w (read_byte-IsPrefix h c w i))
      ∙ sym (append_assoc (unread out) h'.held cs)
      ∙ ap (λ x. x ++ cs) (read_byte-unread h c i)
      ∙ append_assoc h.held (c ∷ []) cs

  -- Nothing is lost, added or reordered, however a body is cut into chunks: the bytes that the calls
  -- append, with the boundary for each new part and with what the object still holds back, are what
  -- it held back before and the body, if the boundary starts with a line break and the object holds
  -- back a part of the boundary that is not the whole.
  pub append_chunks-unread :
      (s : Splitter) (chunks : List Bytes)
      → StartsLine
      → IsPrefix (held_of s)
      → unread (items (append_chunks boundary s chunks).0)
          ++ (append_chunks boundary s chunks).1.parse_tmp
        ≡ s.parse_tmp ++ flatten chunks
  append_chunks-unread s chunks w (l, e) =
      let (a, b) =
        append_chunks-read_bytes boundary s chunks
          (omega (arith, ap length e, length-take s.counter boundary)) in
      ap₂ (λ is h. unread is ++ h.held) a b
      ∙ read_bytes-unread (held_of s) (flatten chunks) w (l, e)
