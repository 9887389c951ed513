-- ===== src/Query/Boundary/Stream.antt =====
-- The search is a machine that reads byte by byte, whatever the chunks are.
use mini_web_srv.Base.{
  ◌≤◌, arith, length-append, ℕ, ◌+◌, ◌≡◌, refl, sym, ap, ◌∙◌, List, [], ◌∷◌, ◌++◌, Bytes, ◌==◌,
  if◌then◌else◌, length, get_or, append_assoc, append-nil,
}
use mini_web_srv.Query.Boundary.{Event, append, new_part, emit}

-- A byte of a part's text, or the start of a new part.
pub data Item : Type 0 where
  byte : ℕ → Item
  part : Item

abbrev pub bytes : Bytes → List Item
bytes [] = []
bytes (b ∷ bs) = byte b ∷ bytes bs

abbrev pub items : List Event → List Item
items [] = []
items (append bs ∷ es) = bytes bs ++ items es
items (new_part ∷ es) = part ∷ items es

-- The machine: how much of the boundary is matched, and the bytes that are held back for it.
pub record Held : Type 0 where
  pub matched : ℕ
  pub held : Bytes

abbrev pub restart : ℕ → List Item × Held
restart c =
    if c == b'\r'
    then ([], record { matched = 1; held = c ∷ [] })
    else (byte c ∷ [], record { matched = 0; held = [] })

restart-held : (c : ℕ) → length (restart c).1.held ≤ (restart c).1.matched
restart-held c = ground arith

module _ (boundary : Bytes) where
  abbrev pub read_byte : Held → ℕ → List Item × Held
  read_byte h c =
      if h.matched == 0
      then restart c
      else if c == get_or boundary h.matched 0
      then (if h.matched + 1 == length boundary
          then (part ∷ [], record { matched = 0; held = [] })
          else ([], record { matched = h.matched + 1; held = h.held ++ c ∷ [] }))
      else (let (out, h') = restart c in (bytes h.held ++ out, h'))

  unfoldable pub read_bytes : Held → Bytes → List Item × Held
  read_bytes h [] = ([], h)
  read_bytes h (c ∷ cs) =
      let (out, h') = read_byte h c in let (out', h'') = read_bytes h' cs in (out ++ out', h'')

  read_byte-held :
      (h : Held) (c : ℕ)
      → length h.held ≤ h.matched
      → length (read_byte h c).1.held ≤ (read_byte h c).1.matched
  read_byte-held h c i = ground (arith, restart-held c, length-append h.held (c ∷ []))

  pub read_bytes-held :
      (h : Held) (cs : Bytes)
      → length h.held ≤ h.matched
      → length (read_bytes h cs).1.held ≤ (read_bytes h cs).1.matched
  unfolding read_bytes
  read_bytes-held h [] i = i
  read_bytes-held h (c ∷ cs) i = read_bytes-held (read_byte h c).1 cs (read_byte-held h c i)

  pub read_bytes-append :
      (h : Held) (xs ys : Bytes)
      → read_bytes h (xs ++ ys) ≡ (
          let (out, h') = read_bytes h xs in
          let (out', h'') = read_bytes h' ys in (out ++ out', h''))
  unfolding read_bytes
  read_bytes-append h [] ys = refl
  read_bytes-append h (x ∷ xs) ys =
      ap (λ r. ((read_byte h x).0 ++ r.0, r.1)) (read_bytes-append (read_byte h x).1 xs ys)
      ∙ ap (λ o. (o, (read_bytes (read_bytes (read_byte h x).1 xs).1 ys).1))
          (sym (
            append_assoc (read_byte h x).0 (read_bytes (read_byte h x).1 xs).0
              (read_bytes (read_bytes (read_byte h x).1 xs).1 ys).0))

pub bytes-append : (xs ys : Bytes) → bytes (xs ++ ys) ≡ bytes xs ++ bytes ys
bytes-append [] ys = refl
bytes-append (x ∷ xs) ys = ap (◌∷◌ (byte x)) (bytes-append xs ys)

pub items-append : (es fs : List Event) → items (es ++ fs) ≡ items es ++ items fs
items-append [] fs = refl
items-append (append bs ∷ es) fs =
    ap (◌++◌ (bytes bs)) (items-append es fs) ∙ sym (append_assoc (bytes bs) (items es) (items fs))
items-append (new_part ∷ es) fs = ap (◌∷◌ part) (items-append es fs)

pub items-emit : (bs : Bytes) → items (emit bs) ≡ bytes bs
items-emit [] = refl
items-emit (b ∷ bs) = append-nil (bytes (b ∷ bs))
