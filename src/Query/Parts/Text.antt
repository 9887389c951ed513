-- ===== src/Query/Parts/Text.antt =====
-- The text of a part's headers, read by `AppendToCurrentPart` and `ParseFMHeaders` of QueryParams.cpp.
use mini_web_srv.Base.{
  ℕ, ◌≡◌, ◌<◌, refl, sym, ap, ◌∙◌, true, false, some, List, [], ◌∷◌, ◌++◌, Bytes, lt→ltb, length,
  length-append, append_assoc, append-nil, arith,
}
use mini_web_srv.Http.RequestLine.RoundTrip.{Lacks}
use mini_web_srv.Http.RequestLine.{split_at}
use mini_web_srv.Http.HeaderLine.{is_cr, extract_header}
use mini_web_srv.Http.Head.Text.{is_newline}
use mini_web_srv.Query.Parts.{
  Helper, Parts, PartHead, headers_end, read, head_line, head_lines, part_loop, part_end,
  parse_fm_headers, headers_end_turn,
}

-- A line of a part's headers, of more than one byte, without the line break at its end.
abbrev pub IsLine : Bytes → Type 0
IsLine l = (1 < length l) × Lacks is_newline l × Lacks is_cr l

abbrev pub AreLines : List Bytes → Type 0
AreLines [] = Unit {0}
AreLines (l ∷ ls) = IsLine l × AreLines ls

abbrev pub head_bytes : List Bytes → Bytes
head_bytes [] = []
head_bytes (l ∷ ls) = l ++ b'\r' ∷ b'\n' ∷ head_bytes ls

-- What the lines say, one after the other.
abbrev pub head_of : PartHead → List Bytes → PartHead
head_of d [] = d
head_of d (l ∷ ls) = head_of (head_line d (l ++ b'\r' ∷ [])) ls

head_lines-plain :
    (d : PartHead) (line l rest : Bytes)
    → Lacks is_newline l
    → head_lines d line (l ++ rest) ≡ head_lines d (line ++ l) rest
unfolding head_lines
head_lines-plain d line [] rest k = ap (λ x. head_lines d x rest) (sym (append-nil line))
head_lines-plain d line (c ∷ cs) rest k =
    rw (head_lines, k.0)
      (head_lines-plain d (line ++ c ∷ []) cs rest k.1
        ∙ ap (λ x. head_lines d x rest) (append_assoc line (c ∷ []) cs))

pub head_lines-head_bytes :
    (d : PartHead) (ls : List Bytes)
    → AreLines ls
    → head_lines d [] (head_bytes ls ++ b'\r' ∷ b'\n' ∷ []) ≡ head_of d ls
unfolding head_lines head_line extract_header split_at
head_lines-head_bytes d [] k = refl
head_lines-head_bytes d (l ∷ ls) k =
    ap (λ x. head_lines d [] x)
      (append_assoc l (b'\r' ∷ b'\n' ∷ head_bytes ls) (b'\r' ∷ b'\n' ∷ []))
    ∙ head_lines-plain d [] l _ k.0.1
    ∙ head_lines-head_bytes (head_line d (l ++ b'\r' ∷ [])) ls k.1

regroup :
    (since : Bytes) (c : ℕ) (cs rest : Bytes)
    → ((since ++ c ∷ []) ++ cs ++ b'\r' ∷ b'\n' ∷ []) ++ rest
      ≡ since ++ (c ∷ cs ++ b'\r' ∷ b'\n' ∷ rest)
regroup since c cs rest = simp (append_assoc)

module _ {H : Type 0} (helper : Helper H) where
  -- Among the headers, with `n` of the four bytes at their end.
  abbrev pub among : Parts H → ℕ → Parts H
  among p n = record p { state = headers_end; counter = n }

  among-plain :
      (p : Parts H) (since l rest : Bytes)
      → Lacks is_cr l
      → part_loop helper (among p 0) since (l ++ rest)
        ≡ part_loop helper (among p 0) (since ++ l) rest
  unfolding part_loop headers_end_turn
  among-plain p since [] rest k =
      ap (λ x. part_loop helper (among p 0) x rest) (sym (append-nil since))
  among-plain p since (c ∷ cs) rest k = rw k.0 (
      among-plain p (since ++ c ∷ []) cs rest k.1
      ∙ ap (λ x. part_loop helper (among p 0) x rest) (append_assoc since (c ∷ []) cs))

  among-other :
      (p : Parts H) (since : Bytes) (c : ℕ) (rest : Bytes)
      → is_cr c ≡ false
      → part_loop helper (among p 2) since (c ∷ rest)
        ≡ part_loop helper (among p 0) (since ++ c ∷ []) rest
  unfolding part_loop headers_end_turn
  among-other p since c rest k = rw k refl

  among-break :
      (p : Parts H) (since rest : Bytes)
      → part_loop helper (among p 0) since (b'\r' ∷ b'\n' ∷ rest)
        ≡ part_loop helper (among p 2) (since ++ b'\r' ∷ b'\n' ∷ []) rest
  unfolding part_loop headers_end_turn
  among-break p since rest =
      ap (λ x. part_loop helper (among p 2) x rest) (append_assoc since (b'\r' ∷ []) (b'\n' ∷ []))

  among-line :
      (p : Parts H) (since l rest : Bytes)
      → Lacks is_cr l
      → part_loop helper (among p 0) since (l ++ b'\r' ∷ b'\n' ∷ rest)
        ≡ part_loop helper (among p 2) (since ++ l ++ b'\r' ∷ b'\n' ∷ []) rest
  among-line p since l rest k =
      among-plain p since l (b'\r' ∷ b'\n' ∷ rest) k ∙ among-break p (since ++ l) rest

  -- The lines behind the first one.
  among-lines :
      (p : Parts H) (since : Bytes) (ls : List Bytes) (rest : Bytes)
      → AreLines ls
      → part_loop helper (among p 2) since (head_bytes ls ++ rest)
        ≡ part_loop helper (among p 2) (since ++ head_bytes ls) rest
  among-lines p since [] rest k =
      ap (λ x. part_loop helper (among p 2) x rest) (sym (append-nil since))
  among-lines p since ([] ∷ ls) rest k = absurd (omega (arith, k.0.0))
  among-lines p since ((c ∷ cs) ∷ ls) rest k =
      among-other p since c ((cs ++ b'\r' ∷ b'\n' ∷ head_bytes ls) ++ rest) k.0.2.0
      ∙ ap (λ x. part_loop helper (among p 0) (since ++ c ∷ []) x)
          (append_assoc cs (b'\r' ∷ b'\n' ∷ head_bytes ls) rest)
      ∙ among-line p (since ++ c ∷ []) cs (head_bytes ls ++ rest) k.0.2.1
      ∙ among-lines p ((since ++ c ∷ []) ++ cs ++ b'\r' ∷ b'\n' ∷ []) ls rest k.1
      ∙ ap (λ x. part_loop helper (among p 2) x rest) (regroup since c cs (head_bytes ls))

  -- All of the headers, from the first one on.
  pub among-head :
      (p : Parts H) (l : Bytes) (ls : List Bytes) (rest : Bytes)
      → AreLines (l ∷ ls)
      → part_loop helper (among p 0) [] (head_bytes (l ∷ ls) ++ rest)
        ≡ part_loop helper (among p 2) (head_bytes (l ∷ ls)) rest
  among-head p l ls rest k =
      ap (λ x. part_loop helper (among p 0) [] x)
        (append_assoc l (b'\r' ∷ b'\n' ∷ head_bytes ls) rest)
      ∙ among-line p [] l (head_bytes ls ++ rest) k.0.2
      ∙ among-lines p (l ++ b'\r' ∷ b'\n' ∷ []) ls rest k.1
      ∙ ap (λ x. part_loop helper (among p 2) x rest)
          (append_assoc l (b'\r' ∷ b'\n' ∷ []) (head_bytes ls))

  pub part_loop-read :
      (p : Parts H) (since rest : Bytes)
      → part_loop helper (record p { state = read }) since rest
        ≡ some (part_end helper (record p { state = read }) since rest)
  unfolding part_loop
  part_loop-read p since [] = refl
  part_loop-read p since (c ∷ cs) = refl

  -- The empty line at the end of the headers, and the content behind it.
  pub among-end :
      (p p' : Parts H) (since rest : Bytes)
      → 3 < length since
      → parse_fm_headers helper
          (record p {
            state = headers_end;
            counter = 4;
            header_tmp = p.header_tmp ++ (since ++ b'\r' ∷ b'\n' ∷ []);
          })
          (p.header_tmp ++ (since ++ b'\r' ∷ b'\n' ∷ []))
        ≡ (p', true)
      → part_loop helper (among p 2) since (b'\r' ∷ b'\n' ∷ rest)
        ≡ some (part_end helper (record p' { state = read }) (since ++ b'\r' ∷ b'\n' ∷ []) rest)
  unfolding part_loop headers_end_turn
  among-end p p' since rest l e =
      rw
        (
          lt→ltb 4 (length (since ++ b'\r' ∷ [])) (omega (arith, length-append since (b'\r' ∷ []))),
          append_assoc since (b'\r' ∷ []) (b'\n' ∷ []),
          e,
        )
        (part_loop-read p' (since ++ b'\r' ∷ b'\n' ∷ []) rest)
