-- ===== src/Query/Boundary.antt =====
-- QueryParams.cpp, `AppendFormMultipart`: the search for the boundary in a body that comes in chunks.
-- `seen` is the chunk from `Begin` up to `Pos`, and `content` is the offset of `ContentBegin`. The
-- calls of `AppendToCurrentPart` on a range that is not empty, and of `StartNewPart`, are events.
pub mod Stream
pub mod Window
pub mod Inv
pub mod Chunks
pub mod Lossless
use mini_web_srv.Base.{
  ℕ, ◌+◌, ◌-◌, Bool, true, false, not, List, [], ◌∷◌, ◌++◌, Bytes, ltb, ◌==◌, if◌then◌else◌, length,
  take, drop, get_or, codes,
}

pub data Event : Type 0 where
  append : Bytes → Event
  new_part : Event

-- `BoundaryParseCounter` and `ParseTmp`, the members that outlive a call.
pub record Splitter : Type 0 where
  pub counter : ℕ
  pub parse_tmp : Bytes

-- The constructors leave out the line break that starts the boundary string.
abbrev pub fresh_splitter : Splitter
fresh_splitter = record { counter = 2; parse_tmp = [] }

-- `OnBoundaryParsed`.
unfoldable pub on_boundary_parsed : Bytes → Bytes
on_boundary_parsed b = codes "\r\n--" ++ b

pub record Scan : Type 0 where
  pub counter : ℕ
  pub parse_tmp : Bytes
  pub seen : Bytes
  pub content : ℕ
  pub out : List Event

abbrev pub emit : Bytes → List Event
emit [] = []
emit (b ∷ bs) = append (b ∷ bs) ∷ []

-- The bytes of the chunk between two offsets; none if they are out of order.
abbrev pub slice : ℕ → ℕ → Bytes → Bytes
slice i j xs = drop i (take j xs)

-- A byte with the counter at 0: the inner loop, which looks for the line break.
unfoldable pub search : Scan → ℕ → Scan
search s c = record s { counter = if c == b'\r' then 1 else 0; seen = s.seen ++ c ∷ [] }

-- The counter has reached the boundary's length, and `Pos` is behind the byte. The range at the end
-- of `ParseTmp` is longer than `ParseTmp` only while the first line break is left out.
unfoldable pub full_match : Scan → ℕ → ℕ → Scan
full_match s counter c =
    let seen = s.seen ++ c ∷ [] in
    let pos = length seen in
    let flushed =
      if ltb pos counter
      then emit (take (length s.parse_tmp - (counter - pos)) s.parse_tmp)
      else emit (slice s.content (pos - counter) seen) in
    record {
      counter = 0;
      parse_tmp = [];
      seen = seen;
      content = pos;
      out = s.out ++ (flushed ++ new_part ∷ []);
    }

-- The match is broken: what was held back is content, and `Pos` stays where it is.
unfoldable pub broken_match : Scan → Scan
broken_match s = record {
  counter = 0;
  parse_tmp = [];
  seen = s.seen;
  content = length s.seen;
  out = s.out ++ (emit s.parse_tmp ++ emit (drop s.content s.seen));
}

-- Behind the loop: what cannot belong to a boundary is content, and the rest is held back.
unfoldable pub finish : Scan → List Event × Splitter
finish s =
    let pos = length s.seen in
    if not (s.counter == 0)
    then (
      s.out ++ emit (slice s.content (pos - s.counter) s.seen),
      record { counter = s.counter; parse_tmp = s.parse_tmp ++ drop (pos - s.counter) s.seen },
    )
    else (
      s.out ++ emit (drop s.content s.seen),
      record { counter = s.counter; parse_tmp = s.parse_tmp },
    )

module _ (boundary : Bytes) where
  -- One byte. A broken match looks at the byte again, with the counter at 0.
  unfoldable pub scan_byte : Scan → ℕ → Scan
  unfolding search full_match broken_match
  scan_byte s c =
      if s.counter == 0
      then search s c
      else if c == get_or boundary s.counter 0
      then (if s.counter + 1 == length boundary
          then full_match s (s.counter + 1) c
          else record s { counter = s.counter + 1; seen = s.seen ++ c ∷ [] })
      else search (broken_match s) c

  unfoldable pub scan : Scan → Bytes → Scan
  scan s [] = s
  scan s (c ∷ cs) = scan (scan_byte s c) cs

  unfoldable pub append_form_multipart : Splitter → Bytes → List Event × Splitter
  unfolding scan finish
  append_form_multipart s chunk = finish (
      scan
        (record { counter = s.counter; parse_tmp = s.parse_tmp; seen = []; content = 0; out = [] })
        chunk)

  -- The chunks of a body, one call each.
  unfoldable pub append_chunks : Splitter → List Bytes → List Event × Splitter
  append_chunks s [] = ([], s)
  append_chunks s (chunk ∷ chunks) =
      let (es, s') = append_form_multipart s chunk in
      let (es', s'') = append_chunks s' chunks in (es ++ es', s'')
