-- ===== src/Query/Parts.antt =====
-- QueryParams.cpp, `AppendToCurrentPart`, `StartNewPart` and `ParseFMHeaders`: what becomes of the
-- parts that the search of the boundary finds. The handler of uploaded files is an interface, which
-- `Upload` fills. A file that is removed is recorded.
pub mod TempFile
pub mod Text
pub mod Content
pub mod Bounded
mod Tests
use mini_web_srv.Base.{
  ℕ, ◌+◌, Bool, true, false, Option, none, some, List, [], ◌∷◌, ◌++◌, Bytes, ltb, ◌==◌,
  if◌then◌else◌, length, get_elem?, ◌||◌,
}
use mini_web_srv.Query.Params.{ParamMap, str_eq, put, get_default}
use mini_web_srv.Query.Boundary.{Event, append, new_part}
use mini_web_srv.Http.HeaderLine.{extract_header}
use mini_web_srv.Http.ContentType.{
  Disposition, is_content_type, is_content_disposition, parse_content_disposition,
}

-- `IFileUpdloadHelper`: the name, the original name and the type of a new file give a path and whether
-- it can be written.
pub record Helper (H : Type 0) : Type 0 where
  pub on_new_file : H → Bytes → Bytes → Bytes → H × Bytes × Bool
  pub on_file_data : H → Bytes → H × Bool
  pub on_file_end : H → H

-- `QueryParams::File`.
pub record File : Type 0 where
  pub mime_type : Bytes
  pub orig_file_name : Bytes
  pub path : Bytes

abbrev pub FileMap : Type 0
FileMap = List (Bytes × File)

unfoldable pub get_file : Bytes → FileMap → Option File
get_file k [] = none
get_file k ((j, f) ∷ m) = let rest = get_file k m in if str_eq j k then some f else rest

unfoldable pub put_file : Bytes → File → FileMap → FileMap
put_file k f [] = (k, f) ∷ []
put_file k f ((j, g) ∷ m) =
    let rest = put_file k f m in if str_eq j k then (j, f) ∷ m else (j, g) ∷ rest

pub data ParseState : Type 0 where
  header_start : ParseState
  headers_end : ParseState
  read : ParseState
  finished : ParseState

pub data PartMode : Type 0 where
  mode_string : PartMode
  mode_file : PartMode

-- The members for the parts. `target` is `CurrFMPart`: the name whose parameter or file it points to,
-- or `none` for the null pointer.
pub record Parts (H : Type 0) : Type 0 where
  pub state : ParseState
  pub counter : ℕ
  pub header_tmp : Bytes
  pub params : ParamMap
  pub files : FileMap
  pub removed : List Bytes
  pub target : Option Bytes
  pub mode : PartMode
  pub helper : H

unfoldable pub start_new_part : {H : Type 0} → Parts H → Parts H
start_new_part p = record p { state = header_start; counter = 0; header_tmp = [] }

-- What the headers of a part say.
pub record PartHead : Type 0 where
  pub disposition : Disposition
  pub content_type : Option Bytes

abbrev pub no_head : PartHead
no_head = record {
  disposition = record { name = []; file_name = []; file_name_exists = false };
  content_type = none;
}

unfoldable pub head_line : PartHead → Bytes → PartHead
head_line d line = elim (extract_header line) [
  | none ↦ d
  | some h ↦
      if is_content_disposition h.int_name
      then record d { disposition = parse_content_disposition h d.disposition }
      else if is_content_type h.int_name
      then record d { content_type = some h.value }
      else d
]

-- The loop over the lines of the headers: `line` is the bytes from `HBegin` on.
unfoldable pub head_lines : PartHead → Bytes → Bytes → PartHead
head_lines d line [] = d
head_lines d line (c ∷ cs) =
    let next = head_lines (head_line d line) [] cs in
    let on = head_lines d (line ++ c ∷ []) cs in if c == b'\n' then next else on

abbrev pub is_file : PartMode → Bool
is_file mode_file = true
is_file mode_string = false

abbrev pub is_empty : Bytes → Bool
is_empty [] = true
is_empty (b ∷ bs) = false

abbrev pub mime_of : PartHead → Bytes
mime_of d = elim d.content_type [ none ↦ [] | some t ↦ t ]

abbrev pub empty_file : File
empty_file = record { mime_type = []; orig_file_name = []; path = [] }

-- What `Parts` the loop goes on with, and the bytes from `OrigBegin`; or a result of the call; or a read
-- behind the end of the four bytes that end the headers.
pub data Turn (H : Type 0) : Type 0 where
  go : Parts H → Bytes → Turn H
  give : Bool → Parts H → Turn H
  overrun : Turn H

abbrev pub is_reading : ParseState → Bool
is_reading read = true
is_reading _ = false

abbrev pub is_finished : ParseState → Bool
is_finished finished = true
is_finished _ = false

-- The byte that `"\r\n\r\n"[FMParseCounter]` reads: the zero at the end is one of them.
abbrev pub end_byte : ℕ → Option ℕ
end_byte n = get_elem? (b'\r' ∷ b'\n' ∷ b'\r' ∷ b'\n' ∷ 0 ∷ []) n

module _ {H : Type 0} (helper : Helper H) where
  -- The file branch of `ParseFMHeaders`.
  unfoldable pub start_file : Parts H → PartHead → Parts H
  start_file p d =
      let name = d.disposition.name in
      let (h, path, ok) = helper.on_new_file p.helper name d.disposition.file_name (mime_of d) in
      let p' = record p { mode = mode_file; helper = h } in
      if ok
      then (let old : Bytes = elim (get_file name p.files) [ none ↦ [] | some f ↦ f.path ] in
          record p' {
            target = some name;
            removed = if is_empty old then p.removed else p.removed ++ old ∷ [];
            files =
                put_file name
                  (record {
                    mime_type = mime_of d;
                    orig_file_name = d.disposition.file_name;
                    path = path;
                  })
                  p.files;
          })
      else record p' { target = none }

  unfoldable pub parse_fm_headers : Parts H → Bytes → Parts H × Bool
  parse_fm_headers p text =
      let d = head_lines no_head [] text in
      if is_empty d.disposition.name
      then (record p { target = none }, false)
      else (let p' =
            if is_file p.mode then record p { helper = helper.on_file_end p.helper } else p in
          (
            (if d.disposition.file_name_exists then start_file p' d else record p' {
              mode = mode_string;
              target = some d.disposition.name;
              params = put d.disposition.name [] p.params;
            }),
            true,
          ))

  -- One turn of the loop, on a byte: `since` is the bytes from `OrigBegin` to it.
  unfoldable pub header_start_turn : Parts H → Bytes → ℕ → Turn H
  header_start_turn p since c =
      if p.counter == 0
      then (if c == b'\r' || c == b'-'
          then go (record p { counter = 1 }) (since ++ c ∷ [])
          else give false p)
      else if p.counter == 1
      then (if c == b'\n'
          then go (record p { counter = 0; state = headers_end }) []
          else if c == b'-'
          then go (record p { state = finished; helper = helper.on_file_end p.helper })
              (since ++ c ∷ [])
          else give false p)
      else go p (since ++ c ∷ [])

  unfoldable pub headers_end_turn : Parts H → Bytes → ℕ → Turn H
  headers_end_turn p since c = elim (end_byte p.counter) [
    | none ↦ overrun
    | some e ↦
        if c == e
        then (if p.counter + 1 == 4
            then (let tmp =
                  if ltb 4 (length since)
                  then p.header_tmp ++ (since ++ c ∷ [])
                  else p.header_tmp in
                let (p', ok) = parse_fm_headers (record p { counter = 4; header_tmp = tmp }) tmp in
                if ok
                then go (record p' { state = read }) (since ++ c ∷ [])
                else give false (record p' { header_tmp = [] }))
            else go (record p { counter = p.counter + 1 }) (since ++ c ∷ []))
        else go (record p { counter = 0 }) (since ++ c ∷ [])
  ]

  -- Behind the loop: `rest` is the bytes from `Begin` on.
  unfoldable pub part_end : Parts H → Bytes → Bytes → Bool × Parts H
  part_end p since rest = elim p.state [
    | read ↦ elim p.target [
      | none ↦ (false, p)
      | some name ↦
          if is_file p.mode
          then (let (h, ok) = helper.on_file_data p.helper rest in (ok, record p { helper = h }))
          else (
            true,
            record p { params = put name (get_default name p.params [] ++ rest) p.params },
          )
    ]
    | headers_end ↦ (true, record p { header_tmp = p.header_tmp ++ since })
    | header_start ↦ (true, p)
    | finished ↦ (true, p)
  ]

  abbrev pub turn : Parts H → Bytes → ℕ → Turn H
  turn p since c = elim p.state [
    | header_start ↦ header_start_turn p since c
    | headers_end ↦ headers_end_turn p since c
    | read ↦ go p since
    | finished ↦ give true (record p { helper = helper.on_file_end p.helper })
  ]

  unfoldable pub part_loop : Parts H → Bytes → Bytes → Option (Bool × Parts H)
  part_loop p since [] = some (part_end p since [])
  part_loop p since (c ∷ cs) =
      if is_reading p.state then some (part_end p since (c ∷ cs)) else elim (turn p since c) [
        | go p' since' ↦ part_loop p' since' cs
        | give ok p' ↦ some (ok, p')
        | overrun ↦ none
      ]

  -- `none` is a read behind the end of the four bytes.
  unfoldable pub append_to_current_part : Parts H → Bytes → Option (Bool × Parts H)
  append_to_current_part p bytes =
      if is_empty bytes || is_finished p.state then some (true, p) else part_loop p [] bytes

  -- The calls of the search, whose results nothing looks at.
  unfoldable pub handle_events : Parts H → List Event → Option (Parts H)
  handle_events p [] = some p
  handle_events p (new_part ∷ es) = handle_events (start_new_part p) es
  handle_events p (append bytes ∷ es) = elim (append_to_current_part p bytes) [
    | none ↦ none
    | some (ok, p') ↦ handle_events p' es
  ]
