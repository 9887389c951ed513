-- ===== src/Query/Form.antt =====
-- QueryParams.cpp: an object of `QueryParams` that reads a form, chunk by chunk: the search for the
-- boundary, and the parts that it finds. The constructors leave `FMParseCounter` and `CurrFMPart` as
-- they are, so the parts are an argument.
pub mod Laws
mod Tests
use mini_web_srv.Base.{
  Bool, true, false, Option, none, some, List, [], ◌∷◌, ◌++◌, Bytes, if◌then◌else◌,
}
use mini_web_srv.Query.Boundary.{
  Splitter, fresh_splitter, append_form_multipart, on_boundary_parsed,
}
use mini_web_srv.Query.Parts.{
  Helper, Parts, FileMap, File, header_start, mode_string, is_empty, handle_events,
}

pub record Form (H : Type 0) : Type 0 where
  pub boundary : Bytes
  pub splitter : Splitter
  pub parts : Parts H

-- A constructor: `uninit` has what it does not set.
unfoldable pub new_form : {H : Type 0} → Parts H → H → Form H
new_form uninit h = record {
  boundary = [];
  splitter = fresh_splitter;
  parts = record uninit {
    state = header_start;
    header_tmp = [];
    params = [];
    files = [];
    removed = [];
    mode = mode_string;
    helper = h;
  };
}

-- `operator=`, and what it leaves: `FMParseState`.
unfoldable pub move_assign : {H : Type 0} → Form H → Form H → Form H
move_assign f other = record other {
  parts = record other.parts { state = f.parts.state; removed = f.parts.removed };
}

unfoldable pub set_boundary : {H : Type 0} → Form H → Bytes → Form H
unfolding on_boundary_parsed
set_boundary f b = record f { boundary = on_boundary_parsed b }

-- `AppendFormMultipart`. `none` is a read behind the end of the four bytes that end the headers.
unfoldable pub append_chunk : {H : Type 0} → Helper H → Form H → Bytes → Option (Form H)
append_chunk helper f chunk =
    let (es, splitter) = append_form_multipart f.boundary f.splitter chunk in
    elim (handle_events helper f.parts es) [
      | none ↦ none
      | some parts ↦ some (record f { splitter = splitter; parts = parts })
    ]

unfoldable pub append_body : {H : Type 0} → Helper H → Form H → List Bytes → Option (Form H)
append_body helper f [] = some f
append_body helper f (chunk ∷ chunks) = elim (append_chunk helper f chunk) [
  | none ↦ none
  | some f' ↦ append_body helper f' chunks
]

-- The paths of the files.
abbrev pub paths : FileMap → List Bytes
paths [] = []
paths ((name, f) ∷ m) = let rest = paths m in if is_empty f.path then rest else f.path ∷ rest

unfoldable pub delete_uploaded_files : {H : Type 0} → Form H → Form H
delete_uploaded_files f = record f {
  parts = record f.parts { removed = f.parts.removed ++ paths f.parts.files };
}
