-- ===== src/Query/Parts/Content.antt =====
-- A part of a form, from its start on: QueryParams.cpp, `StartNewPart`, `AppendToCurrentPart` and
-- `ParseFMHeaders`, the headers in the first piece.
use mini_web_srv.Base.{
  ◌≡◌, refl, sym, ap, ◌∙◌, true, false, some, none, Option, List, [], ◌∷◌, ◌++◌, Bytes,
  length-append, append_assoc, append-nil, arith, if◌then◌else◌, map, Bool-cases, inl, inr,
}
use mathlib.Core.List.{flatten}
use mini_web_srv.Http.Head.Reads.{NoneEmpty}
use mini_web_srv.Query.Params.{ParamMap, put, put-put, get_default, get_ptr-put, str_eq_self}
use mini_web_srv.Query.Boundary.{append, new_part}
use mini_web_srv.Query.Parts.{
  File, Helper, Parts, PartHead, headers_end, read, mode_string, mode_file, start_new_part,
  part_loop, part_end, parse_fm_headers, header_start_turn, append_to_current_part, handle_events,
  is_empty, is_file, no_head, get_file, put_file, start_file, mime_of,
}
use mini_web_srv.Query.Parts.Text.{
  AreLines, head_bytes, head_of, head_lines-head_bytes, among-head, among-end,
}

-- The headers with the empty line behind them, and a part that starts with them.
abbrev pub head_text : Bytes → List Bytes → Bytes
head_text l ls = head_bytes (l ∷ ls) ++ b'\r' ∷ b'\n' ∷ []

abbrev pub part_text : Bytes → List Bytes → Bytes → Bytes
part_text l ls content = b'\r' ∷ b'\n' ∷ (head_text l ls ++ content)

-- What the headers say.
abbrev pub said : Bytes → List Bytes → PartHead
said l ls = head_of no_head (l ∷ ls)

get_default-put : (k v d : Bytes) (m : ParamMap) → get_default k (put k v m) d ≡ v
unfolding get_default
get_default-put k v d m = rw (get_default, get_ptr-put k k v m, str_eq_self k) refl

-- The path of a file, if there is one that is not empty.
abbrev pub old_path : Option File → List Bytes
old_path none = []
old_path (some f) = if is_empty f.path then [] else f.path ∷ []

removes :
    (o : Option File) (removed : List Bytes)
    → (let old : Bytes = elim o [ none ↦ [] | some f ↦ f.path ] in
        if is_empty old then removed else removed ++ old ∷ [])
      ≡ removed ++ old_path o
removes none removed = sym (append-nil removed)
removes (some f) removed = elim (Bool-cases (is_empty f.path)) [
  | inl q ↦ rw q (sym (append-nil removed))
  | inr q ↦ rw q refl
]

module _ {H : Type 0} (helper : Helper H) where
  -- What is left of a file that was read before.
  abbrev pub ended : Parts H → H
  ended p = if is_file p.mode then helper.on_file_end p.helper else p.helper

  -- A part whose headers are read.
  abbrev pub headed : Parts H → Bytes → Parts H
  headed p text = record p { state = headers_end; counter = 4; header_tmp = text }

  first_piece :
      (p p' : Parts H) (l : Bytes) (ls : List Bytes) (content : Bytes)
      → AreLines (l ∷ ls)
      → parse_fm_headers helper (headed p (head_text l ls)) (head_text l ls) ≡ (p', true)
      → append_to_current_part helper (start_new_part p) (part_text l ls content)
        ≡ some (part_end helper (record p' { state = read }) (head_text l ls) content)
  unfolding append_to_current_part start_new_part header_start_turn part_loop
  first_piece p p' l ls content k e =
      let q : Parts H = start_new_part p in
      ap (λ x. part_loop helper (record q { state = headers_end }) [] x)
        (append_assoc (head_bytes (l ∷ ls)) (b'\r' ∷ b'\n' ∷ []) content)
      ∙ among-head helper q l ls (b'\r' ∷ b'\n' ∷ content) k
      ∙ among-end helper q p' (head_bytes (l ∷ ls)) content
          (omega (arith, k.0.0, length-append l (b'\r' ∷ b'\n' ∷ head_bytes ls))) e

  abbrev pub text_state : Parts H → Bytes → Bytes → Parts H
  text_state p name v = record p {
    state = read;
    mode = mode_string;
    target = some name;
    params = put name v p.params;
  }

  text_piece :
      (p : Parts H) (name v b : Bytes)
      → append_to_current_part helper (text_state p name v) b
        ≡ some (true, text_state p name (v ++ b))
  unfolding append_to_current_part part_loop part_end
  text_piece p name v [] = ap (λ x. some (true, text_state p name x)) (sym (append-nil v))
  text_piece p name v (c ∷ cs) =
      rw (get_default-put name v [] p.params, put-put name v (v ++ c ∷ cs) p.params) refl

  text_pieces :
      (p : Parts H) (name v : Bytes) (bs : List Bytes)
      → handle_events helper (text_state p name v) (map append bs)
        ≡ some (text_state p name (v ++ flatten bs))
  unfolding handle_events flatten
  text_pieces p name v [] = ap (λ x. some (text_state p name x)) (sym (append-nil v))
  text_pieces p name v (b ∷ bs) =
      rw (handle_events, text_piece p name v b)
        (text_pieces p name (v ++ b) bs
          ∙ ap (λ x. some (text_state p name x)) (append_assoc v b (flatten bs)))

  abbrev pub file_state : Parts H → Bytes → H → Parts H
  file_state p name h = record p { state = read; mode = mode_file; target = some name; helper = h }

  abbrev pub feed : H → List Bytes → H
  feed h [] = h
  feed h (b ∷ bs) = feed (helper.on_file_data h b).0 bs

  file_pieces :
      (p : Parts H) (name : Bytes) (h : H) (bs : List Bytes)
      → NoneEmpty bs
      → handle_events helper (file_state p name h) (map append bs)
        ≡ some (file_state p name (feed h bs))
  unfolding handle_events append_to_current_part part_loop part_end
  file_pieces p name h [] k = refl
  file_pieces p name h ([] ∷ bs) k = absurd (omega (arith, k.0))
  file_pieces p name h ((c ∷ cs) ∷ bs) k =
      file_pieces p name (helper.on_file_data h (c ∷ cs)).0 bs k.1

  headers-text :
      (p : Parts H) (l : Bytes) (ls : List Bytes)
      → AreLines (l ∷ ls)
      → is_empty (said l ls).disposition.name ≡ false
      → (said l ls).disposition.file_name_exists ≡ false
      → parse_fm_headers helper (headed p (head_text l ls)) (head_text l ls) ≡ (
        record p {
          counter = 4;
          state = headers_end;
          header_tmp = head_text l ls;
          helper = ended p;
          mode = mode_string;
          target = some (said l ls).disposition.name;
          params = put (said l ls).disposition.name [] p.params;
        },
        true,
      )
  unfolding parse_fm_headers
  headers-text p l ls k n f =
      rw (head_lines-head_bytes no_head (l ∷ ls) k, n, f)
        (elim (Bool-cases (is_file p.mode)) [ inl m ↦ rw m refl | inr m ↦ rw m refl ])

  headers-file :
      (p : Parts H) (l : Bytes) (ls : List Bytes)
      → AreLines (l ∷ ls)
      → is_empty (said l ls).disposition.name ≡ false
      → (said l ls).disposition.file_name_exists ≡ true
      → parse_fm_headers helper (headed p (head_text l ls)) (head_text l ls) ≡ (
        start_file helper (record (headed p (head_text l ls)) { helper = ended p }) (said l ls),
        true,
      )
  unfolding parse_fm_headers
  headers-file p l ls k n f =
      rw (head_lines-head_bytes no_head (l ∷ ls) k, n, f)
        (elim (Bool-cases (is_file p.mode)) [ inl m ↦ rw m refl | inr m ↦ rw m refl ])

  -- A part with a name and without a file name, its content in pieces: the parameter of that name is
  -- the content, whatever it was before, and nothing else is changed.
  pub text_part :
      (p : Parts H) (l : Bytes) (ls : List Bytes) (content : Bytes) (pieces : List Bytes)
      → AreLines (l ∷ ls)
      → is_empty (said l ls).disposition.name ≡ false
      → (said l ls).disposition.file_name_exists ≡ false
      → handle_events helper p (new_part ∷ append (part_text l ls content) ∷ map append pieces)
        ≡ some (record p {
          counter = 4;
          state = read;
          header_tmp = head_text l ls;
          helper = ended p;
          mode = mode_string;
          target = some (said l ls).disposition.name;
          params = put (said l ls).disposition.name (content ++ flatten pieces) p.params;
        })
  unfolding handle_events part_end
  text_part p l ls content pieces k n f =
      let name = (said l ls).disposition.name in
      let base : Parts H = record p {
        counter = 4;
        header_tmp = head_text l ls;
        helper = ended p;
      } in
      rw
        (
          handle_events,
          first_piece p _ l ls content k (headers-text p l ls k n f),
          get_default-put name [] [] p.params,
          put-put name [] content p.params,
        )
        (text_pieces base name content pieces)

  -- A part with a name and a file name, for which the handler gives a path that can be written: the
  -- handler gets the end of the file before it, if there was one, then the new file, then the content
  -- in order; the file is entered under its name, and the one that had it is removed.
  pub file_part :
      (p : Parts H) (l : Bytes) (ls : List Bytes) (content : Bytes) (pieces : List Bytes) (h : H)
      (path : Bytes)
      → AreLines (l ∷ ls)
      → is_empty (said l ls).disposition.name ≡ false
      → (said l ls).disposition.file_name_exists ≡ true
      → NoneEmpty pieces
      → helper.on_new_file
          (ended p)
          (said l ls).disposition.name
          (said l ls).disposition.file_name
          (mime_of (said l ls))
        ≡ (h, path, true)
      → handle_events helper p (new_part ∷ append (part_text l ls content) ∷ map append pieces)
        ≡ some (record p {
          counter = 4;
          state = read;
          header_tmp = head_text l ls;
          helper = feed h (content ∷ pieces);
          mode = mode_file;
          target = some (said l ls).disposition.name;
          files =
              put_file
                (said l ls).disposition.name
                (record {
                  mime_type = mime_of (said l ls);
                  orig_file_name = (said l ls).disposition.file_name;
                  path = path;
                })
                p.files;
          removed = p.removed ++ old_path (get_file (said l ls).disposition.name p.files);
        })
  unfolding handle_events part_end start_file
  file_part p l ls content pieces h path k n f j e =
      let name = (said l ls).disposition.name in
      rw (handle_events, first_piece p _ l ls content k (headers-file p l ls k n f), e)
        (rw (removes (get_file name p.files) p.removed) (
          file_pieces
            (record p {
              counter = 4;
              header_tmp = head_text l ls;
              files =
                  put_file name
                    (record {
                      mime_type = mime_of (said l ls);
                      orig_file_name = (said l ls).disposition.file_name;
                      path = path;
                    })
                    p.files;
              removed = p.removed ++ old_path (get_file name p.files);
            })
            name (helper.on_file_data h content).0 pieces j))
