-- ===== src/Query/Parts/Bounded.antt =====
-- The limits of the uploads over all the pieces of a form: QueryParams.cpp, `AppendFormMultipart`,
-- `AppendToCurrentPart` and `ParseFMHeaders` with `TempFileUploadHelper`.
use mini_web_srv.Base.{
  ℕ, ◌+◌, ◌≤◌, subst, Bool, true, false, some, none, Option, List, [], ◌∷◌, ◌++◌, Bytes, ltb,
  length, arith, if◌then◌else◌, ◌||◌, Bool-cases, Option-cases, inl, inr,
}
use mini_web_srv.Query.Boundary.{Event, append, new_part}
use mini_web_srv.Query.Upload.{on_new_file, Limits, Uploader, on_file_end}
use mini_web_srv.Query.Upload.Laws.{IsCounted, on_new_file-IsCounted, on_file_data-IsCounted}
use mini_web_srv.Query.Parts.{
  turn, is_file, is_empty, head_lines, no_head, Helper, Parts, PartHead, Turn, go, give, is_reading,
  is_finished, overrun, end_byte, start_new_part, part_loop, part_end, parse_fm_headers, start_file,
  header_start_turn, headers_end_turn, append_to_current_part, handle_events,
}
use mini_web_srv.Query.Parts.TempFile.{temp_file_helper}

IsCounted-less : (l : Limits) (n m : ℕ) (u : Uploader) → n ≤ m → IsCounted l m u → IsCounted l n u
IsCounted-less l n m u k h = ground arith

on_file_end-IsCounted :
    (l : Limits) (n : ℕ) (u : Uploader) → IsCounted l n u → IsCounted l n (on_file_end u)
unfolding on_file_end
on_file_end-IsCounted l n u h = h

-- What a call says of the handler that it leaves.
abbrev Leaves : Limits → ℕ → Option (Bool × Parts Uploader) → Type 0
Leaves l n none = Unit {0}
Leaves l n (some (ok, p)) = IsCounted l n p.helper

if_both : {A : Type 0} (P : A → Type 0) (b : Bool) (x y : A) → P x → P y → P (if b then x else y)
if_both P true x y h k = h
if_both P false x y h k = k

abbrev Turns : Limits → ℕ → Turn Uploader → Type 0
Turns l n overrun = Unit {0}
Turns l n (go p since) = IsCounted l n p.helper
Turns l n (give ok p) = IsCounted l n p.helper

-- The bytes of the pieces.
abbrev pub event_size : List Event → ℕ
event_size [] = 0
event_size (append bs ∷ es) = length bs + event_size es
event_size (new_part ∷ es) = event_size es

abbrev pub Ends : Limits → Option (Parts Uploader) → Type 0
Ends l none = Unit {0}
Ends l (some p) = IsCounted l 0 p.helper

module _ (create : ℕ → Option (Bytes × Bool)) (accepts : Bytes → Bytes → Bool) where
  abbrev helper : Helper Uploader
  helper = temp_file_helper create accepts

  start_file-IsCounted :
      (l : Limits) (n : ℕ) (p : Parts Uploader) (d : PartHead)
      → IsCounted l n p.helper
      → IsCounted l n (start_file helper p d).helper
  unfolding start_file temp_file_helper
  start_file-IsCounted l n p d h =
      let i = on_new_file-IsCounted create accepts l n p.helper h in
      elim (Bool-cases (on_new_file create accepts p.helper).2) [ inl e ↦ rw e i | inr e ↦ rw e i ]

  parse_fm_headers-IsCounted :
      (l : Limits) (n : ℕ) (p : Parts Uploader) (text : Bytes)
      → IsCounted l n p.helper
      → IsCounted l n (parse_fm_headers helper p text).0.helper
  unfolding parse_fm_headers temp_file_helper
  parse_fm_headers-IsCounted l n p text h =
      let d = head_lines no_head [] text in
      let p' : Parts Uploader =
        if is_file p.mode then record p { helper = helper.on_file_end p.helper } else p in
      let i : IsCounted l n p'.helper =
        if_both {A = Parts Uploader} (λ q. IsCounted l n q.helper) (is_file p.mode) _ _
          (on_file_end-IsCounted l n p.helper h) h in
      if_both {A = Parts Uploader × Bool} (λ r. IsCounted l n r.0.helper)
        (is_empty d.disposition.name) _ _ h
        (if_both {A = Parts Uploader} (λ q. IsCounted l n q.helper) d.disposition.file_name_exists _
          _ (start_file-IsCounted l n p' d i) i)

  part_end-IsCounted :
      (l : Limits) (n : ℕ) (p : Parts Uploader) (since rest : Bytes)
      → IsCounted l (length rest + n) p.helper
      → IsCounted l n (part_end helper p since rest).1.helper
  unfolding part_end temp_file_helper
  part_end-IsCounted l n p since rest h =
      let i = on_file_data-IsCounted create accepts l n p.helper rest h in
      let j = IsCounted-less l n (length rest + n) p.helper (omega arith) h in ground arith

  header_start_turn-Turns :
      (l : Limits) (n : ℕ) (p : Parts Uploader) (since : Bytes) (c : ℕ)
      → IsCounted l n p.helper
      → Turns l n (header_start_turn helper p since c)
  unfolding header_start_turn temp_file_helper on_file_end
  header_start_turn-Turns l n p since c h = ground arith

  headers_end_turn-Turns :
      (l : Limits) (n : ℕ) (p : Parts Uploader) (since : Bytes) (c : ℕ)
      → IsCounted l n p.helper
      → Turns l n (headers_end_turn helper p since c)
  unfolding headers_end_turn
  headers_end_turn-Turns l n p since c h = elim (Option-cases (end_byte p.counter)) [
    | inl e ↦ ground (arith, e)
    | inr (b, e) ↦
        (let tmp =
            if ltb 4 (length since) then p.header_tmp ++ (since ++ c ∷ []) else p.header_tmp in
          let i =
            parse_fm_headers-IsCounted l n (record p { counter = 4; header_tmp = tmp }) tmp h in
          ground (arith, e))
  ]

  turn-Turns :
      (l : Limits) (n : ℕ) (p : Parts Uploader) (since : Bytes) (c : ℕ)
      → IsCounted l n p.helper
      → Turns l n (turn helper p since c)
  unfolding on_file_end temp_file_helper
  turn-Turns l n p since c h =
      let i = header_start_turn-Turns l n p since c h in
      let j = headers_end_turn-Turns l n p since c h in ground arith

  -- What the loop does with a turn.
  abbrev after_turn :
      (Parts Uploader → Bytes → Option (Bool × Parts Uploader))
      → Turn Uploader
      → Option (Bool × Parts Uploader)
  after_turn loop (go p since) = loop p since
  after_turn loop (give ok p) = some (ok, p)
  after_turn loop overrun = none

  after_turn-Leaves :
      (l : Limits) (n m : ℕ) (loop : Parts Uploader → Bytes → Option (Bool × Parts Uploader))
      (t : Turn Uploader)
      → n ≤ m
      → ((p : Parts Uploader) (since : Bytes) → IsCounted l m p.helper → Leaves l n (loop p since))
      → Turns l m t
      → Leaves l n (after_turn loop t)
  after_turn-Leaves l n m loop (go p since) k f i = f p since i
  after_turn-Leaves l n m loop (give ok p) k f i = IsCounted-less l n m p.helper k i
  after_turn-Leaves l n m loop overrun k f i = tt

  part_loop-Leaves :
      (l : Limits) (n : ℕ) (p : Parts Uploader) (since rest : Bytes)
      → IsCounted l (length rest + n) p.helper
      → Leaves l n (part_loop helper p since rest)
  unfolding part_loop
  part_loop-Leaves l n p since [] h = part_end-IsCounted l n p since [] h
  part_loop-Leaves l n p since (c ∷ cs) h =
      let i : IsCounted l (length cs + n) p.helper =
        IsCounted-less l (length cs + n) (length (c ∷ cs) + n) p.helper (omega arith) h in
      elim (Bool-cases (is_reading p.state)) [
        | inl e ↦ rw (part_loop, e) (part_end-IsCounted l n p since (c ∷ cs) h)
        | inr e ↦
            rw (part_loop, e)
              (after_turn-Leaves l n (length cs + n) (λ q s. part_loop helper q s cs)
                (turn helper p since c) (omega arith) (λ q s j. part_loop-Leaves l n q s cs j)
                (turn-Turns l (length cs + n) p since c i))
      ]

  append_to_current_part-Leaves :
      (l : Limits) (n : ℕ) (p : Parts Uploader) (bs : Bytes)
      → IsCounted l (length bs + n) p.helper
      → Leaves l n (append_to_current_part helper p bs)
  unfolding append_to_current_part
  append_to_current_part-Leaves l n p bs h =
      elim (Bool-cases (is_empty bs || is_finished p.state)) [
        | inl e ↦
            rw (append_to_current_part, e)
              (IsCounted-less l n (length bs + n) p.helper (omega arith) h)
        | inr e ↦ rw (append_to_current_part, e) (part_loop-Leaves l n p [] bs h)
      ]

  pub handle_events-Ends :
      (l : Limits) (p : Parts Uploader) (es : List Event)
      → IsCounted l (event_size es) p.helper
      → Ends l (handle_events helper p es)
  unfolding handle_events start_new_part
  handle_events-Ends l p [] h = h
  handle_events-Ends l p (new_part ∷ es) h = handle_events-Ends l (start_new_part p) es h
  handle_events-Ends l p (append bs ∷ es) h =
      let i = append_to_current_part-Leaves l (event_size es) p bs h in
      elim (Option-cases (append_to_current_part helper p bs)) [
        | inl e ↦ rw (handle_events, e) tt
        | inr (r, e) ↦
            rw (handle_events, e)
              (handle_events-Ends l r.1 es (subst (Leaves l (event_size es)) e i))
      ]
