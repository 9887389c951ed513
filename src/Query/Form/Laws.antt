-- ===== src/Query/Form/Laws.antt =====
-- A whole form, whatever its chunks: QueryParams.cpp, `AppendFormMultipart` with what it calls.
use mini_web_srv.Base.{
  ℕ, ◌+◌, ◌^◌, ◌≡◌, ◌≤◌, ◌<◌, refl, sym, ap, ◌∙◌, subst, Bool, some, none, Option, List, [], ◌∷◌,
  ◌++◌, Bytes, length, length-append, arith, Option-cases, inl, inr,
}
use mathlib.Core.List.{flatten}
use mini_web_srv.Query.Boundary.{Event, append, new_part, append_form_multipart, append_chunks}
use mini_web_srv.Query.Boundary.Stream.{
  Item, byte, part, bytes, items, Held, restart, read_byte, read_bytes,
}
use mini_web_srv.Query.Boundary.Chunks.{IsHeld, held_of, append_chunks-read_bytes}
use mini_web_srv.Query.Upload.{Limits, Uploader, new_uploader}
use mini_web_srv.Query.Upload.Laws.{IsCounted, written_size}
use mini_web_srv.Query.Parts.{Helper, Parts, handle_events, start_new_part, append_to_current_part}
use mini_web_srv.Query.Parts.TempFile.{temp_file_helper}
use mini_web_srv.Query.Parts.Bounded.{event_size, Ends, handle_events-Ends}
use mini_web_srv.Query.Form.{Form, append_chunk, append_body}

-- The events of the whole body, handled.
abbrev pub all_events : {H : Type 0} → Helper H → Form H → List Bytes → Option (Parts H)
all_events helper f chunks =
    handle_events helper f.parts (append_chunks f.boundary f.splitter chunks).0

-- More events, if the ones before them went well.
abbrev then_events : {H : Type 0} → Helper H → List Event → Option (Parts H) → Option (Parts H)
then_events helper es none = none
then_events helper es (some p) = handle_events helper p es

handle_events-append :
    {H : Type 0} (helper : Helper H) (p : Parts H) (es es' : List Event)
    → handle_events helper p (es ++ es') ≡ then_events helper es' (handle_events helper p es)
unfolding handle_events
handle_events-append helper p [] es' = refl
handle_events-append helper p (new_part ∷ es) es' =
    handle_events-append helper (start_new_part p) es es'
handle_events-append helper p (append bs ∷ es) es' =
    elim (Option-cases (append_to_current_part helper p bs)) [
      | inl e ↦ rw (handle_events, e) refl
      | inr (r, e) ↦ rw (handle_events, e) (handle_events-append helper r.1 es es')
    ]

abbrev pub parts_of : {H : Type 0} → Option (Form H) → Option (Parts H)
parts_of none = none
parts_of (some f) = some f.parts

-- The calls for the chunks of a body do what the events of the whole body do.
pub append_body-all_events :
    {H : Type 0} (helper : Helper H) (f : Form H) (chunks : List Bytes)
    → parts_of (append_body helper f chunks) ≡ all_events helper f chunks
unfolding append_body append_chunk append_chunks handle_events
append_body-all_events helper f [] = refl
append_body-all_events helper f (chunk ∷ chunks) =
    let (es, s) = append_form_multipart f.boundary f.splitter chunk in
    elim (Option-cases (handle_events helper f.parts es)) [
      | inl e ↦
          rw (append_body, append_chunk, e)
            (sym (
              handle_events-append helper f.parts es _
              ∙ ap (then_events helper (append_chunks f.boundary s chunks).0) e))
      | inr (p, e) ↦
          rw (append_body, append_chunk, e)
            (append_body-all_events helper (record f { splitter = s; parts = p }) chunks
              ∙ sym (
                  handle_events-append helper f.parts es _
                  ∙ ap (then_events helper (append_chunks f.boundary s chunks).0) e))
    ]

-- How many of the items are bytes.
abbrev pub byte_count : List Item → ℕ
byte_count [] = 0
byte_count (byte b ∷ is) = 1 + byte_count is
byte_count (part ∷ is) = byte_count is

byte_count-append : (is js : List Item) → byte_count (is ++ js) ≡ byte_count is + byte_count js
byte_count-append [] js = omega arith
byte_count-append (byte b ∷ is) js = omega (arith, byte_count-append is js)
byte_count-append (part ∷ is) js = byte_count-append is js

byte_count-bytes : (bs : Bytes) → byte_count (bytes bs) ≡ length bs
byte_count-bytes [] = refl
byte_count-bytes (b ∷ bs) = omega (arith, byte_count-bytes bs)

event_size-items : (es : List Event) → event_size es ≡ byte_count (items es)
event_size-items [] = refl
event_size-items (new_part ∷ es) = event_size-items es
event_size-items (append bs ∷ es) =
    omega (arith, event_size-items es, byte_count-append (bytes bs) (items es), byte_count-bytes bs)

module _ (boundary : Bytes) where
  read_byte-byte_count :
      (h : Held) (c : ℕ)
      → byte_count (read_byte boundary h c).0 + length (read_byte boundary h c).1.held
        ≤ length h.held + 1
  read_byte-byte_count h c = ground (
    arith,
    length-append h.held (c ∷ []),
    byte_count-append (bytes h.held) (restart c).0,
    byte_count-bytes h.held,
  )

  read_bytes-byte_count :
      (h : Held) (cs : Bytes)
      → byte_count (read_bytes boundary h cs).0 + length (read_bytes boundary h cs).1.held
        ≤ length h.held + length cs
  unfolding read_bytes
  read_bytes-byte_count h [] = omega arith
  read_bytes-byte_count h (c ∷ cs) =
      let (out, h') = read_byte boundary h c in
      omega (
        arith,
        read_byte-byte_count h c,
        read_bytes-byte_count h' cs,
        byte_count-append out (read_bytes boundary h' cs).0,
      )

-- The uploader of a form, if there was no read behind the end.
abbrev pub IsBounded : Limits → Option (Form Uploader) → Type 0
IsBounded l none = Unit {0}
IsBounded l (some f) =
    (written_size f.parts.helper.written ≤ l.max_upload_size)
    × (written_size f.parts.helper.written ≤ l.max_total_upload_size)

Ends-IsBounded : (l : Limits) (o : Option (Form Uploader)) → Ends l (parts_of o) → IsBounded l o
Ends-IsBounded l none h = h
Ends-IsBounded l (some f) h = (h.4, h.5)

module _ (create : ℕ → Option (Bytes × Bool)) (accepts : Bytes → Bytes → Bool) where
  -- Whatever the client sends as a form, in whatever chunks, the default handler writes no more bytes
  -- than either limit allows, to all the files together: if the search holds back no more than it has
  -- matched, no file was there before, what is held back and the body have fewer than `2 ^ 64` bytes,
  -- and the code does not read behind the end of the four bytes that end the headers.
  pub append_body-IsBounded :
      (l : Limits) (f : Form Uploader) (chunks : List Bytes)
      → IsHeld f.splitter
      → f.parts.helper ≡ new_uploader l
      → length f.splitter.parse_tmp + length (flatten chunks) < 2 ^ 64
      → IsBounded l (append_body (temp_file_helper create accepts) f chunks)
  append_body-IsBounded l f chunks i h k =
      let es = (append_chunks f.boundary f.splitter chunks).0 in
      let size : event_size es < 2 ^ 64 = omega (
        arith,
        k,
        event_size-items es,
        ap byte_count (append_chunks-read_bytes f.boundary f.splitter chunks i).0,
        read_bytes-byte_count f.boundary (held_of f.splitter) (flatten chunks),
      ) in
      let start : IsCounted l (event_size es) f.parts.helper =
        subst (IsCounted l (event_size es)) (sym h)
          (refl, omega (arith, size), omega arith, omega arith, omega arith, omega arith) in
      Ends-IsBounded l (append_body (temp_file_helper create accepts) f chunks) (
        subst (Ends l) (sym (append_body-all_events (temp_file_helper create accepts) f chunks))
          (handle_events-Ends create accepts l f.parts es start))
