-- ===== src/Http/Content.antt =====
-- Connection.cpp, `ContentHandler`: the content of a POST request. `strtoull`, behind `GetULongLong`, is
-- the parameter `to_number`, and `none` is its exception.
pub mod Rounds
pub mod Laws
pub mod Multipart
pub mod Handler
mod Tests
use mini_web_srv.Base.{
  ℕ, zero, suc, ◌+◌, ◌-◌, ◌^◌, ◌%◌, Bool, true, false, not, Option, none, some, List, [], ◌∷◌, ◌++◌,
  Bytes, ltb, ◌==◌, if◌then◌else◌, length, take,
}
use mini_web_srv.ReadBuff.{
  Buff, consume, available_length, available_data, reset_relevant, request_data,
}
use mini_web_srv.Query.Boundary.{on_boundary_parsed}
use mini_web_srv.Http.HeaderLine.{HeaderName, content_length, content_type, Header}
use mini_web_srv.Http.ContentType.{
  ContentType, ct_unknown, ct_url_encoded, ct_form_multipart, is_content_type, get_content_type,
}
use mini_web_srv.Http.Head.{continue_read}

-- `HeaderFoundFlags`, with what was found, and the boundary of the query's object.
pub record Found : Type 0 where
  pub content_length : Option ℕ
  pub content_type : Option ContentType
  pub boundary : Bytes

abbrev pub is_content_length : HeaderName → Bool
is_content_length content_length = true
is_content_length _ = false

abbrev pub found_all : Found → Bool
found_all f = elim f.content_length [
  | none ↦ false
  | some n ↦ elim f.content_type [ none ↦ false | some t ↦ true ]
]

-- One header of the search.
unfoldable pub find_header : (Bytes → Option ℕ) → Found → Option Header → Option Found
find_header to_number f none = some f
find_header to_number f (some h) =
    if is_content_length h.int_name
    then elim (to_number h.value) [
      | none ↦ none
      | some n ↦ some (record f { content_length = some n })
    ]
    else if is_content_type h.int_name
    then (let (t, boundary) = get_content_type h f.boundary in
        some (record f { content_type = some t; boundary = on_boundary_parsed boundary }))
    else some f

unfoldable pub find_headers : (Bytes → Option ℕ) → Found → List (Option Header) → Option Found
unfolding find_header
find_headers to_number f [] = some f
find_headers to_number f (h ∷ hs) = elim (find_header to_number f h) [
  | none ↦ none
  | some f' ↦ let rest = find_headers to_number f' hs in if found_all f' then some f' else rest
]

-- `while (!ReadBuff.RequestData(n)) ContinueRead(Yield);` on fuel for its rounds: the buffer and the
-- reads behind it. The inner `none` is a read that has not come.
unfoldable pub await_data :
    (ℕ → ℕ) → ℕ → ℕ → Buff → List Bytes → Option (Option (Buff × List Bytes))
await_data garbage zero n b reads = none
await_data garbage (suc fuel) n b reads =
    let (b', ok) = request_data garbage b n in
    if ok then some (some (b', reads)) else elim (continue_read b' reads) [
      | none ↦ some none
      | some (b'', rs) ↦ await_data garbage fuel n b'' rs
    ]

-- The loop over a multipart content of which `rem` bytes are left: the chunks that are handed to
-- `AppendFormMultipart`, in order.
unfoldable pub multipart_loop :
    (ℕ → ℕ) → ℕ → ℕ → ℕ → Buff → List Bytes → Option (Option (List Bytes × Buff × List Bytes))
multipart_loop garbage read_buff_size zero rem b reads = none
multipart_loop garbage read_buff_size (suc fuel) zero b reads = some (some ([], b, reads))
multipart_loop garbage read_buff_size (suc fuel) (suc r) b reads =
    let rem = suc r in
    let avail = available_length b in
    let left = rem - avail in
    let b' = (consume b avail false).0 in
    let b'' =
      (request_data garbage b' (if ltb left read_buff_size then left else read_buff_size)).0 in
    if ltb avail rem
    then elim (continue_read b'' reads) [
      | none ↦ some none
      | some (b3, rs) ↦ elim (multipart_loop garbage read_buff_size fuel left b3 rs) [
        | none ↦ none
        | some none ↦ some none
        | some (some (chunks, b4, rs')) ↦ some (some (available_data b ∷ chunks, b4, rs'))
      ]
    ]
    else some (some (take rem (available_data b) ∷ [], (consume b rem false).0, reads))

-- What the content handler does for a content: `whole` is the bytes from `ContentBuff` up to
-- `ContentEndBuff`, which are the text of a form if the flag says so; `parts` is the chunks of a
-- multipart content.
pub data Content : Type 0 where
  rejected : Content
  no_content : Content
  whole : Bool → Bytes → Buff → List Bytes → Content
  parts : Bytes → List Bytes → Buff → List Bytes → Content
  stalled : Content

abbrev pub is_multipart : Option ContentType → Bool
is_multipart (some ct_form_multipart) = true
is_multipart _ = false

abbrev pub is_url_encoded : Option ContentType → Bool
is_url_encoded (some ct_url_encoded) = true
is_url_encoded _ = false

unfoldable pub read_content : (ℕ → ℕ) → ℕ → ℕ → Found → ℕ → Buff → List Bytes → Option Content
unfolding await_data multipart_loop
read_content garbage read_buff_size fuel f n b reads =
    if is_multipart f.content_type
    then elim (multipart_loop garbage read_buff_size fuel n (reset_relevant b) reads) [
      | none ↦ none
      | some none ↦ some stalled
      | some (some (chunks, b', rs)) ↦ some (parts f.boundary chunks b' rs)
    ]
    else elim (await_data garbage fuel (n % 2 ^ 32) b reads) [
      | none ↦ none
      | some none ↦ some stalled
      | some (some (b', rs)) ↦ some (
          whole (is_url_encoded f.content_type) (available_data b')
            (consume b' (available_length b') true).0 rs)
    ]

-- The handler, from the headers on. `boundary` is the string that the query's object has.
unfoldable pub content_handler :
    (ℕ → ℕ)
    → (Bytes → Option ℕ)
    → ℕ
    → ℕ
    → Bytes
    → List (Option Header)
    → Buff
    → List Bytes
    → Option Content
unfolding find_headers read_content
content_handler garbage to_number max_length read_buff_size boundary headers b reads =
    elim (find_headers to_number
      (record { content_length = none; content_type = none; boundary = boundary }) headers) [
        | none ↦ some rejected
        | some f ↦ elim f.content_length [
          | none ↦ some rejected
          | some n ↦
              if n == 0
              then some no_content
              else if ltb max_length n
              then some rejected
              else read_content garbage read_buff_size (suc (length reads)) f n b reads
        ]
      ]
