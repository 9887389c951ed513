-- ===== src/Http/Body/Chunked.antt =====
-- The chunked coding (RFC 7230 4.1), read back.
use mini_web_srv.Base.{
  ℕ, zero, suc, ◌+◌, ◌-◌, ◌*◌, ◌/◌, ◌%◌, ◌^◌, ◌<◌, ◌≡◌, refl, ap, ◌∙◌, Bool, true, false, ◌&&◌,
  ◌||◌, Option, none, some, List, [], ◌∷◌, ◌++◌, Bytes, arith, leb, ◌==◌, if◌then◌else◌, Bool-cases,
  inl, inr, length, take, drop, length-append, take-append-length, drop-append-length, append_assoc,
  append-nil, codes,
}
use mini_web_srv.Http.Body.{Read, hex_char, hex_chars, chunk, final_chunk, is_empty, chunked_body}

abbrev pub hex_value : ℕ → ℕ
hex_value d = if leb b'a' d then d - b'a' + 10 else d - b'0'

unfoldable pub is_hex_digit : ℕ → Bool
is_hex_digit d = (leb b'0' d && leb d b'9') || (leb b'a' d && leb d b'f')

-- The size of a chunk, and the text from its line break on.
unfoldable pub read_size : ℕ → Bytes → Option (ℕ × Bytes)
read_size n [] = none
read_size n (c ∷ cs) =
    let rest = read_size (n * 16 + hex_value c) cs in
    if c == b'\r' then some (n, c ∷ cs) else if is_hex_digit c then rest else none

-- A size has a digit.
abbrev pub starts_hex : Bytes → Bool
starts_hex [] = false
starts_hex (c ∷ cs) = is_hex_digit c

-- What is behind the line break that a text must start with.
unfoldable pub behind_break : Bytes → Option Bytes
behind_break (c ∷ d ∷ cs) = if c == b'\r' && d == b'\n' then some cs else none
behind_break _ = none

-- A recipient: chunks up to the empty one, on fuel for the number of chunks; then what is left. The
-- size and the data of a chunk are each followed by a line break, and nothing else is taken.
unfoldable pub read_chunks : ℕ → Bytes → Option (Bytes × Bytes)
read_chunks zero bs = none
read_chunks (suc fuel) bs = elim (if starts_hex bs then read_size 0 bs else none) [
  | none ↦ none
  | some (n, line) ↦ elim (behind_break line) [
    | none ↦ none
    | some body ↦ elim (behind_break (drop n body)) [
      | none ↦ none
      | some behind ↦
          let more = read_chunks fuel behind in
          if n == 0
          then some ([], behind)
          else elim more [ none ↦ none | some (bs', left) ↦ some (take n body ++ bs', left) ]
    ]
  ]
]

-- What a response gives up to its end.
abbrev pub content : List Read → Bytes
content [] = []
content (r ∷ rs) =
    if is_empty r.bytes then [] else if r.is_finished then r.bytes else r.bytes ++ content rs

abbrev pub ends : List Read → Bool
ends [] = false
ends (r ∷ rs) = is_empty r.bytes || r.is_finished || ends rs

-- A read fits the 32 bits of `ReadLength`.
abbrev pub AllFit : List Read → Type 0
AllFit [] = Unit {0}
AllFit (r ∷ rs) = (length r.bytes < 2 ^ 32) × AllFit rs

abbrev bound : ℕ → ℕ
bound zero = 1
bound (suc k) = 16 * bound k

hex_digit_value :
    (d : ℕ)
    → d < 16
    → (hex_value (hex_char d) ≡ d)
      × ((hex_char d == b'\r') ≡ false)
      × (is_hex_digit (hex_char d) ≡ true)
unfolding hex_char is_hex_digit
hex_digit_value d h = ground arith

read_size-hex_chars :
    (k n : ℕ) (rest : Bytes) → n < bound k → read_size 0 (hex_chars k n ++ rest) ≡ read_size n rest
unfolding read_size hex_chars
read_size-hex_chars zero n rest h = ap (λ m. read_size m rest) {y = n} (omega arith)
read_size-hex_chars (suc k) n rest h =
    let (v, e, x) = hex_digit_value (n % 16) (omega arith) in
    ap (read_size 0) (append_assoc (hex_chars k (n / 16)) (hex_char (n % 16) ∷ []) rest)
    ∙ read_size-hex_chars k (n / 16) (hex_char (n % 16) ∷ rest) (omega arith)
    ∙ rw (e, x, v) (ap (λ m. read_size m rest) {y = n} (omega arith))

starts_hex-hex_chars : (k n : ℕ) (rest : Bytes) → starts_hex (hex_chars (suc k) n ++ rest) ≡ true
unfolding hex_chars
starts_hex-hex_chars zero n rest = (hex_digit_value (n % 16) (omega arith)).2
starts_hex-hex_chars (suc k) n rest =
    ap starts_hex (append_assoc (hex_chars (suc k) (n / 16)) (hex_char (n % 16) ∷ []) rest)
    ∙ starts_hex-hex_chars k (n / 16) (hex_char (n % 16) ∷ rest)

-- A chunk in front of `rest`: its size, the line break, the data, the line break.
chunk_text :
    (bs rest : Bytes)
    → chunk bs ++ rest ≡ hex_chars 8 (length bs) ++ (codes "\r\n" ++ (bs ++ (codes "\r\n" ++ rest)))
unfolding chunk
chunk_text bs rest =
    append_assoc (hex_chars 8 (length bs)) (codes "\r\n" ++ (bs ++ codes "\r\n")) rest
    ∙ ap (λ x. hex_chars 8 (length bs) ++ (codes "\r\n" ++ x)) (append_assoc bs (codes "\r\n") rest)

read_size-chunk :
    (bs rest : Bytes)
    → length bs < 2 ^ 32
    → (if starts_hex (chunk bs ++ rest) then read_size 0 (chunk bs ++ rest) else none)
      ≡ some (length bs, codes "\r\n" ++ (bs ++ (codes "\r\n" ++ rest)))
unfolding read_size
read_size-chunk bs rest h =
    rw
      (
        chunk_text bs rest,
        starts_hex-hex_chars 7 (length bs) (codes "\r\n" ++ (bs ++ (codes "\r\n" ++ rest))),
      )
      (read_size-hex_chars 8 (length bs) (codes "\r\n" ++ (bs ++ (codes "\r\n" ++ rest)))
        (omega arith))

not_zero : (bs : Bytes) → is_empty bs ≡ false → (length bs == 0) ≡ false
not_zero [] h = ground arith
not_zero (b ∷ bs) h = ground arith

read_chunks-chunk :
    (fuel : ℕ) (bs rest got left : Bytes)
    → length bs < 2 ^ 32
    → is_empty bs ≡ false
    → read_chunks fuel rest ≡ some (got, left)
    → read_chunks (suc fuel) (chunk bs ++ rest) ≡ some (bs ++ got, left)
unfolding read_chunks behind_break
read_chunks-chunk fuel bs rest got left h n e =
    rw
      (
        read_chunks,
        read_size-chunk bs rest h,
        drop-append-length bs (codes "\r\n" ++ rest),
        not_zero bs n,
        e,
      )
      (ap (λ x. some (x ++ got, left)) (take-append-length bs (codes "\r\n" ++ rest)))

read_chunks-final_chunk : (fuel : ℕ) → read_chunks (suc fuel) final_chunk ≡ some ([], [])
unfolding read_chunks read_size is_hex_digit behind_break
read_chunks-final_chunk fuel = refl

-- A response without a length, whose reads come to an end and fit 32 bits, is written completely: a
-- strict recipient of chunks reads back what the reads gave, nothing is left, and the total is its length.
pub chunked_body-read_chunks :
    (rs : List Read)
    → ends rs ≡ true
    → AllFit rs
    → (out : Bytes) × (total : ℕ) × (chunked_body rs ≡ some (out, total))
      × (read_chunks (suc (length rs)) out ≡ some (content rs, []))
      × (total ≡ length (content rs))
unfolding chunked_body
chunked_body-read_chunks [] e h = ground arith
chunked_body-read_chunks (r ∷ rs) e h = elim (Bool-cases (is_empty r.bytes)) [
  | inl z ↦
      (final_chunk, 0, rw z refl, read_chunks-final_chunk (suc (length rs)) ∙ rw z refl, rw z refl)
  | inr z ↦ elim (Bool-cases r.is_finished) [
    | inl f ↦ (
      chunk r.bytes ++ final_chunk,
      length r.bytes,
      rw (z, f) refl,
      read_chunks-chunk (suc (length rs)) r.bytes final_chunk [] [] h.0 z
            (read_chunks-final_chunk (length rs))
          ∙ rw (z, f) (ap (λ x. some (x, [])) (append-nil r.bytes)),
      rw (z, f) refl,
    )
    | inr f ↦
        let (out, total, b, d, l) = chunked_body-read_chunks rs (ground (arith, e, z, f)) h.1 in
        (
          chunk r.bytes ++ out,
          length r.bytes + total,
          rw (z, f, b) refl,
          read_chunks-chunk (suc (length rs)) r.bytes out (content rs) [] h.0 z d ∙ rw (z, f) refl,
          rw (z, f) (omega (arith, l, length-append r.bytes (content rs))),
        )
  ]
]
