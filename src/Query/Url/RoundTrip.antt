-- ===== src/Query/Url/RoundTrip.antt =====
-- Percent-encoding (RFC 3986 2.1) and the form encoding, read back by the decoders.
use mini_web_srv.Base.{
  ℕ, ◌+◌, ◌-◌, ◌/◌, ◌%◌, ◌<◌, ◌≡◌, ◌↔◌, refl, sym, ap, ap₂, ◌∙◌, Bool, true, false, ◌||◌, none,
  some, [], ◌∷◌, ◌++◌, Bytes, AreBytes, arith, ltb, ◌==◌, ==_iff, if◌then◌else◌, Bool-cases, inl,
  inr, append_assoc, append-nil,
}
use mini_web_srv.Base.Table.{passes, passes-all}
use mini_web_srv.Query.Url.{within, escaped_val, plain_val, decode_url_encoded}

-- The bytes that a client sends as they are.
unfoldable pub is_unreserved : ℕ → Bool
is_unreserved c =
    within b'a' b'z' c
    || within b'A' b'Z' c
    || within b'0' b'9' c
    || c == b'-'
    || c == b'.'
    || c == b'_'
    || c == b'~'

unfoldable pub hex_digit : ℕ → ℕ
hex_digit n = if ltb n 10 then b'0' + n else b'A' + (n - 10)

unfoldable pub encode_byte : ℕ → Bytes
encode_byte c =
    if is_unreserved c then c ∷ [] else b'%' ∷ hex_digit (c / 16) ∷ hex_digit (c % 16) ∷ []

unfoldable pub encode : Bytes → Bytes
encode [] = []
encode (c ∷ cs) = encode_byte c ++ encode cs

escapes_table : passes (λ c. escaped_val (hex_digit (c / 16)) (hex_digit (c % 16)) == c) 256 ≡ true
unfolding passes escaped_val hex_digit
escapes_table = refl

pub escaped_val-hex_digit :
    (c : ℕ) → c < 256 → escaped_val (hex_digit (c / 16)) (hex_digit (c % 16)) ≡ c
escaped_val-hex_digit c h = (==_iff _ c).0 (passes-all _ 256 c escapes_table h)

pub plain_byte :
    (c : ℕ)
    → is_unreserved c ≡ true
    → (plain_val c ≡ c)
      × ((c == b'%') ≡ false)
      × ((c == b'+') ≡ false)
      × ((c == b'=') ≡ false)
      × ((c == b'&') ≡ false)
unfolding is_unreserved
plain_byte c h = ground arith

decode-cons :
    (target rest : Bytes) (c : ℕ)
    → (c == b'%') ≡ false
    → decode_url_encoded target (c ∷ rest) ≡ decode_url_encoded (target ++ plain_val c ∷ []) rest
unfolding decode_url_encoded
decode-cons target [] c h = refl
decode-cons target (x ∷ []) c h = rw h
decode-cons target (x ∷ y ∷ rest) c h = rw h

decode-escape :
    (target rest : Bytes) (h l : ℕ)
    → decode_url_encoded target (b'%' ∷ h ∷ l ∷ rest)
      ≡ decode_url_encoded (target ++ escaped_val h l ∷ []) rest
unfolding decode_url_encoded
decode-escape target rest h l = refl

pub encode_byte_plain : (c : ℕ) → is_unreserved c ≡ true → encode_byte c ≡ c ∷ []
unfolding encode_byte
encode_byte_plain c h = rw h

pub encode_byte_escape :
    (c : ℕ)
    → is_unreserved c ≡ false
    → encode_byte c ≡ b'%' ∷ hex_digit (c / 16) ∷ hex_digit (c % 16) ∷ []
unfolding encode_byte
encode_byte_escape c h = rw h

decode-encode_rest :
    (target bs rest : Bytes)
    → AreBytes bs
    → decode_url_encoded target (encode bs ++ rest) ≡ decode_url_encoded (target ++ bs) rest
unfolding encode
decode-encode_rest target [] rest h = rw append-nil
decode-encode_rest target (c ∷ bs) rest h = elim (Bool-cases (is_unreserved c)) [
  | inl plain ↦
      let (e, ne, _, _, _) = plain_byte c plain in
      rw (encode_byte_plain c plain) (
        decode-cons target (encode bs ++ rest) c ne
        ∙ ap (λ x. decode_url_encoded (target ++ x ∷ []) (encode bs ++ rest)) e
        ∙ decode-encode_rest (target ++ c ∷ []) bs rest h.1
        ∙ ap (λ t. decode_url_encoded t rest) (append_assoc target (c ∷ []) bs))
  | inr other ↦ rw (encode_byte_escape c other) (
      decode-escape target (encode bs ++ rest) (hex_digit (c / 16)) (hex_digit (c % 16))
      ∙ ap (λ x. decode_url_encoded (target ++ x ∷ []) (encode bs ++ rest))
          (escaped_val-hex_digit c h.0)
      ∙ decode-encode_rest (target ++ c ∷ []) bs rest h.1
      ∙ ap (λ t. decode_url_encoded t rest) (append_assoc target (c ∷ []) bs))
]

-- Decoding a percent-encoded text of bytes appends the text to the target, and never reads behind it.
pub decode_url_encoded-encode :
    (target bs : Bytes) → AreBytes bs → decode_url_encoded target (encode bs) ≡ some (target ++ bs)
unfolding decode_url_encoded
decode_url_encoded-encode target bs h =
    ap (decode_url_encoded target) (sym (append-nil (encode bs)))
    ∙ decode-encode_rest target bs [] h

-- A text that the decoder takes in whole steps: bytes that are not `%`, and escapes of two bytes.
pub data Whole : Bytes → Type 0 where
  nothing : Whole []
  plain : {c : ℕ} {p : Bytes} → (c == b'%') ≡ false → Whole p → Whole (c ∷ p)
  escape : {h l : ℕ} {p : Bytes} → Whole p → Whole (b'%' ∷ h ∷ l ∷ p)

-- A text that ends in the middle of an escape, behind its first digit.
abbrev pub EndsHalf : Bytes → Type 0
EndsHalf s = (p : Bytes) × (d : ℕ) × Whole p × (s ≡ p ++ b'%' ∷ d ∷ [])

half_overruns :
    {p : Bytes} (target : Bytes) (d : ℕ)
    → Whole p
    → decode_url_encoded target (p ++ b'%' ∷ d ∷ []) ≡ none
unfolding decode_url_encoded
half_overruns target d nothing = refl
half_overruns target d (plain {c = c} {p = p} e w) =
    decode-cons target (p ++ b'%' ∷ d ∷ []) c e ∙ half_overruns (target ++ plain_val c ∷ []) d w
half_overruns target d (escape {h = h} {l = l} {p = p} w) =
    decode-escape target (p ++ b'%' ∷ d ∷ []) h l
    ∙ half_overruns (target ++ escaped_val h l ∷ []) d w

overruns_half : (target s : Bytes) → decode_url_encoded target s ≡ none → EndsHalf s
unfolding decode_url_encoded
overruns_half target [] k = absurd (ground (arith, k))
overruns_half target (c ∷ []) k = absurd (ground (arith, k))
overruns_half target (c ∷ h ∷ []) k = elim (Bool-cases (c == b'%')) [
  | inl e ↦ ([], h, nothing, ap (λ x. x ∷ h ∷ []) ((==_iff c b'%').0 e))
  | inr e ↦ absurd (ground (arith, k, e))
]
overruns_half target (c ∷ h ∷ l ∷ rest) k = elim (Bool-cases (c == b'%')) [
  | inl e ↦
      let (p, d, w, f) =
        overruns_half (target ++ escaped_val h l ∷ []) rest (ground (arith, k, e)) in
      let percent : c ≡ b'%' = (==_iff c b'%').0 e in
      (b'%' ∷ h ∷ l ∷ p, d, escape w, ap₂ (λ x y. x ∷ h ∷ l ∷ y) percent f)
  | inr e ↦
      let (p, d, w, f) =
        overruns_half (target ++ plain_val c ∷ []) (h ∷ l ∷ rest) (ground (arith, k, e)) in
      (c ∷ p, d, plain e w, ap (◌∷◌ c) f)
]

-- The decoder reads behind the end exactly on the texts that end behind the first digit of an escape,
-- counted from the front: `%` and one byte, behind bytes that are not `%` and escapes of two bytes.
pub decode_url_encoded_overruns_iff :
    (target s : Bytes) → (decode_url_encoded target s ≡ none) ↔ EndsHalf s
unfolding decode_url_encoded
decode_url_encoded_overruns_iff target s = (
  overruns_half target s,
  λ (p, d, w, f). ap (decode_url_encoded target) f ∙ half_overruns target d w,
)
