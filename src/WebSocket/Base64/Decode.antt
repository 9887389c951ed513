-- ===== src/WebSocket/Base64/Decode.antt =====
-- The text of `Base64Encode`, read back.
use mini_web_srv.Base.{
  leb, ℕ, ◌+◌, ◌-◌, ◌*◌, ◌/◌, ◌%◌, ◌<◌, ◌≡◌, ◌≢◌, refl, ap, ap₂, ◌∙◌, true, false, not, ◌&&◌, [],
  ◌∷◌, Bytes, AreBytes, arith, leb, ◌==◌, if◌then◌else◌,
}
use mini_web_srv.Base.Table.{passes, passes-all}
use mini_web_srv.WebSocket.Base64.{bin6_to_base64, base64_encode}
use mini_web_srv.WebSocket.Base64.Laws.{groups, base64_encode_own_digits}

-- The value of a digit.
unfoldable pub base64_value : ℕ → ℕ
base64_value d =
    if leb b'a' d
    then d - b'a' + 26
    else if leb b'A' d
    then d - b'A'
    else if leb b'0' d
    then d - b'0' + 52
    else if d == b'+'
    then 62
    else 63

-- The bytes of a text: four digits give three bytes, fewer with padding.
unfoldable pub base64_decode : Bytes → Bytes
base64_decode (w ∷ x ∷ y ∷ z ∷ rest) =
    let bytes = base64_decode rest in
    let first = base64_value w * 4 + base64_value x / 16 in
    let second = base64_value x % 16 * 16 + base64_value y / 4 in
    if y == b'='
    then first ∷ []
    else if z == b'='
    then first ∷ second ∷ []
    else first ∷ second ∷ (base64_value y % 4 * 64 + base64_value z) ∷ bytes
base64_decode _ = []

digits_table :
    passes (λ n. base64_value (bin6_to_base64 n) == n && not (bin6_to_base64 n == b'=')) 64 ≡ true
unfolding passes base64_value bin6_to_base64
digits_table = refl

digits :
    (n : ℕ) → n < 64 → (base64_value (bin6_to_base64 n) ≡ n) × ((bin6_to_base64 n == b'=') ≡ false)
digits n h = ground (arith, passes-all _ 64 n digits_table h)

base64_decode-groups : (bs : Bytes) → AreBytes bs → base64_decode (groups bin6_to_base64 bs) ≡ bs
unfolding base64_decode groups
base64_decode-groups [] h = refl
base64_decode-groups (a ∷ []) h =
    rw ((digits (a / 4) (omega arith)).0, (digits (a % 4 * 16) (omega arith)).0)
      (ap (λ n. n ∷ []) (omega arith))
base64_decode-groups (a ∷ b ∷ []) h =
    rw
      (
        (digits (b % 16 * 4) (omega arith)).1,
        (digits (a / 4) (omega arith)).0,
        (digits (a % 4 * 16 + b / 16) (omega arith)).0,
        (digits (b % 16 * 4) (omega arith)).0,
      )
      (ap₂ ◌∷◌ (omega arith) (ap (λ n. n ∷ []) (omega arith)))
base64_decode-groups (a ∷ b ∷ c ∷ rest) h =
    rw
      (
        (digits (b % 16 * 4 + c / 64) (omega arith)).1,
        (digits (c % 64) (omega arith)).1,
        (digits (a / 4) (omega arith)).0,
        (digits (a % 4 * 16 + b / 16) (omega arith)).0,
        (digits (b % 16 * 4 + c / 64) (omega arith)).0,
        (digits (c % 64) (omega arith)).0,
      )
      (ap₂ ◌∷◌ (omega arith)
        (ap₂ ◌∷◌ (omega arith) (ap₂ ◌∷◌ (omega arith) (base64_decode-groups rest h.1.1.1))))

-- A text that the encoder writes decodes to the bytes it was given, if there are any.
pub base64_decode-base64_encode :
    (bs : Bytes) → AreBytes bs → bs ≢ [] → base64_decode (base64_encode bs) ≡ bs
base64_decode-base64_encode bs h n =
    ap base64_decode (base64_encode_own_digits bs h n) ∙ base64_decode-groups bs h
