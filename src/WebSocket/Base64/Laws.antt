-- ===== src/WebSocket/Base64/Laws.antt =====
-- `Base64Encode` against the groups of RFC 4648 4.
use mini_web_srv.Base.{
  ℕ, ◌+◌, ◌-◌, ◌*◌, ◌/◌, ◌%◌, ◌^◌, ◌<◌, ◌≡◌, ◌≢◌, refl, sym, ap, ap₂, ◌∙◌, ◌⊎◌, inl, inr, true,
  ◌&&◌, [], ◌∷◌, ◌++◌, Bytes, AreBytes, arith, ◌==◌, ==_iff, codes, get_or, bit_or, bit_and,
  append_assoc, append-nil,
}
use mini_web_srv.Base.Table.{passes, passes-all}
use mini_web_srv.WebSocket.Base64.{
  bin6_to_base64, Encoder, fresh_encoder, encode_step, encode_loop, encode_end, base64_encode,
}

-- The alphabet of RFC 4648 4.
abbrev pub alphabet : Bytes
alphabet = codes "ABCDEFGHIJKLMNOPQRSTUVWXYZabcdefghijklmnopqrstuvwxyz0123456789+/"

unfoldable pub alphabet_digit : ℕ → ℕ
alphabet_digit n = get_or alphabet n 0

-- The groups of RFC 4648 4 in the digits `digit`: three bytes are four digits, and one or two bytes at
-- the end are filled up with `=`.
unfoldable pub groups : (ℕ → ℕ) → Bytes → Bytes
groups digit [] = []
groups digit (a ∷ []) = digit (a / 4) ∷ digit (a % 4 * 16) ∷ b'=' ∷ b'=' ∷ []
groups digit (a ∷ b ∷ []) =
    digit (a / 4) ∷ digit (a % 4 * 16 + b / 16) ∷ digit (b % 16 * 4) ∷ b'=' ∷ []
groups digit (a ∷ b ∷ c ∷ rest) =
    digit (a / 4)
    ∷ digit (a % 4 * 16 + b / 16)
    ∷ digit (b % 16 * 4 + c / 64)
    ∷ digit (c % 64)
    ∷ groups digit rest

alphabet_table : passes (λ n. bin6_to_base64 n == alphabet_digit n) 64 ≡ true
unfolding passes bin6_to_base64 alphabet_digit
alphabet_table = refl

bin6_to_base64-alphabet : (n : ℕ) → n < 64 → bin6_to_base64 n ≡ alphabet_digit n
bin6_to_base64-alphabet n h = (==_iff _ _).0 (passes-all _ 64 n alphabet_table h)

groups-alphabet : (bs : Bytes) → AreBytes bs → groups bin6_to_base64 bs ≡ groups alphabet_digit bs
unfolding groups
groups-alphabet [] h = refl
groups-alphabet (a ∷ []) h =
    rw
      (
        bin6_to_base64-alphabet (a / 4) (omega arith),
        bin6_to_base64-alphabet (a % 4 * 16) (omega arith),
      )
      refl
groups-alphabet (a ∷ b ∷ []) h =
    rw
      (
        bin6_to_base64-alphabet (a / 4) (omega arith),
        bin6_to_base64-alphabet (a % 4 * 16 + b / 16) (omega arith),
        bin6_to_base64-alphabet (b % 16 * 4) (omega arith),
      )
      refl
groups-alphabet (a ∷ b ∷ c ∷ rest) h =
    rw
      (
        bin6_to_base64-alphabet (a / 4) (omega arith),
        bin6_to_base64-alphabet (a % 4 * 16 + b / 16) (omega arith),
        bin6_to_base64-alphabet (b % 16 * 4 + c / 64) (omega arith),
        bin6_to_base64-alphabet (c % 64) (omega arith),
        groups-alphabet rest h.1.1.1,
      )
      refl

masks_table :
    passes
      (λ c.
        bit_and c 0x3 == c % 4
        && bit_and c 0xF == c % 16
        && bit_and c 0xF0 / 2 ^ 4 == c / 16
        && bit_and c 0xC0 / 2 ^ 6 == c / 64
        && bit_and c 0x3F == c % 64)
      256
    ≡ true
unfolding passes
masks_table = refl

masks :
    (c : ℕ)
    → c < 256
    → (bit_and c 0x3 ≡ c % 4)
      × (bit_and c 0xF ≡ c % 16)
      × (bit_and c 0xF0 / 2 ^ 4 ≡ c / 16)
      × (bit_and c 0xC0 / 2 ^ 6 ≡ c / 64)
      × (bit_and c 0x3F ≡ c % 64)
masks c h = ground (arith, passes-all _ 256 c masks_table h)

joins_table :
    passes (λ n. bit_or (n / 16 * 16) (n % 16) == n && bit_or (n / 4 * 4) (n % 4) == n) 64 ≡ true
unfolding passes
joins_table = refl

join16 : (x y : ℕ) → x < 4 → y < 16 → bit_or (x * 16) y ≡ x * 16 + y
join16 x y h k =
    let p : x * 16 ≡ (x * 16 + y) / 16 * 16 = omega arith in
    let q : y ≡ (x * 16 + y) % 16 = omega arith in
    ap₂ bit_or p q ∙ ground (arith, passes-all _ 64 (x * 16 + y) joins_table (omega arith))

join4 : (x y : ℕ) → x < 16 → y < 4 → bit_or (x * 4) y ≡ x * 4 + y
join4 x y h k =
    let p : x * 4 ≡ (x * 4 + y) / 4 * 4 = omega arith in
    let q : y ≡ (x * 4 + y) % 4 = omega arith in
    ap₂ bit_or p q ∙ ground (arith, passes-all _ 64 (x * 4 + y) joins_table (omega arith))

abbrev IsReady : Encoder → Type 0
IsReady e = (e.mod3 ≡ 2) ⊎ (e.mod3 ≡ 2 ^ 32 - 1)

step_first :
    (e : Encoder) (c : ℕ)
    → IsReady e
    → c < 256
    → encode_step e c
      ≡ record { acc = c % 4 * 16; mod3 = 0; target = e.target ++ bin6_to_base64 (c / 4) ∷ [] }
unfolding encode_step
step_first e c (inl r) h = rw (r, (masks c h).0) refl
step_first e c (inr r) h = rw (r, (masks c h).0) refl

step_second :
    (t : Bytes) (x c : ℕ)
    → x < 4
    → c < 256
    → encode_step (record { acc = x * 16; mod3 = 0; target = t }) c
      ≡ record { acc = c % 16 * 4; mod3 = 1; target = t ++ bin6_to_base64 (x * 16 + c / 16) ∷ [] }
unfolding encode_step
step_second t x c k h = rw ((masks c h).1, (masks c h).2, join16 x (c / 16) k (omega arith)) refl

step_third :
    (t : Bytes) (x c : ℕ)
    → x < 16
    → c < 256
    → encode_step (record { acc = x * 4; mod3 = 1; target = t }) c ≡ record {
      acc = x * 4 + c / 64;
      mod3 = 2;
      target = t ++ bin6_to_base64 (x * 4 + c / 64) ∷ bin6_to_base64 (c % 64) ∷ [];
    }
unfolding encode_step
step_third t x c k h = rw ((masks c h).3, (masks c h).4, join4 x (c / 64) k (omega arith)) refl

after :
    (e e' : Encoder) (c : ℕ) (cs t : Bytes)
    → encode_step e c ≡ e'
    → encode_end (encode_loop e' cs) ≡ t
    → encode_end (encode_loop e (c ∷ cs)) ≡ t
unfolding encode_loop
after e e' c cs t s k = ap (λ x. encode_end (encode_loop x cs)) s ∙ k

encode_loop-groups :
    (bs : Bytes) (e : Encoder)
    → IsReady e
    → AreBytes bs
    → (bs ≢ []) ⊎ (e.mod3 ≡ 2)
    → encode_end (encode_loop e bs) ≡ e.target ++ groups bin6_to_base64 bs
unfolding encode_loop encode_end groups
encode_loop-groups [] e r h (inl n) = absurd (n refl)
encode_loop-groups [] e r h (inr m) = rw m (sym (append-nil e.target))
encode_loop-groups (a ∷ []) e r h n =
    after e _ a [] _ (step_first e a r h.0) (append_assoc e.target (bin6_to_base64 (a / 4) ∷ []) _)
encode_loop-groups (a ∷ b ∷ []) e r h n =
    let t = e.target ++ bin6_to_base64 (a / 4) ∷ [] in
    after e _ a (b ∷ []) _ (step_first e a r h.0) (
      after _ _ b [] _ (step_second t (a % 4) b (omega arith) h.1.0)
        (append_assoc t _ _ ∙ append_assoc e.target _ _))
encode_loop-groups (a ∷ b ∷ c ∷ rest) e r h n =
    let t = e.target ++ bin6_to_base64 (a / 4) ∷ [] in
    let u = t ++ bin6_to_base64 (a % 4 * 16 + b / 16) ∷ [] in
    after e _ a (b ∷ c ∷ rest) _ (step_first e a r h.0) (
      after _ _ b (c ∷ rest) _ (step_second t (a % 4) b (omega arith) h.1.0) (
        after _ _ c rest _ (step_third u (b % 16) c (omega arith) h.1.1.0) (
          encode_loop-groups rest _ (inl refl) h.1.1.1 (inr refl)
          ∙ append_assoc u _ _
          ∙ append_assoc t _ _
          ∙ append_assoc e.target _ _)))

pub base64_encode_own_digits :
    (bs : Bytes) → AreBytes bs → bs ≢ [] → base64_encode bs ≡ groups bin6_to_base64 bs
unfolding base64_encode
base64_encode_own_digits bs h n = encode_loop-groups bs fresh_encoder (inr refl) h (inl n)

-- The encoder writes the groups of RFC 4648, in the digits of its alphabet, for every sequence of bytes
-- but the empty one.
pub base64_encode-groups :
    (bs : Bytes) → AreBytes bs → bs ≢ [] → base64_encode bs ≡ groups alphabet_digit bs
base64_encode-groups bs h n = base64_encode_own_digits bs h n ∙ groups-alphabet bs h
