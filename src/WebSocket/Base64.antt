-- ===== src/WebSocket/Base64.antt =====
-- WebSocket/WSRespSource.cpp, `Bin6ToBase64` and `Base64Encode`: the text of the handshake's answer.
pub mod Laws
pub mod Decode
use mini_web_srv.Base.{
  ℕ, ◌+◌, ◌-◌, ◌*◌, ◌/◌, ◌%◌, ◌^◌, ◌||◌, [], ◌∷◌, ◌++◌, Bytes, ltb, ◌==◌, if◌then◌else◌, bit_or,
  bit_and,
}

-- The sums are numbers of type `int`, and stay between 0 and 255.
unfoldable pub bin6_to_base64 : ℕ → ℕ
bin6_to_base64 src =
    if ltb src 26
    then b'A' + src
    else if ltb src 52
    then b'a' - 26 + src
    else if ltb src 62
    then src + b'0' - 52
    else if src == 62
    then b'+'
    else b'/'

-- `Acc`, `Mod3` and the bytes written to the target.
pub record Encoder : Type 0 where
  pub acc : ℕ
  pub mod3 : ℕ
  pub target : Bytes

-- `Mod3` starts as -1, in 32 bits.
abbrev pub fresh_encoder : Encoder
fresh_encoder = record { acc = 0; mod3 = 2 ^ 32 - 1; target = [] }

-- One byte: the body of the loop. The case of 3 goes on into the case of 0.
unfoldable pub encode_step : Encoder → ℕ → Encoder
encode_step e curr_val =
    let mod3 = (e.mod3 + 1) % 2 ^ 32 in
    if mod3 == 3 || mod3 == 0
    then record {
      acc = bit_and curr_val 0x3 * 2 ^ 4;
      mod3 = 0;
      target = e.target ++ bin6_to_base64 (curr_val / 2 ^ 2) ∷ [];
    }
    else if mod3 == 1
    then record {
      acc = bit_and curr_val 0xF * 2 ^ 2;
      mod3 = mod3;
      target = e.target ++ bin6_to_base64 (bit_or e.acc (bit_and curr_val 0xF0 / 2 ^ 4)) ∷ [];
    }
    else if mod3 == 2
    then record {
      acc = bit_or e.acc (bit_and curr_val 0xC0 / 2 ^ 6);
      mod3 = mod3;
      target =
          e.target
          ++ bin6_to_base64 (bit_or e.acc (bit_and curr_val 0xC0 / 2 ^ 6))
            ∷ bin6_to_base64 (bit_and curr_val 0x3F)
            ∷ [];
    }
    else record e { mod3 = mod3 }

unfoldable pub encode_loop : Encoder → Bytes → Encoder
encode_loop e [] = e
encode_loop e (c ∷ cs) = encode_loop (encode_step e c) cs

-- Behind the loop: the bits that are left, and the padding.
unfoldable pub encode_end : Encoder → Bytes
encode_end e =
    if e.mod3 == 2
    then e.target
    else if e.mod3 == 0
    then e.target ++ bin6_to_base64 e.acc ∷ b'=' ∷ b'=' ∷ []
    else e.target ++ bin6_to_base64 e.acc ∷ b'=' ∷ []

unfoldable pub base64_encode : Bytes → Bytes
base64_encode src = encode_end (encode_loop fresh_encoder src)
