-- ===== src/WebSocket/Mask.antt =====
-- WebSocket/WSConnection.cpp, `ProcessFrame`: the payload is unmasked in place, a machine word at a
-- time while more than four bytes are left, and then byte by byte with the key shifted down.
-- Words are little-endian, as on the machines that the code is built for.
pub mod Laws
use mini_web_srv.Base.{
  ℕ, ◌+◌, ◌*◌, ◌/◌, ◌%◌, ◌^◌, List, [], ◌∷◌, ◌++◌, Bytes, bit_xor, leb, if◌then◌else◌, length,
}

-- `*(unsigned int *)p`, and the bytes that a store of a word writes.
abbrev pub load32 : ℕ → ℕ → ℕ → ℕ → ℕ
load32 b0 b1 b2 b3 = b0 + 2 ^ 8 * (b1 + 2 ^ 8 * (b2 + 2 ^ 8 * b3))

abbrev pub store32 : ℕ → Bytes
store32 w = w % 2 ^ 8 ∷ w / 2 ^ 8 % 2 ^ 8 ∷ w / 2 ^ 16 % 2 ^ 8 ∷ w / 2 ^ 24 % 2 ^ 8 ∷ []

-- The last loop: `*ProcessPos ^ (MaskKey & 0xFF)`, then `MaskKey >>= 8`.
unfoldable pub unmask_bytes : ℕ → Bytes → Bytes
unmask_bytes key [] = []
unmask_bytes key (b ∷ bs) = bit_xor b (key % 2 ^ 8) ∷ unmask_bytes (key / 2 ^ 8) bs

-- The loop over words runs while the next position lies before the end.
unfoldable pub unmask_words : ℕ → Bytes → Bytes
unfolding unmask_bytes
unmask_words key (b0 ∷ b1 ∷ b2 ∷ b3 ∷ b4 ∷ bs) =
    store32 (bit_xor (load32 b0 b1 b2 b3) key) ++ unmask_words key (b4 ∷ bs)
unmask_words key bs = unmask_bytes key bs

unfoldable pub unmask : ℕ → Bytes → Bytes
unfolding unmask_words unmask_bytes
unmask key payload =
    if leb 4 (length payload) then unmask_words key payload else unmask_bytes key payload
