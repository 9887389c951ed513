-- ===== src/WebSocket/Mask/Laws.antt =====
-- The loops agree with masking as RFC 6455 5.3 defines it: octet i is combined with key octet i mod 4.
use mini_web_srv.Base.{
  ℕ, suc, ◌+◌, ◌*◌, ◌/◌, ◌%◌, ◌^◌, ◌<◌, ◌≡◌, refl, ap, ap₂, ◌∙◌, [], ◌∷◌, ◌++◌, Bytes, AreBytes,
  bit_xor, arith, leb, Bool-cases, inl, inr, length,
}
use mini_web_srv.Base.Xor.{bit_xor_fields, bit_xor-lt, bit_xor_twice}
use mini_web_srv.WebSocket.Mask.{load32, store32, unmask_bytes, unmask_words, unmask}

-- The four octets of the key in turn.
unfoldable pub mask_with : ℕ → ℕ → ℕ → ℕ → Bytes → Bytes
mask_with k0 k1 k2 k3 [] = []
mask_with k0 k1 k2 k3 (b ∷ bs) = bit_xor b k0 ∷ mask_with k1 k2 k3 k0 bs

-- A word's exclusive or is that of its octets.
store32-bit_xor :
    (b0 b1 b2 b3 k0 k1 k2 k3 : ℕ)
    → AreBytes (b0 ∷ b1 ∷ b2 ∷ b3 ∷ k0 ∷ k1 ∷ k2 ∷ k3 ∷ [])
    → store32 (bit_xor (load32 b0 b1 b2 b3) (load32 k0 k1 k2 k3))
      ≡ bit_xor b0 k0 ∷ bit_xor b1 k1 ∷ bit_xor b2 k2 ∷ bit_xor b3 k3 ∷ []
store32-bit_xor b0 b1 b2 b3 k0 k1 k2 k3 h =
    let f0 =
      bit_xor_fields 8 b0 (b1 + 2 ^ 8 * (b2 + 2 ^ 8 * b3)) k0 (k1 + 2 ^ 8 * (k2 + 2 ^ 8 * k3))
        (omega arith) (omega arith) in
    let f1 =
      bit_xor_fields 8 b1 (b2 + 2 ^ 8 * b3) k1 (k2 + 2 ^ 8 * k3) (omega arith) (omega arith) in
    let f2 = bit_xor_fields 8 b2 b3 k2 k3 (omega arith) (omega arith) in
    let l0 = bit_xor-lt 8 b0 k0 (omega arith) (omega arith) in
    let l1 = bit_xor-lt 8 b1 k1 (omega arith) (omega arith) in
    let l2 = bit_xor-lt 8 b2 k2 (omega arith) (omega arith) in
    let l3 = bit_xor-lt 8 b3 k3 (omega arith) (omega arith) in
    ground (arith, f0, f1, f2, l0, l1, l2, l3)

key_octets :
    (k0 k1 k2 k3 : ℕ)
    → AreBytes (k0 ∷ k1 ∷ k2 ∷ k3 ∷ [])
    → (load32 k0 k1 k2 k3 % 2 ^ 8 ≡ k0)
      × (load32 k0 k1 k2 k3 / 2 ^ 8 % 2 ^ 8 ≡ k1)
      × (load32 k0 k1 k2 k3 / 2 ^ 8 / 2 ^ 8 % 2 ^ 8 ≡ k2)
      × (load32 k0 k1 k2 k3 / 2 ^ 8 / 2 ^ 8 / 2 ^ 8 % 2 ^ 8 ≡ k3)
key_octets k0 k1 k2 k3 h = omega arith

unmask_bytes-mask_with :
    (k0 k1 k2 k3 : ℕ) (bs : Bytes)
    → AreBytes (k0 ∷ k1 ∷ k2 ∷ k3 ∷ [])
    → length bs < 5
    → unmask_bytes (load32 k0 k1 k2 k3) bs ≡ mask_with k0 k1 k2 k3 bs
unfolding unmask_bytes mask_with
unmask_bytes-mask_with k0 k1 k2 k3 [] h len = refl
unmask_bytes-mask_with k0 k1 k2 k3 (b0 ∷ []) h len = ground (arith, key_octets k0 k1 k2 k3 h)
unmask_bytes-mask_with k0 k1 k2 k3 (b0 ∷ b1 ∷ []) h len = ground (arith, key_octets k0 k1 k2 k3 h)
unmask_bytes-mask_with k0 k1 k2 k3 (b0 ∷ b1 ∷ b2 ∷ []) h len =
    ground (arith, key_octets k0 k1 k2 k3 h)
unmask_bytes-mask_with k0 k1 k2 k3 (b0 ∷ b1 ∷ b2 ∷ b3 ∷ []) h len =
    ground (arith, key_octets k0 k1 k2 k3 h)
unmask_bytes-mask_with k0 k1 k2 k3 (b0 ∷ b1 ∷ b2 ∷ b3 ∷ b4 ∷ bs) h len = absurd (omega arith)

unmask_words-mask_with :
    (k0 k1 k2 k3 : ℕ) (bs : Bytes)
    → AreBytes (k0 ∷ k1 ∷ k2 ∷ k3 ∷ [])
    → AreBytes bs
    → unmask_words (load32 k0 k1 k2 k3) bs ≡ mask_with k0 k1 k2 k3 bs
unfolding unmask_words mask_with
unmask_words-mask_with k0 k1 k2 k3 (b0 ∷ b1 ∷ b2 ∷ b3 ∷ b4 ∷ bs) h hb =
    ap₂ (◌++◌) (store32-bit_xor b0 b1 b2 b3 k0 k1 k2 k3 (omega arith))
      (unmask_words-mask_with k0 k1 k2 k3 (b4 ∷ bs) h hb.1.1.1.1)
unmask_words-mask_with k0 k1 k2 k3 bs h hb = unmask_bytes-mask_with k0 k1 k2 k3 bs h (omega arith)

-- For octets, unmasking by the word and byte loops is unmasking octet i by key octet i mod 4.
pub unmask-mask_with :
    (k0 k1 k2 k3 : ℕ) (bs : Bytes)
    → AreBytes (k0 ∷ k1 ∷ k2 ∷ k3 ∷ [])
    → AreBytes bs
    → unmask (load32 k0 k1 k2 k3) bs ≡ mask_with k0 k1 k2 k3 bs
unfolding unmask
unmask-mask_with k0 k1 k2 k3 bs h hb = elim (Bool-cases (leb 4 (length bs))) [
  | inl long ↦ rw long (unmask_words-mask_with k0 k1 k2 k3 bs h hb)
  | inr short ↦ rw short (unmask_bytes-mask_with k0 k1 k2 k3 bs h (ground arith))
]

mask_with-AreBytes :
    (k0 k1 k2 k3 : ℕ) (bs : Bytes)
    → AreBytes (k0 ∷ k1 ∷ k2 ∷ k3 ∷ [])
    → AreBytes bs
    → AreBytes (mask_with k0 k1 k2 k3 bs)
unfolding mask_with
mask_with-AreBytes k0 k1 k2 k3 [] h hb = tt
mask_with-AreBytes k0 k1 k2 k3 (b ∷ bs) h hb =
    (bit_xor-lt 8 b k0 hb.0 h.0, mask_with-AreBytes k1 k2 k3 k0 bs (omega arith) hb.1)

mask_with_twice :
    (k0 k1 k2 k3 : ℕ) (bs : Bytes)
    → AreBytes (k0 ∷ k1 ∷ k2 ∷ k3 ∷ [])
    → AreBytes bs
    → mask_with k0 k1 k2 k3 (mask_with k0 k1 k2 k3 bs) ≡ bs
unfolding mask_with
mask_with_twice k0 k1 k2 k3 [] h hb = refl
mask_with_twice k0 k1 k2 k3 (b ∷ bs) h hb =
    ap₂ (◌∷◌) (bit_xor_twice 8 b k0 hb.0 h.0) (mask_with_twice k1 k2 k3 k0 bs (omega arith) hb.1)

pub length-mask_with :
    (k0 k1 k2 k3 : ℕ) (bs : Bytes) → length (mask_with k0 k1 k2 k3 bs) ≡ length bs
unfolding mask_with
length-mask_with k0 k1 k2 k3 [] = refl
length-mask_with k0 k1 k2 k3 (b ∷ bs) = ap suc (length-mask_with k1 k2 k3 k0 bs)

-- Masking twice by one key restores the payload.
pub unmask_twice :
    (k0 k1 k2 k3 : ℕ) (bs : Bytes)
    → AreBytes (k0 ∷ k1 ∷ k2 ∷ k3 ∷ [])
    → AreBytes bs
    → unmask (load32 k0 k1 k2 k3) (mask_with k0 k1 k2 k3 bs) ≡ bs
unmask_twice k0 k1 k2 k3 bs h hb =
    unmask-mask_with k0 k1 k2 k3 _ h (mask_with-AreBytes k0 k1 k2 k3 bs h hb)
    ∙ mask_with_twice k0 k1 k2 k3 bs h hb
