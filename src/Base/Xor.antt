-- ===== src/Base/Xor.antt =====
-- Laws of the native exclusive or: it works digit by digit, at every width.
use Prim.Native.Nat.{
  ℕ, zero, suc, ◌+◌, ◌*◌, ◌/◌, ◌%◌, ◌^◌, ◌≤◌, ◌<◌, bit_xor, digits, differ, bit_xor-bitwise,
}
use mathlib.Core.Path.{◌≡◌, refl, sym, ap, ap₂, ◌∙◌}
use native.Mathlib.Omega.{arith}
use native.Mathlib.Nat.{pow-suc}

abbrev xor_digits : ℕ → ℕ → ℕ → ℕ
xor_digits = digits (λ y. y) differ

-- Any count of digits that reaches past the first number gives the same result.
xor_digits_enough : (k j a b : ℕ) → a ≤ k → a ≤ j → xor_digits k a b ≡ xor_digits j a b
xor_digits_enough zero zero a b h h' = refl
xor_digits_enough zero (suc j) zero b h h' = refl
xor_digits_enough (suc k) zero zero b h h' = refl
xor_digits_enough (suc k) (suc j) zero b h h' = refl
xor_digits_enough zero (suc j) (suc a) b h h' = absurd (omega arith)
xor_digits_enough (suc k) zero (suc a) b h h' = absurd (omega arith)
xor_digits_enough (suc k) (suc j) (suc a) b h h' =
    let half = suc a / 2 in
    ap (λ r. r * 2 + differ (suc a % 2) (b % 2))
      (xor_digits_enough k j half (b / 2) (omega arith) (omega arith))

pub bit_xor_digit : (a b : ℕ) → bit_xor a b ≡ bit_xor (a / 2) (b / 2) * 2 + differ (a % 2) (b % 2)
bit_xor_digit zero b = omega (arith, bit_xor-bitwise 0 b, bit_xor-bitwise 0 (b / 2))
bit_xor_digit (suc a) b =
    bit_xor-bitwise (suc a) b
    ∙ ap (λ r. r * 2 + differ (suc a % 2) (b % 2))
        (xor_digits_enough a (suc a / 2) (suc a / 2) (b / 2) (omega arith) (omega arith)
          ∙ sym (bit_xor-bitwise (suc a / 2) (b / 2)))

differ_digits : (x y : ℕ) → x < 2 → y < 2 → (differ x y < 2) × (differ (differ x y) y ≡ x)
differ_digits zero zero h k = omega arith
differ_digits zero (suc zero) h k = omega arith
differ_digits (suc zero) zero h k = omega arith
differ_digits (suc zero) (suc zero) h k = omega arith
differ_digits (suc (suc x)) y h k = absurd (omega arith)
differ_digits zero (suc (suc y)) h k = absurd (omega arith)
differ_digits (suc zero) (suc (suc y)) h k = absurd (omega arith)

-- The low `n` digits and the others do not meet.
pub bit_xor_fields :
    (n a b c d : ℕ)
    → a < 2 ^ n
    → c < 2 ^ n
    → bit_xor (a + 2 ^ n * b) (c + 2 ^ n * d) ≡ bit_xor a c + 2 ^ n * bit_xor b d
bit_xor_fields zero zero b zero d h k =
    let eb : 0 + 2 ^ 0 * b ≡ b = omega arith in
    let ed : 0 + 2 ^ 0 * d ≡ d = omega arith in ap₂ bit_xor eb ed ∙ omega arith
bit_xor_fields zero (suc a) b c d h k = absurd (omega (arith, h))
bit_xor_fields zero zero b (suc c) d h k = absurd (omega (arith, k))
bit_xor_fields (suc n) a b c d h k =
    let p = pow-suc 2 n in
    let pb = ap (λ (t : ℕ). t * b) p in
    let pd = ap (λ (t : ℕ). t * d) p in
    let x = a + 2 ^ suc n * b in
    let y = c + 2 ^ suc n * d in
    let ex : x / 2 ≡ a / 2 + 2 ^ n * b = omega (arith, p, pb) in
    let ey : y / 2 ≡ c / 2 + 2 ^ n * d = omega (arith, p, pd) in
    let dx : x % 2 ≡ a % 2 = omega (arith, p, pb) in
    let dy : y % 2 ≡ c % 2 = omega (arith, p, pd) in
    let ih = bit_xor_fields n (a / 2) b (c / 2) d (omega (arith, p)) (omega (arith, p)) in
    let high = ap₂ bit_xor ex ey ∙ ih in
    let low = ap₂ differ dx dy in
    omega
      (arith, bit_xor_digit x y, bit_xor_digit a c, high, low, ap (λ (t : ℕ). t * bit_xor b d) p)

pub bit_xor-lt : (n a b : ℕ) → a < 2 ^ n → b < 2 ^ n → bit_xor a b < 2 ^ n
bit_xor-lt zero zero zero h k = omega arith
bit_xor-lt zero (suc a) b h k = absurd (omega (arith, h))
bit_xor-lt zero zero (suc b) h k = absurd (omega (arith, k))
bit_xor-lt (suc n) a b h k =
    let p = pow-suc 2 n in
    omega (
      arith,
      p,
      bit_xor_digit a b,
      (differ_digits (a % 2) (b % 2) (omega arith) (omega arith)).0,
      bit_xor-lt n (a / 2) (b / 2) (omega (arith, p)) (omega (arith, p)),
    )

-- The same key again restores the number.
pub bit_xor_twice : (n a k : ℕ) → a < 2 ^ n → k < 2 ^ n → bit_xor (bit_xor a k) k ≡ a
bit_xor_twice zero zero zero h j = refl
bit_xor_twice zero (suc a) k h j = absurd (omega (arith, h))
bit_xor_twice zero zero (suc k) h j = absurd (omega (arith, j))
bit_xor_twice (suc n) a k h j =
    let p = pow-suc 2 n in
    let digits_ok = differ_digits (a % 2) (k % 2) (omega arith) (omega arith) in
    let step = bit_xor_digit a k in
    let half : bit_xor a k / 2 ≡ bit_xor (a / 2) (k / 2) = omega (arith, step, digits_ok.0) in
    let digit : bit_xor a k % 2 ≡ differ (a % 2) (k % 2) = omega (arith, step, digits_ok.0) in
    let ih = bit_xor_twice n (a / 2) (k / 2) (omega (arith, p)) (omega (arith, p)) in
    omega (
      arith,
      bit_xor_digit (bit_xor a k) k,
      ap (λ x. bit_xor x (k / 2)) half ∙ ih,
      ap (λ x. differ x (k % 2)) digit ∙ digits_ok.1,
    )
