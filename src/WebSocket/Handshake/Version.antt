-- ===== src/WebSocket/Handshake/Version.antt =====
-- The texts that `atoi` reads as 13.
use mini_web_srv.Base.{
  ℕ, ◌+◌, ◌-◌, ◌*◌, ◌≤◌, ◌≡◌, ◌↔◌, ◌⊎◌, refl, sym, ap, ap₂, ◌∙◌, Bool, true, false, ◌&&◌, ◌||◌, [],
  ◌∷◌, ◌++◌, Bytes, arith, leb, ◌==◌, ==_iff, Bool-cases, inl, inr, codes,
}
use mini_web_srv.WebSocket.Handshake.{is_white, skip_white, digits_value, atoi, is_version_13}

abbrev is_digit : ℕ → Bool
is_digit c = leb b'0' c && leb c b'9'

abbrev pub starts_digit : Bytes → Bool
starts_digit [] = false
starts_digit (c ∷ cs) = is_digit c

abbrev pub All : (ℕ → Bool) → Bytes → Type 0
All p [] = Unit {0}
All p (c ∷ cs) = (p c ≡ true) × All p cs

-- Zeros, the digits 13, and no digit behind them.
abbrev pub IsThirteen : Bytes → Type 0
IsThirteen x =
    (zeros : Bytes) × (rest : Bytes) × All (λ c. c == b'0') zeros
    × (starts_digit rest ≡ false)
    × (x ≡ zeros ++ (codes "13" ++ rest))

-- White space, at most one `+`, and 13.
abbrev pub ReadsAs13 : Bytes → Type 0
ReadsAs13 text =
    (white : Bytes) × (sign : Bytes) × (x : Bytes) × All (λ c. c == b' ' || (leb 9 c && leb c 13))
      white
    × ((sign ≡ []) ⊎ (sign ≡ codes "+"))
    × IsThirteen x
    × (text ≡ white ++ (sign ++ x))

digits_value_grows : (n : ℕ) (cs : Bytes) → n ≤ digits_value n cs
unfolding digits_value
digits_value_grows n [] = omega arith
digits_value_grows n (c ∷ cs) = ground (arith, digits_value_grows (n * 10 + (c - b'0')) cs)

digits_value_more : (n : ℕ) (cs : Bytes) → starts_digit cs ≡ true → n * 10 ≤ digits_value n cs
unfolding digits_value
digits_value_more n [] h = absurd (ground (arith, h))
digits_value_more n (c ∷ cs) h = ground (arith, h, digits_value_grows (n * 10 + (c - b'0')) cs)

digits_value_stops : (n : ℕ) (cs : Bytes) → starts_digit cs ≡ false → digits_value n cs ≡ n
unfolding digits_value
digits_value_stops n [] h = refl
digits_value_stops n (c ∷ cs) h = ground (arith, h)

digits_value-cons :
    (n c : ℕ) (cs : Bytes)
    → is_digit c ≡ true
    → digits_value n (c ∷ cs) ≡ digits_value (n * 10 + (c - b'0')) cs
unfolding digits_value
digits_value-cons n c cs h = ground (arith, h)

-- Behind the digit 1.
three :
    (cs : Bytes)
    → digits_value 1 cs ≡ 13
    → (rest : Bytes) × (starts_digit rest ≡ false) × (cs ≡ b'3' ∷ rest)
unfolding digits_value
three [] e = absurd (ground (arith, e))
three (c ∷ cs) e = elim (Bool-cases (is_digit c)) [
  | inl d ↦
      let k = digits_value-cons 1 c cs d in
      elim (Bool-cases (starts_digit cs)) [
        | inl s ↦ absurd (ground (arith, e, k, d, digits_value_more (10 + (c - b'0')) cs s))
        | inr s ↦
            let v = digits_value_stops (10 + (c - b'0')) cs s in
            let q : c ≡ b'3' = ground (arith, e, k, d, v) in (cs, s, ap (λ x. x ∷ cs) q)
      ]
  | inr d ↦ absurd (ground (arith, e, d))
]

thirteen : (cs : Bytes) → digits_value 0 cs ≡ 13 → IsThirteen cs
unfolding digits_value
thirteen [] e = absurd (ground (arith, e))
thirteen (c ∷ cs) e = elim (Bool-cases (is_digit c)) [
  | inl d ↦
      let k = digits_value-cons 0 c cs d in
      elim (Bool-cases (c == b'0')) [
        | inl z ↦
            let (zeros, rest, a, s, q) = thirteen cs (ground (arith, e, k, z)) in
            (c ∷ zeros, rest, (z, a), s, ap (◌∷◌ c) q)
        | inr z ↦ elim (Bool-cases (c == b'1')) [
          | inl o ↦
              let one : c ≡ b'1' = (==_iff c b'1').0 o in
              let v : digits_value 1 cs ≡ 13 =
                ap (λ x. digits_value (0 * 10 + (x - b'0')) cs) (sym one) ∙ sym k ∙ e in
              let (rest, s, q) = three cs v in ([], rest, tt, s, ap₂ ◌∷◌ one q)
          | inr o ↦ elim (Bool-cases (starts_digit cs)) [
            | inl s ↦ absurd (ground (arith, e, k, d, z, o, digits_value_more (c - b'0') cs s))
            | inr s ↦ absurd (ground (arith, e, k, d, z, o, digits_value_stops (c - b'0') cs s))
          ]
        ]
      ]
  | inr d ↦ absurd (ground (arith, e, d))
]

digits_value-thirteen : (cs : Bytes) → IsThirteen cs → digits_value 0 cs ≡ 13
unfolding digits_value
digits_value-thirteen cs ([], rest, a, s, q) = ap (digits_value 0) q ∙ digits_value_stops 13 rest s
digits_value-thirteen cs (c ∷ zeros, rest, (z, a), s, q) =
    let zero_first : c ≡ b'0' = (==_iff c b'0').0 z in
    ap (digits_value 0) (q ∙ ap (λ x. x ∷ (zeros ++ (codes "13" ++ rest))) zero_first)
    ∙ digits_value-thirteen (zeros ++ (codes "13" ++ rest)) (zeros, rest, a, s, refl)

skipped : (text : Bytes) → (white : Bytes) × All is_white white × (text ≡ white ++ skip_white text)
unfolding skip_white
skipped [] = ([], tt, refl)
skipped (c ∷ cs) = elim (Bool-cases (is_white c)) [
  | inl w ↦ let (white, a, q) = skipped cs in (c ∷ white, (w, a), rw w (ap (◌∷◌ c) q))
  | inr w ↦ ([], tt, rw w refl)
]

abbrev starts_white : Bytes → Bool
starts_white [] = false
starts_white (c ∷ cs) = is_white c

skip_white-append :
    (white x : Bytes) → All is_white white → starts_white x ≡ false → skip_white (white ++ x) ≡ x
unfolding skip_white
skip_white-append [] [] a s = refl
skip_white-append [] (c ∷ x) a s = rw s refl
skip_white-append (c ∷ white) x (w, a) s = rw w (skip_white-append white x a s)

-- `is_version_13` behind the white space.
signed :
    (text x : Bytes)
    → skip_white text ≡ x
    → is_version_13 text ≡ true
    → (sign : Bytes) × (y : Bytes) × ((sign ≡ []) ⊎ (sign ≡ codes "+"))
      × IsThirteen y
      × (x ≡ sign ++ y)
unfolding atoi
signed text [] e h = absurd (ground (arith, e, h))
signed text (c ∷ cs) e h = elim (Bool-cases (c == b'-')) [
  | inl m ↦ absurd (ground (arith, e, h, m))
  | inr m ↦ elim (Bool-cases (c == b'+')) [
    | inl p ↦
        let plus : c ≡ b'+' = (==_iff c b'+').0 p in
        (codes "+", cs, inr refl, thirteen cs (ground (arith, e, h, m, p)), ap (λ y. y ∷ cs) plus)
    | inr p ↦ ([], c ∷ cs, inl refl, thirteen (c ∷ cs) (ground (arith, e, h, m, p)), refl)
  ]
]

-- What `IsThirteen` starts with.
first_digit :
    (x : Bytes) → IsThirteen x → (c : ℕ) × (cs : Bytes) × (is_digit c ≡ true) × (x ≡ c ∷ cs)
first_digit x ([], rest, a, s, q) = (b'1', b'3' ∷ rest, refl, q)
first_digit x (c ∷ zeros, rest, (z, a), s, q) =
    (c, zeros ++ (codes "13" ++ rest), ground (arith, z), q)

signed_13 :
    (sign x : Bytes)
    → (sign ≡ []) ⊎ (sign ≡ codes "+")
    → IsThirteen x
    → (text : Bytes) → skip_white text ≡ sign ++ x
    → is_version_13 text ≡ true
unfolding atoi
signed_13 sign x (inr p) t text e =
    let v = digits_value-thirteen x t in
    let f : skip_white text ≡ b'+' ∷ x = e ∙ ap (λ y. y ++ x) p in
    rw (is_version_13, atoi, f, v) refl
signed_13 sign x (inl p) t text e =
    let v = digits_value-thirteen x t in
    let (c, cs, d, q) = first_digit x t in
    let f : skip_white text ≡ c ∷ cs = e ∙ ap (λ y. y ++ x) p ∙ q in
    let w : digits_value 0 (c ∷ cs) ≡ 13 = ap (digits_value 0) (sym q) ∙ v in
    let m : (c == b'-') ≡ false = ground (arith, d) in
    let n : (c == b'+') ≡ false = ground (arith, d) in rw (is_version_13, atoi, f, m, n, w) refl

starts_white-signed :
    (sign x : Bytes)
    → (sign ≡ []) ⊎ (sign ≡ codes "+")
    → IsThirteen x
    → starts_white (sign ++ x) ≡ false
starts_white-signed sign x (inr p) t = ap (λ y. starts_white (y ++ x)) p
starts_white-signed sign x (inl p) t =
    let (c, cs, d, q) = first_digit x t in
    let w : is_white c ≡ false = ground (arith, d) in
    ap (λ y. starts_white (y ++ x)) p ∙ ap starts_white q ∙ w

pub is_version_13_iff : (text : Bytes) → (is_version_13 text ≡ true) ↔ ReadsAs13 text
unfolding atoi
is_version_13_iff text = (
  λ h.
      let (white, a, q) = skipped text in
      let (sign, x, p, t, e) = signed text (skip_white text) refl h in
      (white, sign, x, a, p, t, q ∙ ap (λ y. white ++ y) e),
  λ (white, sign, x, a, p, t, q).
      signed_13 sign x p t text
        (ap skip_white q ∙ skip_white-append white (sign ++ x) a (starts_white-signed sign x p t)),
)
