-- ===== src/Strings/Compare.antt =====
-- The order that `CmpI` decides.
use mini_web_srv.Base.{ℕ, ◌≡◌, ◌↔◌, [], ◌∷◌, Bytes, AreBytes, ◌<◌, map, arith}
use mini_web_srv.Http.HeaderLine.{to_lower}
use mini_web_srv.Strings.{same, cmp_i}

lower_byte : (c : ℕ) → c < 256 → to_lower c < 256
unfolding to_lower
lower_byte c h = ground arith

-- Two texts of bytes compare as the same exactly if they are equal in lower case.
pub cmp_i-same :
    (xs ys : Bytes)
    → AreBytes xs
    → AreBytes ys
    → (cmp_i xs ys ≡ same) ↔ (map to_lower xs ≡ map to_lower ys)
unfolding cmp_i
cmp_i-same [] [] h k = ground arith
cmp_i-same [] (y ∷ ys) h k = ground arith
cmp_i-same (x ∷ xs) [] h k = ground arith
cmp_i-same (x ∷ xs) (y ∷ ys) h k =
    ground (arith, cmp_i-same xs ys h.1 k.1, lower_byte x h.0, lower_byte y k.0)
