-- ===== src/Http/Compare.antt =====
-- Connection.cpp, `CompareLowercaseSimple`: a header's value against a text in lower case. Strings are
-- the bytes in front of their zero, which is no byte of the other string.
use mini_web_srv.Base.{
  ◌≡◌, ◌↔◌, refl, Bool, true, false, [], ◌∷◌, Bytes, map, ◌==◌, if◌then◌else◌, arith,
}
use mini_web_srv.Query.Params.{str_eq, str_eq_iff}
use mini_web_srv.Http.HeaderLine.{to_lower}

unfoldable pub compare_lowercase_simple : Bytes → Bytes → Bool
compare_lowercase_simple [] [] = true
compare_lowercase_simple [] (l ∷ ls) = false
compare_lowercase_simple (t ∷ ts) [] = false
compare_lowercase_simple (t ∷ ts) (l ∷ ls) =
    let rest = compare_lowercase_simple ts ls in if to_lower t == l then rest else false

compare-str_eq :
    (test lower : Bytes) → compare_lowercase_simple test lower ≡ str_eq (map to_lower test) lower
unfolding compare_lowercase_simple str_eq
compare-str_eq [] [] = refl
compare-str_eq [] (l ∷ ls) = refl
compare-str_eq (t ∷ ts) [] = refl
compare-str_eq (t ∷ ts) (l ∷ ls) = ground (arith, compare-str_eq ts ls)

-- Two texts compare as equal exactly if the first, in lower case, is the second.
pub compare_lowercase_simple_iff :
    (test lower : Bytes)
    → (compare_lowercase_simple test lower ≡ true) ↔ (map to_lower test ≡ lower)
compare_lowercase_simple_iff test lower =
    rw (compare-str_eq test lower) (str_eq_iff (map to_lower test) lower)
