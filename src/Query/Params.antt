-- ===== src/Query/Params.antt =====
-- QueryParams.h, `ParamMapType`: the parameters by name, as an association list. The order in which
-- `std::map` keeps its keys is not observed.
use mini_web_srv.Base.{
  ◌≡◌, ◌↔◌, refl, Bool, true, false, ◌&&◌, Option, none, some, List, [], ◌∷◌, Bytes, arith, ◌==◌,
  if◌then◌else◌, Bool-cases, inl, inr,
}

-- `operator==` of `std::string`.
unfoldable pub str_eq : Bytes → Bytes → Bool
str_eq [] [] = true
str_eq (x ∷ xs) (y ∷ ys) = x == y && str_eq xs ys
str_eq _ _ = false

pub str_eq_iff : (xs ys : Bytes) → (str_eq xs ys ≡ true) ↔ (xs ≡ ys)
unfolding str_eq
str_eq_iff (x ∷ xs) (y ∷ ys) = ground (arith, str_eq_iff xs ys)
str_eq_iff [] _ = ground arith
str_eq_iff (x ∷ xs) _ = ground arith

pub str_eq_self : (xs : Bytes) → str_eq xs xs ≡ true
str_eq_self xs = (str_eq_iff xs xs).1 refl

abbrev pub ParamMap : Type 0
ParamMap = List (Bytes × Bytes)

-- `GetPtr`, and `Get` without its exception.
unfoldable pub get_ptr : Bytes → ParamMap → Option Bytes
get_ptr k [] = none
get_ptr k ((j, v) ∷ m) = if str_eq j k then some v else get_ptr k m

-- `Get` with a default.
unfoldable pub get_default : Bytes → ParamMap → Bytes → Bytes
unfolding get_ptr
get_default k m d = elim (get_ptr k m) [ none ↦ d | some v ↦ v ]

-- `ParamMap[k]=v`.
unfoldable pub put : Bytes → Bytes → ParamMap → ParamMap
put k v [] = (k, v) ∷ []
put k v ((j, w) ∷ m) = if str_eq j k then (j, v) ∷ m else (j, w) ∷ put k v m

pub get_ptr-put :
    (k j v : Bytes) (m : ParamMap)
    → get_ptr j (put k v m) ≡ (if str_eq k j then some v else get_ptr j m)
unfolding get_ptr put
get_ptr-put k j v [] = refl
get_ptr-put k j v ((i, w) ∷ m) =
    ground (arith, str_eq_iff k j, str_eq_iff i k, str_eq_iff i j, get_ptr-put k j v m)

pub put-put : (k v w : Bytes) (m : ParamMap) → put k w (put k v m) ≡ put k w m
unfolding put
put-put k v w [] = ground (arith, str_eq_self k)
put-put k v w ((i, x) ∷ m) = elim (Bool-cases (str_eq i k)) [
  | inl same ↦ ground (arith, same)
  | inr other ↦ ground (arith, other, put-put k v w m)
]
