-- ===== src/Strings.antt =====
-- Common/StringUtils.h: comparison without case, trimming and tokens. C strings are the bytes in front
-- of their zero, and the zero is written out where the code compares with it.
pub mod Compare
pub mod Tokens
mod Tests
use mini_web_srv.Base.{
  ℕ, Bool, true, false, not, List, [], ◌∷◌, ◌++◌, Bytes, ◌+◌, ◌%◌, ltb, ◌==◌, ◌||◌, if◌then◌else◌,
}
use mini_web_srv.Http.HeaderLine.{to_lower}

-- The results -1, 0 and 1 of `CmpI`.
pub data Sign : Type 0 where
  less : Sign
  same : Sign
  greater : Sign

-- A `char` is signed: the bytes from 128 on come before the others.
abbrev pub char_order : ℕ → ℕ
char_order c = (c + 128) % 256

-- Both forms of `CmpI`: `tolower` is that of the C locale.
unfoldable pub cmp_i : Bytes → Bytes → Sign
cmp_i [] [] = same
cmp_i [] (y ∷ ys) = less
cmp_i (x ∷ xs) [] = greater
cmp_i (x ∷ xs) (y ∷ ys) =
    let rest = cmp_i xs ys in
    if ltb (char_order (to_lower x)) (char_order (to_lower y))
    then less
    else if ltb (char_order (to_lower y)) (char_order (to_lower x))
    then greater
    else rest

-- The first loop of `Trim`.
unfoldable pub trim_front : (ℕ → Bool) → Bytes → Bytes
trim_front p [] = []
trim_front p (c ∷ cs) = let rest = trim_front p cs in if p c then rest else c ∷ cs

-- The second loop: what it leaves out is at the end.
unfoldable pub trim_back : (ℕ → Bool) → Bytes → Bytes
trim_back p [] = []
trim_back p (c ∷ cs) = elim (trim_back p cs) [
  | [] ↦ if p c then [] else c ∷ []
  | d ∷ ds ↦ c ∷ d ∷ ds
]

unfoldable pub trim : (ℕ → Bool) → Bytes → Bytes
unfolding trim_front trim_back
trim p cs = trim_back p (trim_front p cs)

abbrev pub consume_token : Bytes → List Bytes → List Bytes
consume_token [] out = out
consume_token (c ∷ cs) out = out ++ (c ∷ cs) ∷ []

-- `ExtractTokens`: `token` is the bytes from `Begin` to `Source`.
unfoldable pub extract_from : ℕ → Bytes → List Bytes → Bytes → List Bytes
extract_from separator token out [] = consume_token token out
extract_from separator token out (c ∷ cs) =
    let next = extract_from separator [] (consume_token token out) cs in
    let on = extract_from separator (token ++ c ∷ []) out cs in if c == separator then next else on

unfoldable pub extract_tokens : ℕ → Bytes → List Bytes
extract_tokens separator source = extract_from separator [] [] source

-- `TrimWSTokenConsumer`, for every token in turn.
unfoldable pub trim_tokens : (ℕ → Bool) → List Bytes → List Bytes
unfolding trim
trim_tokens p [] = []
trim_tokens p (t ∷ ts) = consume_token (trim p t) [] ++ trim_tokens p ts

unfoldable pub extract_trim_tokens : (ℕ → Bool) → ℕ → Bytes → List Bytes
extract_trim_tokens p separator source = trim_tokens p (extract_tokens separator source)
