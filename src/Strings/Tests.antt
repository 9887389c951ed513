-- ===== src/Strings/Tests.antt =====
-- Runs, and the theorems at concrete inputs.
use mini_web_srv.Base.{◌≡◌, refl, List, [], ◌∷◌, Bytes, codes}
use mini_web_srv.Http.Delimited.{is_ws}
use mini_web_srv.Strings.{
  trim, trim_front, trim_back, extract_from, extract_tokens, trim_tokens, extract_trim_tokens,
}
use mini_web_srv.Strings.Tokens.{join, not_empty, extract_tokens-join}

tokens_sample : extract_trim_tokens is_ws b',' (codes " a b,, c ,  ") ≡ codes "a b" ∷ codes "c" ∷ []
unfolding extract_trim_tokens extract_tokens extract_from trim_tokens trim trim_front trim_back
    is_ws
tokens_sample = refl

abbrev parts : List Bytes
parts = codes "a" ∷ [] ∷ codes "b c" ∷ []

extract_tokens-join_example : extract_tokens b',' (join b',' parts) ≡ not_empty parts
extract_tokens-join_example =
    extract_tokens-join b',' parts ((refl, tt), (tt, ((refl, (refl, (refl, tt))), tt)))
