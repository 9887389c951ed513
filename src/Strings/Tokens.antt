-- ===== src/Strings/Tokens.antt =====
-- Tokens and the text they are joined in.
use mini_web_srv.Base.{
  ℕ, ◌≡◌, refl, sym, ap, ◌∙◌, Bool, List, [], ◌∷◌, ◌++◌, Bytes, ◌==◌, ==_self, append_assoc,
  append-nil,
}
use mini_web_srv.Http.RequestLine.RoundTrip.{Lacks}
use mini_web_srv.Strings.{consume_token, extract_from, extract_tokens}

abbrev pub is_byte : ℕ → ℕ → Bool
is_byte separator c = c == separator

abbrev pub join : ℕ → List Bytes → Bytes
join separator [] = []
join separator (t ∷ []) = t
join separator (t ∷ u ∷ us) = t ++ separator ∷ join separator (u ∷ us)

abbrev pub AllLack : ℕ → List Bytes → Type 0
AllLack separator [] = Unit {0}
AllLack separator (t ∷ ts) = Lacks (is_byte separator) t × AllLack separator ts

-- The tokens that are not empty.
abbrev pub not_empty : List Bytes → List Bytes
not_empty [] = []
not_empty (t ∷ ts) = consume_token t [] ++ not_empty ts

extract_from-token :
    (separator : ℕ) (t token : Bytes) (out : List Bytes) (rest : Bytes)
    → Lacks (is_byte separator) t
    → extract_from separator token out (t ++ rest) ≡ extract_from separator (token ++ t) out rest
unfolding extract_from
extract_from-token separator [] token out rest h =
    ap (λ x. extract_from separator x out rest) (sym (append-nil token))
extract_from-token separator (c ∷ cs) token out rest h =
    rw (extract_from, h.0)
      (extract_from-token separator cs (token ++ c ∷ []) out rest h.1
        ∙ ap (λ x. extract_from separator x out rest) (append_assoc token (c ∷ []) cs))

extract_from-separator :
    (separator : ℕ) (token : Bytes) (out : List Bytes) (rest : Bytes)
    → extract_from separator token out (separator ∷ rest)
      ≡ extract_from separator [] (consume_token token out) rest
unfolding extract_from
extract_from-separator separator token out rest = rw (extract_from, ==_self separator) refl

consume_token-append :
    (t : Bytes) (out : List Bytes) → consume_token t out ≡ out ++ consume_token t []
consume_token-append [] out = sym (append-nil out)
consume_token-append (c ∷ cs) out = refl

extract_from-join :
    (separator : ℕ) (ts : List Bytes) (out : List Bytes)
    → AllLack separator ts
    → extract_from separator [] out (join separator ts) ≡ out ++ not_empty ts
unfolding extract_from
extract_from-join separator [] out h = sym (append-nil out)
extract_from-join separator (t ∷ []) out h =
    ap (extract_from separator [] out) (sym (append-nil t))
    ∙ extract_from-token separator t [] out [] h.0
    ∙ consume_token-append t out
    ∙ ap (◌++◌ out) (sym (append-nil (consume_token t [])))
extract_from-join separator (t ∷ u ∷ us) out h =
    extract_from-token separator t [] out (separator ∷ join separator (u ∷ us)) h.0
    ∙ extract_from-separator separator t out (join separator (u ∷ us))
    ∙ extract_from-join separator (u ∷ us) (consume_token t out) h.1
    ∙ ap (λ x. x ++ not_empty (u ∷ us)) (consume_token-append t out)
    ∙ append_assoc out (consume_token t []) (not_empty (u ∷ us))

-- The tokens of a joined text are the parts that are not empty, in order, if the separator stands in
-- none of them.
pub extract_tokens-join :
    (separator : ℕ) (ts : List Bytes)
    → AllLack separator ts
    → extract_tokens separator (join separator ts) ≡ not_empty ts
unfolding extract_tokens
extract_tokens-join separator ts h = extract_from-join separator ts [] h
