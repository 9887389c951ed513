-- ===== src/Http/Delimited/Laws.antt =====
-- Parameters with quoted values (RFC 7231 3.1.1.1), read back.
use mini_web_srv.Base.{
  ℕ, ◌≡◌, refl, sym, ap, ◌∙◌, Bool, false, ◌||◌, some, List, [], ◌∷◌, ◌++◌, Bytes, ◌==◌,
  append_assoc, append-nil, codes, arith,
}
use mini_web_srv.Http.RequestLine.RoundTrip.{Lacks}
use mini_web_srv.Http.Delimited.{
  ps_zero, ps_key, ps_quoted_val, KeyValue, Parser, is_ws, parse_step, parse_loop, parse_end,
  parse_delimited_key_value,
}

-- A byte that no key has.
abbrev pub ends_key : ℕ → Bool
ends_key c = is_ws c || c == b'=' || c == b';'

abbrev pub is_quote : ℕ → Bool
is_quote c = c == b'"'

parse_loop-append :
    (p : Parser) (xs ys : Bytes) → parse_loop p (xs ++ ys) ≡ parse_loop (parse_loop p xs) ys
unfolding parse_loop
parse_loop-append p [] ys = refl
parse_loop-append p (x ∷ xs) ys = parse_loop-append (parse_step p x) xs ys

key_byte :
    (c : ℕ) → ends_key c ≡ false → (is_ws c ≡ false) × ((c == b'=') ≡ false) × ((c == b';') ≡ false)
key_byte c h = ground arith

key_step :
    (k v : Bytes) (out : List KeyValue) (c : ℕ)
    → ends_key c ≡ false
    → parse_step (record { state = ps_key; key = k; val = v; consumed = out }) c
      ≡ record { state = ps_key; key = k ++ c ∷ []; val = v; consumed = out }
unfolding parse_step
key_step k v out c h = let (a, b, d) = key_byte c h in rw (a, b, d) refl

key_start :
    (k v : Bytes) (out : List KeyValue) (c : ℕ)
    → ends_key c ≡ false
    → parse_step (record { state = ps_zero; key = k; val = v; consumed = out }) c
      ≡ record { state = ps_key; key = c ∷ []; val = v; consumed = out }
unfolding parse_step
key_start k v out c h = let (a, b, d) = key_byte c h in rw (a, d) refl

key_loop :
    (cs k v : Bytes) (out : List KeyValue)
    → Lacks ends_key cs
    → parse_loop (record { state = ps_key; key = k; val = v; consumed = out }) cs
      ≡ record { state = ps_key; key = k ++ cs; val = v; consumed = out }
unfolding parse_loop
key_loop [] k v out h =
    ap (λ x. record { state = ps_key; key = x; val = v; consumed = out }) (sym (append-nil k))
key_loop (c ∷ cs) k v out h =
    ap (λ p. parse_loop p cs) (key_step k v out c h.0)
    ∙ key_loop cs (k ++ c ∷ []) v out h.1
    ∙ ap (λ x. record { state = ps_key; key = x; val = v; consumed = out })
        (append_assoc k (c ∷ []) cs)

val_loop :
    (cs k v : Bytes) (out : List KeyValue)
    → Lacks is_quote cs
    → parse_loop (record { state = ps_quoted_val; key = k; val = v; consumed = out }) cs
      ≡ record { state = ps_quoted_val; key = k; val = v ++ cs; consumed = out }
unfolding parse_loop parse_step
val_loop [] k v out h =
    ap (λ x. record { state = ps_quoted_val; key = k; val = x; consumed = out })
      (sym (append-nil v))
val_loop (c ∷ cs) k v out h = rw h.0 (
    val_loop cs k (v ++ c ∷ []) out h.1
    ∙ ap (λ x. record { state = ps_quoted_val; key = k; val = x; consumed = out })
        (append_assoc v (c ∷ []) cs))

-- One parameter, behind a semicolon and a space.
abbrev pub param_text : Bytes → Bytes → Bytes
param_text k v = codes "; " ++ (k ++ (codes "=\"" ++ (v ++ codes "\"")))

abbrev pub params_text : List (Bytes × Bytes) → Bytes
params_text [] = []
params_text ((k, v) ∷ ps) = param_text k v ++ params_text ps

abbrev IsToken : Bytes → Type 0
IsToken [] = ⊥
IsToken (c ∷ cs) = Lacks ends_key (c ∷ cs)

-- Keys are not empty, and have no white space, `=` or `;`; values have no quote.
abbrev pub AreParams : List (Bytes × Bytes) → Type 0
AreParams [] = Unit {0}
AreParams ((k, v) ∷ ps) = IsToken k × Lacks is_quote v × AreParams ps

open_value :
    (k v : Bytes) (out : List KeyValue)
    → parse_loop (record { state = ps_key; key = k; val = v; consumed = out }) (codes "=\"")
      ≡ record { state = ps_quoted_val; key = k; val = []; consumed = out }
unfolding parse_loop parse_step is_ws
open_value k v out = refl

close_value :
    (k v : Bytes) (out : List KeyValue)
    → parse_loop (record { state = ps_quoted_val; key = k; val = v; consumed = out }) (codes "\"")
      ≡ record { state = ps_zero; key = k; val = v; consumed = out ++ (k, some v) ∷ [] }
unfolding parse_loop parse_step
close_value k v out = refl

blanks : (p : Parser) → p.state ≡ ps_zero → parse_loop p (codes "; ") ≡ p
unfolding parse_loop parse_step is_ws
blanks p e = rw e refl

loop-param_text :
    (k v k' v' : Bytes) (out : List KeyValue)
    → IsToken k
    → Lacks is_quote v
    → parse_loop (record { state = ps_zero; key = k'; val = v'; consumed = out }) (param_text k v)
      ≡ record { state = ps_zero; key = k; val = v; consumed = out ++ (k, some v) ∷ [] }
unfolding parse_loop is_ws
loop-param_text [] v k' v' out h i = absurd h
loop-param_text (c ∷ cs) v k' v' out h i =
    let start : Parser = record { state = ps_zero; key = k'; val = v'; consumed = out } in
    ap (λ p. parse_loop (parse_step p c) (cs ++ (codes "=\"" ++ (v ++ codes "\""))))
      (blanks start refl)
    ∙ ap (λ p. parse_loop p (cs ++ (codes "=\"" ++ (v ++ codes "\"")))) (key_start k' v' out c h.0)
    ∙ parse_loop-append _ cs (codes "=\"" ++ (v ++ codes "\""))
    ∙ ap (λ p. parse_loop p (codes "=\"" ++ (v ++ codes "\""))) (key_loop cs (c ∷ []) v' out h.1)
    ∙ parse_loop-append _ (codes "=\"") (v ++ codes "\"")
    ∙ ap (λ p. parse_loop p (v ++ codes "\"")) (open_value (c ∷ cs) v' out)
    ∙ parse_loop-append _ v (codes "\"")
    ∙ ap (λ p. parse_loop p (codes "\"")) (val_loop v (c ∷ cs) [] out i)
    ∙ close_value (c ∷ cs) v out

abbrev pub to_pairs : List (Bytes × Bytes) → List KeyValue
to_pairs [] = []
to_pairs ((k, v) ∷ ps) = (k, some v) ∷ to_pairs ps

end-params_text :
    (ps : List (Bytes × Bytes)) (k v : Bytes) (out : List KeyValue)
    → AreParams ps
    → parse_end
        (parse_loop (record { state = ps_zero; key = k; val = v; consumed = out }) (params_text ps))
      ≡ out ++ to_pairs ps
unfolding parse_loop parse_end
end-params_text [] k v out h = sym (append-nil out)
end-params_text ((k', v') ∷ ps) k v out h =
    ap parse_end (parse_loop-append _ (param_text k' v') (params_text ps))
    ∙ ap (λ p. parse_end (parse_loop p (params_text ps))) (loop-param_text k' v' k v out h.0 h.1)
    ∙ end-params_text ps k' v' (out ++ (k', some v') ∷ []) h.2
    ∙ append_assoc out ((k', some v') ∷ []) (to_pairs ps)

-- Parameters with quoted values, each behind a semicolon and a space, are consumed in order, each key
-- with its value, if no key is empty or has white space, `=` or `;`, and no value has a quote.
pub parse_delimited_key_value-params_text :
    (ps : List (Bytes × Bytes))
    → AreParams ps
    → parse_delimited_key_value (params_text ps) ≡ to_pairs ps
unfolding parse_delimited_key_value
parse_delimited_key_value-params_text ps h = end-params_text ps [] [] [] h
