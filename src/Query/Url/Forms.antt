-- ===== src/Query/Url/Forms.antt =====
-- A form in the urlencoded format, read back by `AddURLEncoded`.
use mini_web_srv.Base.{
  ℕ, ◌/◌, ◌%◌, ◌≡◌, refl, sym, ap, ◌∙◌, true, false, some, List, [], ◌∷◌, ◌++◌, Bytes, AreBytes,
  arith, ◌==◌, Bool-cases, inl, inr, append_assoc, append-nil,
}
use mini_web_srv.Query.Params.{ParamMap, get_default, put, get_ptr-put, put-put, str_eq_self}
use mini_web_srv.Query.Url.{escaped_val, Form, append_target, form_char, form_loop, add_url_encoded}
use mini_web_srv.Query.Url.RoundTrip.{
  is_unreserved, hex_digit, encode, encode_byte_plain, encode_byte_escape, plain_byte,
  escaped_val-hex_digit,
}

abbrev append_all : Form → Bytes → Form
append_all f [] = f
append_all f (c ∷ cs) = append_all (append_target f c) cs

form_loop-cons :
    (f : Form) (rest : Bytes) (c : ℕ)
    → (c == b'%') ≡ false
    → form_loop f (c ∷ rest) ≡ form_loop (form_char f c) rest
unfolding form_loop
form_loop-cons f [] c h = refl
form_loop-cons f (x ∷ []) c h = rw h
form_loop-cons f (x ∷ y ∷ rest) c h = rw h

form_loop-escape :
    (f : Form) (rest : Bytes) (h l : ℕ)
    → form_loop f (b'%' ∷ h ∷ l ∷ rest) ≡ form_loop (append_target f (escaped_val h l)) rest
unfolding form_loop
form_loop-escape f rest h l = refl

form_char-unreserved :
    (f : Form) (c : ℕ) → is_unreserved c ≡ true → form_char f c ≡ append_target f c
unfolding form_char
form_char-unreserved f c h = ground (arith, plain_byte c h)

form_loop-encode :
    (f : Form) (bs rest : Bytes)
    → AreBytes bs
    → form_loop f (encode bs ++ rest) ≡ form_loop (append_all f bs) rest
unfolding encode
form_loop-encode f [] rest h = refl
form_loop-encode f (c ∷ bs) rest h = elim (Bool-cases (is_unreserved c)) [
  | inl plain ↦
      let (_, ne, _, _, _) = plain_byte c plain in
      rw (encode_byte_plain c plain) (
        form_loop-cons f (encode bs ++ rest) c ne
        ∙ ap (λ g. form_loop g (encode bs ++ rest)) (form_char-unreserved f c plain)
        ∙ form_loop-encode (append_target f c) bs rest h.1)
  | inr other ↦ rw (encode_byte_escape c other) (
      form_loop-escape f (encode bs ++ rest) (hex_digit (c / 16)) (hex_digit (c % 16))
      ∙ ap (λ x. form_loop (append_target f x) (encode bs ++ rest)) (escaped_val-hex_digit c h.0)
      ∙ form_loop-encode (append_target f c) bs rest h.1)
]

-- Before the `=`, bytes extend the name; behind it, they extend the value of its entry.
append_all_name :
    (m : ParamMap) (name bs : Bytes)
    → append_all (record { params = m; parse_tmp = name; in_value = false }) bs
      ≡ record { params = m; parse_tmp = name ++ bs; in_value = false }
unfolding append_target
append_all_name m name [] = rw append-nil
append_all_name m name (c ∷ bs) =
    append_all_name m (name ++ c ∷ []) bs
    ∙ ap (λ n. record { params = m; parse_tmp = n; in_value = false })
        (append_assoc name (c ∷ []) bs)

append_all_value :
    (m : ParamMap) (name v bs : Bytes)
    → append_all (record { params = put name v m; parse_tmp = name; in_value = true }) bs
      ≡ record { params = put name (v ++ bs) m; parse_tmp = name; in_value = true }
unfolding append_target get_default
append_all_value m name v [] = rw append-nil
append_all_value m name v (c ∷ bs) =
    let old : get_default name (put name v m) [] ≡ v =
      ground (arith, get_ptr-put name name v m, str_eq_self name) in
    ap (λ p. append_all (record { params = p; parse_tmp = name; in_value = true }) bs)
      (ap (λ x. put name (x ++ c ∷ []) (put name v m)) old ∙ put-put name v (v ++ c ∷ []) m)
    ∙ append_all_value m name (v ++ c ∷ []) bs
    ∙ ap (λ x. record { params = put name x m; parse_tmp = name; in_value = true })
        (append_assoc v (c ∷ []) bs)

-- `name=value`, joined by `&`.
unfoldable pub encode_form : List (Bytes × Bytes) → Bytes
encode_form [] = []
encode_form ((k, v) ∷ []) = encode k ++ (b'=' ∷ encode v)
encode_form ((k, v) ∷ p ∷ ps) = encode k ++ (b'=' ∷ (encode v ++ (b'&' ∷ encode_form (p ∷ ps))))

abbrev pub put_all : List (Bytes × Bytes) → ParamMap → ParamMap
put_all [] m = m
put_all ((k, v) ∷ ps) m = put_all ps (put k v m)

abbrev pub AllBytes : List (Bytes × Bytes) → Type 0
AllBytes [] = Unit {0}
AllBytes ((k, v) ∷ ps) = AreBytes k × AreBytes v × AllBytes ps

-- One `name=value`, with what follows it.
form_loop-pair :
    (m : ParamMap) (k v rest : Bytes)
    → AreBytes k
    → AreBytes v
    → form_loop
        (record { params = m; parse_tmp = []; in_value = false })
        (encode k ++ (b'=' ∷ (encode v ++ rest)))
      ≡ form_loop (record { params = put k v m; parse_tmp = k; in_value = true }) rest
unfolding form_char
form_loop-pair m k v rest hk hv =
    form_loop-encode _ k _ hk
    ∙ ap (λ f. form_loop f (b'=' ∷ (encode v ++ rest))) (append_all_name m [] k)
    ∙ form_loop-cons (record { params = m; parse_tmp = k; in_value = false }) _ b'=' refl
    ∙ form_loop-encode (record { params = put k [] m; parse_tmp = k; in_value = true }) v rest hv
    ∙ ap (λ f. form_loop f rest) (append_all_value m k [] v)

form_loop-encode_form :
    (m : ParamMap) (ps : List (Bytes × Bytes))
    → AllBytes ps
    → (f : Form) × (form_loop
          (record { params = m; parse_tmp = []; in_value = false })
          (encode_form ps)
        ≡ some f)
      × (f.params ≡ put_all ps m)
unfolding form_loop encode_form form_char
form_loop-encode_form m [] h = (record { params = m; parse_tmp = []; in_value = false }, refl, refl)
form_loop-encode_form m ((k, v) ∷ []) h = (
  record { params = put k v m; parse_tmp = k; in_value = true },
  ap
        (λ s.
          form_loop (record { params = m; parse_tmp = []; in_value = false })
            (encode k ++ (b'=' ∷ s)))
        (sym (append-nil (encode v)))
      ∙ form_loop-pair m k v [] h.0 h.1,
  refl,
)
form_loop-encode_form m ((k, v) ∷ p ∷ ps) h =
    let (f, e, e') = form_loop-encode_form (put k v m) (p ∷ ps) h.2 in
    (
      f,
      form_loop-pair m k v (b'&' ∷ encode_form (p ∷ ps)) h.0 h.1
          ∙ form_loop-cons _ (encode_form (p ∷ ps)) b'&' refl
          ∙ e,
      e',
    )

-- A form of any names and values is read back: each pair sets its parameter, in order, so the last
-- value of a name stands, and the parameters of other names stay as they were.
pub add_url_encoded-encode_form :
    (m : ParamMap) (ps : List (Bytes × Bytes))
    → AllBytes ps
    → add_url_encoded m (encode_form ps) ≡ some (put_all ps m)
unfolding add_url_encoded
add_url_encoded-encode_form m ps h =
    let (f, e, e') = form_loop-encode_form m ps h in rw (e, add_url_encoded) (ap some e')
