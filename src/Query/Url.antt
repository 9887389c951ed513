-- ===== src/Query/Url.antt =====
-- QueryParams.cpp: `DecodeURLEncoded` and `AddURLEncoded`, and QueryParams.h, `GetHexVal`.
-- `none` is a read behind `End`: of an escape's two digits only the first is tested to be there, and
-- from then on `Begin` never meets `End`.
pub mod RoundTrip
pub mod Forms
use mini_web_srv.Base.{
  ℕ, ◌+◌, ◌-◌, ◌*◌, ◌^◌, Bool, true, false, ◌&&◌, Option, none, some, List, [], ◌∷◌, ◌++◌, Bytes,
  leb, ◌==◌, if◌then◌else◌, bit_or,
}
use mini_web_srv.Query.Params.{ParamMap, get_ptr, get_default, put}

abbrev within : ℕ → ℕ → ℕ → Bool
within lo hi c = leb lo c && leb c hi

unfoldable pub get_hex_val : ℕ → ℕ
get_hex_val c =
    if within b'0' b'9' c
    then c - b'0'
    else if within b'A' b'F' c
    then c - b'A' + 10
    else if within b'a' b'f' c
    then c - b'a' + 10
    else 0

-- `(GetHexVal(*Begin) << 4) | GetHexVal(*(Begin+1))`.
unfoldable pub escaped_val : ℕ → ℕ → ℕ
unfolding get_hex_val
escaped_val h l = bit_or (get_hex_val h * 2 ^ 4) (get_hex_val l)

abbrev pub plain_val : ℕ → ℕ
plain_val c = if c == b'+' then b' ' else c

unfoldable pub decode_url_encoded : Bytes → Bytes → Option Bytes
decode_url_encoded target [] = some target
decode_url_encoded target (c ∷ []) = some (target ++ plain_val c ∷ [])
decode_url_encoded target (c ∷ h ∷ []) =
    let next = decode_url_encoded (target ++ plain_val c ∷ []) (h ∷ []) in
    if c == b'%' then none else next
decode_url_encoded target (c ∷ h ∷ l ∷ rest) =
    let skipped = decode_url_encoded (target ++ escaped_val h l ∷ []) rest in
    let next = decode_url_encoded (target ++ plain_val c ∷ []) (h ∷ l ∷ rest) in
    if c == b'%' then skipped else next

-- The state of `AddURLEncoded`. Before the `=`, `TargetStr` is `ParseTmp`; behind it, it is the entry
-- of `ParamMap` under the name that `ParseTmp` still holds.
pub record Form : Type 0 where
  pub params : ParamMap
  pub parse_tmp : Bytes
  pub in_value : Bool

-- `TargetStr->append(1, c)`.
unfoldable pub append_target : Form → ℕ → Form
append_target f c =
    if f.in_value
    then record f {
      params = put f.parse_tmp (get_default f.parse_tmp f.params [] ++ c ∷ []) f.params;
    }
    else record f { parse_tmp = f.parse_tmp ++ c ∷ [] }

-- A byte that is not the start of a whole escape.
unfoldable pub form_char : Form → ℕ → Form
form_char f c =
    if c == b'+'
    then append_target f b' '
    else if c == b'%'
    then append_target f c
    else if f.in_value
    then (if c == b'&' then record f { parse_tmp = []; in_value = false } else append_target f c)
    else if c == b'='
    then record f { params = put f.parse_tmp [] f.params; in_value = true }
    else append_target f c

unfoldable pub form_loop : Form → Bytes → Option Form
form_loop f [] = some f
form_loop f (c ∷ []) = some (form_char f c)
form_loop f (c ∷ h ∷ []) =
    let next = form_loop (form_char f c) (h ∷ []) in if c == b'%' then none else next
form_loop f (c ∷ h ∷ l ∷ rest) =
    let skipped = form_loop (append_target f (escaped_val h l)) rest in
    let next = form_loop (form_char f c) (h ∷ l ∷ rest) in if c == b'%' then skipped else next

unfoldable pub add_url_encoded : ParamMap → Bytes → Option ParamMap
add_url_encoded m s = elim (form_loop (record { params = m; parse_tmp = []; in_value = false }) s) [
  | none ↦ none
  | some f ↦ some f.params
]
