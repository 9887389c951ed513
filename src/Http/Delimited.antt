-- ===== src/Http/Delimited.antt =====
-- Header.cpp, `ParseDelimitedKeyValue` with the separator `=`: the parameters of a header's value.
-- The source is the bytes in front of the zero that ends it. The ranges between the pointers are
-- kept as the bytes read so far; the calls of the consumer are a list, a null value is `none`.
pub mod Laws
use mini_web_srv.Base.{
  ℕ, Bool, ◌||◌, not, Option, none, some, List, [], ◌∷◌, ◌++◌, Bytes, ◌==◌, if◌then◌else◌,
}

pub data ParseState : Type 0 where
  ps_zero : ParseState
  ps_key : ParseState
  ps_sep_search : ParseState
  ps_val_search : ParseState
  ps_val : ParseState
  ps_quoted_val : ParseState

abbrev pub KeyValue : Type 0
KeyValue = Bytes × Option Bytes

pub record Parser : Type 0 where
  pub state : ParseState
  pub key : Bytes
  pub val : Bytes
  pub consumed : List KeyValue

abbrev pub fresh_parser : Parser
fresh_parser = record { state = ps_zero; key = []; val = []; consumed = [] }

unfoldable pub is_ws : ℕ → Bool
is_ws c = c == b'\r' || c == b'\n' || c == b' ' || c == b'\t'

-- A call of the consumer, and the search for the next key.
abbrev pub consume : Parser → Option Bytes → Parser
consume p v = record p { state = ps_zero; consumed = p.consumed ++ (p.key, v) ∷ [] }

-- `PS_VALSEARCH` also tests for a line break, behind a test for white space that a line break meets:
-- that branch is never taken.
unfoldable pub parse_step : Parser → ℕ → Parser
parse_step p c = elim p.state [
  | ps_zero ↦
      if not (is_ws c)
      then (if c == b';' then p else record p { state = ps_key; key = c ∷ [] })
      else p
  | ps_key ↦
      if is_ws c
      then record p { state = ps_sep_search }
      else if c == b'='
      then record p { state = ps_val_search }
      else if c == b';'
      then consume p none
      else record p { key = p.key ++ c ∷ [] }
  | ps_sep_search ↦
      if c == b'='
      then record p { state = ps_val_search }
      else if c == b';'
      then consume p none
      else if not (is_ws c)
      then record p { state = ps_key; key = c ∷ [] }
      else p
  | ps_val_search ↦
      if not (is_ws c)
      then (if c == b'"'
          then record p { state = ps_quoted_val; val = [] }
          else record p { state = ps_val; val = c ∷ [] })
      else p
  | ps_val ↦
      if is_ws c || c == b';' then consume p (some p.val) else record p { val = p.val ++ c ∷ [] }
  | ps_quoted_val ↦ if c == b'"' then consume p (some p.val) else record p { val = p.val ++ c ∷ [] }
]

unfoldable pub parse_loop : Parser → Bytes → Parser
parse_loop p [] = p
parse_loop p (c ∷ cs) = parse_loop (parse_step p c) cs

-- Behind the loop: a value that the end cuts off is still consumed, a key without a value is not.
unfoldable pub parse_end : Parser → List KeyValue
parse_end p = elim p.state [
  | ps_val ↦ (consume p (some p.val)).consumed
  | ps_quoted_val ↦ (consume p (some p.val)).consumed
  | _ ↦ p.consumed
]

unfoldable pub parse_delimited_key_value : Bytes → List KeyValue
unfolding parse_loop parse_end
parse_delimited_key_value source = parse_end (parse_loop fresh_parser source)
