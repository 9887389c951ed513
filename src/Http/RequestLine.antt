-- ===== src/Http/RequestLine.antt =====
-- Connection.cpp, `ParseRequestLine` and `ParseMethod`: the first line of a request.
-- A line is the bytes from `Begin` to `End`.
pub mod RoundTrip
use mini_web_srv.Base.{
  ℕ, Bool, true, false, Option, none, some, [], ◌∷◌, Bytes, ◌==◌, ◌||◌, if◌then◌else◌, take, codes,
}
use mini_web_srv.Query.Params.{ParamMap, str_eq}
use mini_web_srv.Query.Url.{add_url_encoded}

pub data Method : Type 0 where
  get : Method
  head : Method
  post : Method
  options : Method
  unknown : Method

pub data Version : Type 0 where
  version_10 : Version
  version_11 : Version

-- `CurrMethod`, `CurrResource`, `CurrQuery` and `CurrVersion`.
pub record Request : Type 0 where
  pub method : Method
  pub resource : Bytes
  pub query : ParamMap
  pub version : Version

unfoldable pub parse_method : Bytes → Method
parse_method s =
    if str_eq s (codes "GET")
    then get
    else if str_eq s (codes "POST")
    then post
    else if str_eq s (codes "OPTIONS")
    then options
    else unknown

-- A loop over `CurrPos` that stops at the first byte of a kind: the bytes before it, the byte, and
-- the bytes behind it; `none` if `End` is met first.
unfoldable pub split_at : (ℕ → Bool) → Bytes → Option (Bytes × ℕ × Bytes)
split_at p [] = none
split_at p (c ∷ cs) =
    let rest = split_at p cs in
    if p c
    then some ([], c, cs)
    else elim rest [ none ↦ none | some (before, d, behind) ↦ some (c ∷ before, d, behind) ]

abbrev pub is_space : ℕ → Bool
is_space c = c == b' '

abbrev pub ends_resource : ℕ → Bool
ends_resource c = c == b' ' || c == b'?'

abbrev pub is_slash : ℕ → Bool
is_slash c = c == b'/'

unfoldable pub parse_version : Request → Bytes → Request × Bool
parse_version r line = elim (split_at is_slash line) [
  | none ↦ (r, false)
  | some (before, d, behind) ↦ (
    record r { version = if str_eq (take 3 behind) (codes "1.0") then version_10 else version_11 },
    true,
  )
]

-- The part behind the `?`. `none` is a read behind the end of the query, see `add_url_encoded`.
unfoldable pub parse_query : Request → Bytes → Option (Request × Bool)
unfolding parse_version
parse_query r line = elim (split_at is_space line) [
  | none ↦ some (r, false)
  | some (text, d, behind) ↦ elim (add_url_encoded r.query text) [
    | none ↦ none
    | some params ↦ some (parse_version (record r { query = params }) behind)
  ]
]

unfoldable pub parse_resource : Request → Bytes → Option (Request × Bool)
unfolding parse_query parse_version
parse_resource r line = elim (split_at ends_resource line) [
  | none ↦ some (r, false)
  | some (text, d, behind) ↦
      if d == b'?'
      then parse_query (record r { resource = text }) behind
      else some (parse_version (record r { resource = text }) behind)
]

unfoldable pub parse_request_line : Request → Bytes → Option (Request × Bool)
unfolding parse_resource
parse_request_line r line = elim (split_at is_space line) [
  | none ↦ some (r, false)
  | some (text, d, behind) ↦ parse_resource (record r { method = parse_method text }) behind
]
