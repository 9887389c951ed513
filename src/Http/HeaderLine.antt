-- ===== src/Http/HeaderLine.antt =====
-- Header.cpp, `ExtractHeader`, the table of names and the constructor of `Header`.
-- A line is the bytes from `LineBegin` to `LineEnd`; the name and the value are the strings that the
-- pointers into it point to, up to the zero that the code writes.
pub mod Laws
use mini_web_srv.Base.{
  ℕ, zero, ◌+◌, ◌-◌, Bool, true, false, ◌&&◌, Option, none, some, List, [], ◌∷◌, Bytes, map, leb,
  ◌==◌, if◌then◌else◌, codes,
}
use mini_web_srv.Query.Params.{str_eq}
use mini_web_srv.Http.RequestLine.{split_at}

pub data HeaderName : Type 0 where
  unknown : HeaderName
  host : HeaderName
  connection : HeaderName
  content_disposition : HeaderName
  content_type : HeaderName
  content_length : HeaderName
  content_encoding : HeaderName
  user_agent : HeaderName
  if_mod_since : HeaderName
  origin : HeaderName
  upgrade : HeaderName
  sec_websocket_key : HeaderName
  sec_websocket_version : HeaderName
  sec_websocket_protocol : HeaderName
  last_modified : HeaderName
  location : HeaderName
  sec_websocket_accept : HeaderName
  access_control_request_method : HeaderName
  access_control_request_headers : HeaderName

unfoldable pub get_header_name : HeaderName → Bytes
get_header_name unknown = []
get_header_name host = codes "host"
get_header_name connection = codes "connection"
get_header_name content_disposition = codes "content-disposition"
get_header_name content_type = codes "content-type"
get_header_name content_length = codes "content-length"
get_header_name content_encoding = codes "content-encoding"
get_header_name user_agent = codes "user-agent"
get_header_name if_mod_since = codes "if-modified-since"
get_header_name origin = codes "origin"
get_header_name upgrade = codes "upgrade"
get_header_name sec_websocket_key = codes "sec-websocket-key"
get_header_name sec_websocket_version = codes "sec-websocket-version"
get_header_name sec_websocket_protocol = codes "sec-websocket-protocol"
get_header_name last_modified = codes "last-modified"
get_header_name location = codes "location"
get_header_name sec_websocket_accept = codes "sec-websocket-accept"
get_header_name access_control_request_method = codes "access-control-request-method"
get_header_name access_control_request_headers = codes "access-control-request-headers"

-- The names that `InitHeaderNameMap` puts into the map.
abbrev pub header_names : List HeaderName
header_names =
    host ∷ connection ∷ content_disposition ∷ content_type ∷ content_length ∷ content_encoding
    ∷ user_agent ∷ if_mod_since ∷ origin ∷ upgrade ∷ sec_websocket_key ∷ sec_websocket_version
    ∷ sec_websocket_protocol ∷ last_modified ∷ location ∷ sec_websocket_accept
    ∷ access_control_request_method ∷ access_control_request_headers ∷ []

unfoldable pub find_name : Bytes → List HeaderName → HeaderName
find_name s [] = unknown
find_name s (n ∷ ns) = let rest = find_name s ns in if str_eq (get_header_name n) s then n else rest

unfoldable pub parse_header : Bytes → HeaderName
parse_header s = find_name s header_names

unfoldable pub to_lower : ℕ → ℕ
to_lower c = if leb b'A' c && leb c b'Z' then c - b'A' + b'a' else c

-- A C string ends at its first zero.
unfoldable pub c_string : Bytes → Bytes
c_string [] = []
c_string (c ∷ cs) = let rest = c_string cs in if c == 0 then [] else c ∷ rest

unfoldable pub skip_spaces : Bytes → Bytes
skip_spaces [] = []
skip_spaces (c ∷ cs) = let rest = skip_spaces cs in if c == b' ' then rest else c ∷ cs

abbrev pub is_colon : ℕ → Bool
is_colon c = c == b':'

abbrev pub is_cr : ℕ → Bool
is_cr c = c == b'\r'

pub record Header : Type 0 where
  pub name : Bytes
  pub value : Bytes
  pub int_name : HeaderName

-- The header, or `none` if `ExtractHeader` returns a null pointer: then the name or the value has no
-- end that the code wrote, and `IntName` is unknown.
unfoldable pub extract_header : Bytes → Option Header
extract_header line = elim (split_at is_colon line) [
  | none ↦ none
  | some (before, c, behind) ↦ elim (split_at is_cr (skip_spaces behind)) [
    | none ↦ none
    | some (text, d, left) ↦ some (record {
      name = c_string (map to_lower before);
      value = c_string text;
      int_name = parse_header (c_string (map to_lower before));
    })
  ]
]
