-- ===== src/WebSocket/Handshake.antt =====
-- WebSocket/WSRespSource.cpp and WSRespSource.h: the answer to a request that asks for a WebSocket
-- connection. The SHA-1 digest is the parameter `digest`, and `create_msg_handler` is the abstract
-- method: it gets the subprotocols and the origin, and gives a handler and the subprotocols it leaves.
pub mod Version
pub mod Headers
pub mod Laws
mod Tests
use mini_web_srv.Base.{
  ℕ, zero, suc, ◌+◌, ◌-◌, ◌*◌, Bool, true, false, ◌&&◌, ◌||◌, Option, none, some, List, [], ◌∷◌,
  ◌++◌, Bytes, leb, ◌==◌, if◌then◌else◌, codes, take,
}
use mini_web_srv.Http.HeaderLine.{
  Header, HeaderName, origin, upgrade, connection, sec_websocket_key, sec_websocket_version,
  sec_websocket_protocol, sec_websocket_accept, get_header_name,
}
use mini_web_srv.Http.Delimited.{is_ws}
use mini_web_srv.Strings.{Sign, same, cmp_i, extract_trim_tokens}
use mini_web_srv.WebSocket.Base64.{base64_encode}

-- The values of the headers that the search keeps.
pub record Wanted : Type 0 where
  pub upgrade_value : Option Bytes
  pub key_value : Option Bytes
  pub version_value : Option Bytes
  pub protocol_value : Option Bytes
  pub origin_value : Option Bytes

abbrev pub no_headers : Wanted
no_headers = record {
  upgrade_value = none;
  key_value = none;
  version_value = none;
  protocol_value = none;
  origin_value = none;
}

abbrev pub want : Wanted → HeaderName → Bytes → Wanted
want w upgrade v = record w { upgrade_value = some v }
want w sec_websocket_key v = record w { key_value = some v }
want w sec_websocket_version v = record w { version_value = some v }
want w sec_websocket_protocol v = record w { protocol_value = some v }
want w origin v = record w { origin_value = some v }
want w _ v = w

-- The search: of headers with one name, the last one counts. The number of a header without an end is
-- unknown.
unfoldable pub find_wanted : Wanted → List (Option Header) → Wanted
find_wanted w [] = w
find_wanted w (none ∷ hs) = find_wanted w hs
find_wanted w (some h ∷ hs) = find_wanted (want w h.int_name h.value) hs

abbrev pub is_same : Sign → Bool
is_same same = true
is_same _ = false

-- `atoi` of the C locale: the white space, the sign, the digits; whether it is negative, and its
-- magnitude.
abbrev pub is_white : ℕ → Bool
is_white c = c == b' ' || (leb 9 c && leb c 13)

unfoldable pub skip_white : Bytes → Bytes
skip_white [] = []
skip_white (c ∷ cs) = let rest = skip_white cs in if is_white c then rest else c ∷ cs

unfoldable pub digits_value : ℕ → Bytes → ℕ
digits_value n [] = n
digits_value n (c ∷ cs) =
    let rest = digits_value (n * 10 + (c - b'0')) cs in if leb b'0' c && leb c b'9' then rest else n

unfoldable pub atoi : Bytes → Bool × ℕ
unfolding skip_white digits_value
atoi text = elim (skip_white text) [
  | [] ↦ (false, 0)
  | c ∷ cs ↦
      if c == b'-'
      then (true, digits_value 0 cs)
      else if c == b'+'
      then (false, digits_value 0 cs)
      else (false, digits_value 0 (c ∷ cs))
]

abbrev pub is_version_13 : Bytes → Bool
is_version_13 text = let (negative, n) = atoi text in if negative then false else n == 13

abbrev pub given : Option Bytes → (Bytes → Bool) → Bool
given none p = false
given (some v) p = p v

abbrev pub websocket_guid : Bytes
websocket_guid = codes "258EAFA5-E914-47DA-95CA-C5AB0DC85B11"

-- `IsValidWSReq`.
unfoldable pub is_valid_request : Wanted → Bool
is_valid_request w =
    given w.upgrade_value (λ v. is_same (cmp_i v (codes "websocket")))
    && (given w.key_value (λ v. true) && given w.version_value is_version_13)

-- `WSResponse`; `sub_protocol` is empty for none.
pub record WsResponse (M : Type 0) : Type 0 where
  pub accept : Bytes
  pub sub_protocol : Bytes
  pub handler : M

unfoldable pub new_ws_response : {M : Type 0} → (Bytes → Bytes) → M → Bytes → Bytes → WsResponse M
new_ws_response digest handler key sub_protocol = record {
  accept = base64_encode (digest (key ++ websocket_guid));
  sub_protocol = sub_protocol;
  handler = handler;
}

abbrev pub is_empty : Bytes → Bool
is_empty [] = true
is_empty (b ∷ bs) = false

unfoldable pub get_extra_header_count : {M : Type 0} → WsResponse M → ℕ
get_extra_header_count r = if is_empty r.sub_protocol then 3 else 4

unfoldable pub get_extra_header : {M : Type 0} → WsResponse M → ℕ → Option (Bytes × Bytes)
get_extra_header r index =
    if index == 0
    then some (get_header_name sec_websocket_accept, r.accept)
    else if index == 1
    then some (get_header_name connection, codes "upgrade")
    else if index == 2
    then some (get_header_name upgrade, codes "websocket")
    else if index == 3 && (if is_empty r.sub_protocol then false else true)
    then some (get_header_name sec_websocket_protocol, r.sub_protocol)
    else none

-- The subprotocol of the answer: the only one that is left.
abbrev pub selected : List Bytes → Bytes
selected (p ∷ []) = p
selected _ = []

module _ {M : Type 0} (digest : Bytes → Bytes)
    (create_msg_handler : List Bytes → Option Bytes → Option M × List Bytes) where
  -- Whether the request is valid, and the answer.
  unfoldable pub create_ws_response : List (Option Header) → Bool × Option (WsResponse M)
  create_ws_response headers =
      let w = find_wanted no_headers headers in
      if is_valid_request w
      then (let offered : List Bytes = elim w.protocol_value [
        | none ↦ []
        | some v ↦ extract_trim_tokens is_ws b',' v
      ] in
          let (handler, left) = create_msg_handler offered w.origin_value in
          let key : Bytes = elim w.key_value [ none ↦ [] | some k ↦ k ] in
          (
            true,
            elim handler [
              | none ↦ none
              | some m ↦ some (new_ws_response digest m key (selected left))
            ],
          ))
      else (false, none)
