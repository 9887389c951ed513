-- ===== src/Sources/Preflight.antt =====
-- RespSources/CORSPreflightRespSource.cpp: the answer to a preflight request, which allows everything.
use mini_web_srv.Base.{
  ◌≡◌, arith, ℕ, Bool, true, false, ◌&&◌, Option, none, some, List, [], ◌∷◌, Bytes, ◌==◌,
  if◌then◌else◌, codes,
}
use mini_web_srv.Http.RequestLine.{Method, options}
use mini_web_srv.Http.HeaderLine.{
  Header, HeaderName, access_control_request_method, access_control_request_headers,
}

-- `ACRMPresent` and `ACReqHeaders`.
pub record Asked : Type 0 where
  pub method_present : Bool
  pub headers_value : Option Bytes

abbrev pub ask : Asked → HeaderName → Bytes → Asked
ask a access_control_request_method v = record a { method_present = true }
ask a access_control_request_headers v = record a { headers_value = some v }
ask a _ v = a

-- The number of a header without an end is unknown.
unfoldable pub find_asked : Asked → List (Option Header) → Asked
find_asked a [] = a
find_asked a (none ∷ hs) = find_asked a hs
find_asked a (some h ∷ hs) = find_asked (ask a h.int_name h.value) hs

abbrev pub is_options : Method → Bool
is_options options = true
is_options _ = false

-- `Create`: the allowed headers of the response, empty for none.
unfoldable pub create_preflight : Method → List (Option Header) → Option Bytes
create_preflight method headers =
    let a = find_asked (record { method_present = false; headers_value = none }) headers in
    if is_options method
    then (if a.method_present
        then elim a.headers_value [ none ↦ some [] | some v ↦ some v ]
        else none)
    else none

abbrev pub is_empty : Bytes → Bool
is_empty [] = true
is_empty (b ∷ bs) = false

unfoldable pub get_extra_header_count : Bytes → ℕ
get_extra_header_count allowed_headers = if is_empty allowed_headers then 2 else 3

unfoldable pub get_extra_header : Bytes → ℕ → Option (Bytes × Bytes)
get_extra_header allowed_headers index =
    if index == 0
    then some (codes "Access-Control-Allow-Origin", codes "*")
    else if index == 1
    then some (codes "Access-Control-Request-Methods", codes "GET, POST")
    else if index == 2 && (if is_empty allowed_headers then false else true)
    then some (codes "Access-Control-Allow-Headers", allowed_headers)
    else none

-- A request is answered as a preflight request only if its method is OPTIONS and one of its headers
-- names the method that is asked for.
pub create_preflight-asked :
    (method : Method) (headers : List (Option Header)) (allowed : Bytes)
    → create_preflight method headers ≡ some allowed
    → (is_options method ≡ true)
      × ((find_asked
            (record { method_present = false; headers_value = none })
            headers).method_present
          ≡ true)
unfolding create_preflight
create_preflight-asked method headers allowed e = ground (arith, e)
