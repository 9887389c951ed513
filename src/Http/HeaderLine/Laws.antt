-- ===== src/Http/HeaderLine/Laws.antt =====
-- A header line in any case of letters, read by `ExtractHeader`.
use mini_web_srv.Base.{
  ℕ, zero, suc, ◌≡◌, refl, ap, Bool, some, [], ◌∷◌, ◌++◌, Bytes, map, ◌==◌, replicate,
}
use mini_web_srv.Query.Params.{str_eq}
use mini_web_srv.Http.RequestLine.RoundTrip.{Lacks, split_at-append}
use mini_web_srv.Http.HeaderLine.{
  HeaderName, unknown, host, connection, content_disposition, content_type, content_length,
  content_encoding, user_agent, if_mod_since, origin, upgrade, sec_websocket_key,
  sec_websocket_version, sec_websocket_protocol, last_modified, location, sec_websocket_accept,
  access_control_request_method, access_control_request_headers, get_header_name, find_name,
  parse_header, to_lower, c_string, skip_spaces, is_colon, is_cr, extract_header,
}

-- Every name of the table is found under its text.
pub parse_header-get_header_name : (h : HeaderName) → parse_header (get_header_name h) ≡ h
unfolding parse_header get_header_name find_name str_eq
parse_header-get_header_name unknown = refl
parse_header-get_header_name host = refl
parse_header-get_header_name connection = refl
parse_header-get_header_name content_disposition = refl
parse_header-get_header_name content_type = refl
parse_header-get_header_name content_length = refl
parse_header-get_header_name content_encoding = refl
parse_header-get_header_name user_agent = refl
parse_header-get_header_name if_mod_since = refl
parse_header-get_header_name origin = refl
parse_header-get_header_name upgrade = refl
parse_header-get_header_name sec_websocket_key = refl
parse_header-get_header_name sec_websocket_version = refl
parse_header-get_header_name sec_websocket_protocol = refl
parse_header-get_header_name last_modified = refl
parse_header-get_header_name location = refl
parse_header-get_header_name sec_websocket_accept = refl
parse_header-get_header_name access_control_request_method = refl
parse_header-get_header_name access_control_request_headers = refl

abbrev is_zero : ℕ → Bool
is_zero c = c == 0

c_string-Lacks : (s : Bytes) → Lacks is_zero s → c_string s ≡ s
unfolding c_string
c_string-Lacks [] h = refl
c_string-Lacks (c ∷ cs) h = rw h.0 (ap (◌∷◌ c) (c_string-Lacks cs h.1))

c_string-get_header_name : (h : HeaderName) → c_string (get_header_name h) ≡ get_header_name h
unfolding get_header_name c_string
c_string-get_header_name unknown = refl
c_string-get_header_name host = refl
c_string-get_header_name connection = refl
c_string-get_header_name content_disposition = refl
c_string-get_header_name content_type = refl
c_string-get_header_name content_length = refl
c_string-get_header_name content_encoding = refl
c_string-get_header_name user_agent = refl
c_string-get_header_name if_mod_since = refl
c_string-get_header_name origin = refl
c_string-get_header_name upgrade = refl
c_string-get_header_name sec_websocket_key = refl
c_string-get_header_name sec_websocket_version = refl
c_string-get_header_name sec_websocket_protocol = refl
c_string-get_header_name last_modified = refl
c_string-get_header_name location = refl
c_string-get_header_name sec_websocket_accept = refl
c_string-get_header_name access_control_request_method = refl
c_string-get_header_name access_control_request_headers = refl

-- A value as a client writes it: no zero, no line break, and no space in front.
pub record IsValue (v : Bytes) : Type 0 where
  pub no_zero : Lacks (λ c. c == 0) v
  pub no_break : Lacks is_cr v
  pub no_space : skip_spaces (v ++ b'\r' ∷ []) ≡ v ++ b'\r' ∷ []

skip_spaces-replicate : (n : ℕ) (s : Bytes) → skip_spaces (replicate n b' ' ++ s) ≡ skip_spaces s
unfolding skip_spaces
skip_spaces-replicate zero s = refl
skip_spaces-replicate (suc n) s = skip_spaces-replicate n s

-- A line of a known header, its name in any case of letters and any number of spaces in front of its
-- value, gives the name in lower case, the value and the header's number; the name has no colon, and
-- the value no zero, no line break and no space in front.
pub extract_header-known :
    (h : HeaderName) (s v : Bytes) (n : ℕ)
    → Lacks is_colon s
    → map to_lower s ≡ get_header_name h
    → IsValue v
    → extract_header (s ++ (b':' ∷ (replicate n b' ' ++ (v ++ b'\r' ∷ []))))
      ≡ some (record { name = get_header_name h; value = v; int_name = h })
unfolding extract_header
extract_header-known h s v n l e i =
    rw
      (
        extract_header,
        split_at-append is_colon s (replicate n b' ' ++ (v ++ b'\r' ∷ [])) b':' l refl,
        skip_spaces-replicate n (v ++ b'\r' ∷ []),
        i.no_space,
        split_at-append is_cr v [] b'\r' i.no_break refl,
        e,
        c_string-get_header_name h,
        c_string-Lacks v i.no_zero,
        parse_header-get_header_name h,
      )
      refl
