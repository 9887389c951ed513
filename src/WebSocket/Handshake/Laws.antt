-- ===== src/WebSocket/Handshake/Laws.antt =====
-- What is a WebSocket request, and its answer: WebSocket/WSRespSource.cpp.
use mini_web_srv.Base.{
  ℕ, ◌+◌, ◌≡◌, ◌≢◌, ◌↔◌, ◌⊎◌, refl, sym, subst, ap, ap₂, true, Bool-cases, inl, inr, Option, none,
  some, List, [], ◌∷◌, ◌++◌, Bytes, AreBytes, ◌&&◌, leb, map, arith, codes, length,
}
use mini_web_srv.Http.HeaderLine.{
  Header, to_lower, upgrade, sec_websocket_key, sec_websocket_version, sec_websocket_protocol,
  origin,
}
use mini_web_srv.Http.Delimited.{is_ws}
use mini_web_srv.Strings.{Sign, same, cmp_i, extract_trim_tokens}
use mini_web_srv.Strings.Compare.{cmp_i-same}
use mini_web_srv.WebSocket.Base64.Laws.{groups, alphabet_digit, base64_encode-groups}
use mini_web_srv.WebSocket.Handshake.{
  find_wanted, no_headers, is_valid_request, WsResponse, new_ws_response, create_ws_response,
  selected, is_same,
}
use mini_web_srv.WebSocket.Handshake.Headers.{IsLast, Last, HaveBytes, HaveBytes-IsLast, found-Last}
use mini_web_srv.WebSocket.Handshake.Version.{ReadsAs13, is_version_13_iff}

-- A text that is `ws` but for capitals, where `ws` is in small letters.
pub data InAnyCase : Bytes → Bytes → Type 0 where
  nothing : InAnyCase [] []
  small : {w : ℕ} {cs ws : Bytes} → InAnyCase cs ws → InAnyCase (w ∷ cs) (w ∷ ws)
  capital :
      {c w : ℕ} {cs ws : Bytes}
      → (leb b'A' c && leb c b'Z') ≡ true
      → w ≡ c + 32
      → InAnyCase cs ws
      → InAnyCase (c ∷ cs) (w ∷ ws)

abbrev AreSmall : Bytes → Type 0
AreSmall [] = Unit {0}
AreSmall (c ∷ cs) = ((leb b'a' c && leb c b'z') ≡ true) × AreSmall cs

InAnyCase-lower : {cs ws : Bytes} → InAnyCase cs ws → AreSmall ws → map to_lower cs ≡ ws
unfolding to_lower
InAnyCase-lower nothing a = refl
InAnyCase-lower (small {w = w} {cs = xs} {ws = ys} i) (a, rest) =
    ap₂ ◌∷◌ {x = to_lower w} {y = w} (ground (arith, a)) (InAnyCase-lower i rest)
InAnyCase-lower (capital {c = c} {w = w} {cs = xs} {ws = ys} b e i) (a, rest) =
    ap₂ ◌∷◌ {x = to_lower c} {y = w} (ground (arith, b, e)) (InAnyCase-lower i rest)

lower-InAnyCase : (cs : Bytes) → InAnyCase cs (map to_lower cs)
unfolding to_lower
lower-InAnyCase [] = nothing
lower-InAnyCase (c ∷ cs) = elim (Bool-cases (leb b'A' c && leb c b'Z')) [
  | inl b ↦ capital b (ground (arith, b)) (lower-InAnyCase cs)
  | inr b ↦
      let e : to_lower c ≡ c = ground (arith, b) in
      subst (λ x. InAnyCase (c ∷ cs) (x ∷ map to_lower cs)) (sym e) (small (lower-InAnyCase cs))
]

-- A request as RFC 6455 wants it, by its last headers: an upgrade to websocket in any case, a key, and
-- the version 13.
abbrev pub AsksWebSocket : List (Option Header) → Bytes → Type 0
AsksWebSocket headers key =
    (u : Bytes) × (v : Bytes) × IsLast upgrade headers u
    × InAnyCase u (codes "websocket")
    × IsLast sec_websocket_key headers key
    × IsLast sec_websocket_version headers v
    × ReadsAs13 v

websocket_bytes : AreBytes (codes "websocket")
websocket_bytes = (
  omega arith,
  (
    omega arith,
    (
      omega arith,
      (omega arith, (omega arith, (omega arith, (omega arith, (omega arith, (omega arith, tt)))))),
    ),
  ),
)

websocket_small : AreSmall (codes "websocket")
websocket_small = (refl, (refl, (refl, (refl, (refl, (refl, (refl, (refl, (refl, tt)))))))))

is_same_only : (s : Sign) → is_same s ≡ true → s ≡ same
is_same_only s e = ground (arith, e)

cmp_i-InAnyCase :
    (u : Bytes)
    → AreBytes u
    → (is_same (cmp_i u (codes "websocket")) ≡ true) ↔ InAnyCase u (codes "websocket")
unfolding to_lower
cmp_i-InAnyCase u b = (
  λ e.
      let low : map to_lower u ≡ codes "websocket" =
        (cmp_i-same u (codes "websocket") b websocket_bytes).0 (is_same_only _ e) in
      subst (InAnyCase u) low (lower-InAnyCase u),
  λ i.
      let low : map to_lower u ≡ codes "websocket" = InAnyCase-lower i websocket_small in
      ap is_same ((cmp_i-same u (codes "websocket") b websocket_bytes).1 low),
)

AsksWebSocket-is_valid_request :
    (headers : List (Option Header)) (key : Bytes)
    → HaveBytes headers
    → AsksWebSocket headers key
    → is_valid_request (find_wanted no_headers headers) ≡ true
unfolding is_valid_request
AsksWebSocket-is_valid_request headers key b (u, v, lu, c, lk, lv, r) =
    let up : (find_wanted no_headers headers).upgrade_value ≡ some u =
      found-Last upgrade headers (some u) refl lu in
    let k : (find_wanted no_headers headers).key_value ≡ some key =
      found-Last sec_websocket_key headers (some key) refl lk in
    let ver : (find_wanted no_headers headers).version_value ≡ some v =
      found-Last sec_websocket_version headers (some v) refl lv in
    let same_text = (cmp_i-InAnyCase u (HaveBytes-IsLast upgrade headers u b lu)).1 c in
    rw (is_valid_request, up, k, ver, same_text, (is_version_13_iff v).1 r) refl

-- The only one of the subprotocols that are left, or none.
abbrev pub Chosen : List Bytes → Bytes → Type 0
Chosen left sub = (left ≡ sub ∷ []) ⊎ ((length left ≢ 1) × (sub ≡ []))

Chosen-selected : (left : List Bytes) → Chosen left (selected left)
Chosen-selected [] = inr (ground arith, refl)
Chosen-selected (p ∷ []) = inl refl
Chosen-selected (p ∷ q ∷ left) = inr (ground arith, refl)

-- The subprotocols that a request offers.
abbrev pub offers : Option Bytes → List Bytes
offers none = []
offers (some v) = extract_trim_tokens is_ws b',' v

module _ {M : Type 0} (digest : Bytes → Bytes)
    (create_msg_handler : List Bytes → Option Bytes → Option M × List Bytes) where
  create_ws_response-made :
      (headers : List (Option Header)) (key : Bytes) (protocols from : Option Bytes) (m : M)
      (left : List Bytes)
      → is_valid_request (find_wanted no_headers headers) ≡ true
      → (find_wanted no_headers headers).key_value ≡ some key
      → (find_wanted no_headers headers).protocol_value ≡ protocols
      → (find_wanted no_headers headers).origin_value ≡ from
      → create_msg_handler (offers protocols) from ≡ (some m, left)
      → create_ws_response digest create_msg_handler headers
        ≡ (true, some (new_ws_response digest m key (selected left)))
  unfolding create_ws_response
  create_ws_response-made headers key none from m left valid k p o e =
      rw (create_ws_response, valid, p, o, e, k, p, o, e) refl
  create_ws_response-made headers key (some v) from m left valid k p o e =
      rw (create_ws_response, valid, p, o, e, k, p, o, e) refl

  -- Let the digest be 20 bytes and the header values be bytes. If a request asks for a WebSocket, and
  -- the program, given the subprotocols of the last such header (none without one) and the last origin,
  -- makes the handler `m` and leaves the subprotocols `left`, then the answer has `m`, the RFC 4648
  -- text of the digest of the last key with the GUID of RFC 6455 behind it, and the subprotocol that is
  -- left alone, or none.
  pub create_ws_response-AsksWebSocket :
      (headers : List (Option Header)) (key : Bytes) (protocols from : Option Bytes) (m : M)
      (left : List Bytes)
      → ((text : Bytes) → AreBytes (digest text) × (length (digest text) ≡ 20))
      → HaveBytes headers
      → AsksWebSocket headers key
      → Last sec_websocket_protocol headers protocols
      → Last origin headers from
      → create_msg_handler (offers protocols) from ≡ (some m, left)
      → (r : WsResponse M) × (create_ws_response digest create_msg_handler headers ≡ (true, some r))
        × (r.handler ≡ m)
        × (r.accept
            ≡ groups alphabet_digit (digest (key ++ codes "258EAFA5-E914-47DA-95CA-C5AB0DC85B11")))
        × Chosen left r.sub_protocol
  unfolding new_ws_response
  create_ws_response-AsksWebSocket headers key protocols from m left d b a p o e =
      let valid = AsksWebSocket-is_valid_request headers key b a in
      let k : (find_wanted no_headers headers).key_value ≡ some key =
        found-Last sec_websocket_key headers (some key) refl a.4 in
      let pv = found-Last sec_websocket_protocol headers protocols refl p in
      let ov = found-Last origin headers from refl o in
      let text : Bytes = key ++ codes "258EAFA5-E914-47DA-95CA-C5AB0DC85B11" in
      let (bytes, twenty) = d text in
      let some_bytes : digest text ≢ [] = λ n. ground (arith, twenty, ap length n) in
      (
        new_ws_response digest m key (selected left),
        create_ws_response-made headers key protocols from m left valid k pv ov e,
        refl,
        base64_encode-groups (digest text) bytes some_bytes,
        Chosen-selected left,
      )
