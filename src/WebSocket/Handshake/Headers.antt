-- ===== src/WebSocket/Handshake/Headers.antt =====
-- The headers of a request: what the search of WebSocket/WSRespSource.cpp keeps of them.
use mini_web_srv.Base.{
  ◌≡◌, ◌≢◌, ◌⊎◌, refl, sym, ap, ◌∙◌, Bool, true, false, Option, none, some, List, [], ◌∷◌, ◌++◌,
  Bytes, AreBytes, arith, inl, inr, subst,
}
use mini_web_srv.Http.HeaderLine.{
  Header, HeaderName, origin, upgrade, sec_websocket_key, sec_websocket_version,
  sec_websocket_protocol,
}
use mini_web_srv.WebSocket.Handshake.{Wanted, no_headers, want, find_wanted}

-- No header has the name.
abbrev pub Lacking : HeaderName → List (Option Header) → Type 0
Lacking n [] = Unit {0}
Lacking n (none ∷ hs) = Lacking n hs
Lacking n (some h ∷ hs) = (h.int_name ≢ n) × Lacking n hs

-- The last header of the name has the value.
abbrev pub IsLast : HeaderName → List (Option Header) → Bytes → Type 0
IsLast n hs v =
    (before : List (Option Header)) × (after : List (Option Header)) × (h : Header) × (hs
      ≡ before ++ some h ∷ after)
    × (h.int_name ≡ n)
    × (h.value ≡ v)
    × Lacking n after

-- The value of the last header of the name, if there is one.
abbrev pub Last : HeaderName → List (Option Header) → Option Bytes → Type 0
Last n hs none = Lacking n hs
Last n hs (some v) = IsLast n hs v

-- The values are bytes.
abbrev pub HaveBytes : List (Option Header) → Type 0
HaveBytes [] = Unit {0}
HaveBytes (none ∷ hs) = HaveBytes hs
HaveBytes (some h ∷ hs) = AreBytes h.value × HaveBytes hs

HaveBytes-at :
    (before after : List (Option Header)) (h : Header)
    → HaveBytes (before ++ some h ∷ after)
    → AreBytes h.value
HaveBytes-at [] after h (b, bs) = b
HaveBytes-at (none ∷ before) after h bs = HaveBytes-at before after h bs
HaveBytes-at (some x ∷ before) after h (b, bs) = HaveBytes-at before after h bs

pub HaveBytes-IsLast :
    (n : HeaderName) (hs : List (Option Header)) (v : Bytes)
    → HaveBytes hs
    → IsLast n hs v
    → AreBytes v
HaveBytes-IsLast n hs v b (before, after, h, e, i, q, l) =
    subst AreBytes q (HaveBytes-at before after h (subst HaveBytes e b))

HeaderName-discrete : Discrete HeaderName
HeaderName-discrete = hlevel

IsLast-or_Lacking :
    (n : HeaderName) (hs : List (Option Header)) → Lacking n hs ⊎ ((v : Bytes) × IsLast n hs v)
IsLast-or_Lacking n [] = inl tt
IsLast-or_Lacking n (none ∷ hs) = elim (IsLast-or_Lacking n hs) [
  | inl l ↦ inl l
  | inr (v, (before, after, h, e, i, q, l)) ↦
      inr (v, (none ∷ before, after, h, ap (◌∷◌ none) e, i, q, l))
]
IsLast-or_Lacking n (some x ∷ hs) = elim (IsLast-or_Lacking n hs) [
  | inl l ↦ elim (HeaderName-discrete x.int_name n) [
    | yes p ↦ inr (x.value, ([], hs, x, refl, p, refl, l))
    | no p ↦ inl (p, l)
  ]
  | inr (v, (before, after, h, e, i, q, l)) ↦
      inr (v, (some x ∷ before, after, h, ap (◌∷◌ (some x)) e, i, q, l))
]

-- The value that the search has for a name.
abbrev pub found : HeaderName → Wanted → Option Bytes
found upgrade w = w.upgrade_value
found sec_websocket_key w = w.key_value
found sec_websocket_version w = w.version_value
found sec_websocket_protocol w = w.protocol_value
found origin w = w.origin_value
found _ w = none

abbrev pub is_sought : HeaderName → Bool
is_sought upgrade = true
is_sought sec_websocket_key = true
is_sought sec_websocket_version = true
is_sought sec_websocket_protocol = true
is_sought origin = true
is_sought _ = false

found-want :
    (w : Wanted) (n : HeaderName) (v : Bytes) → is_sought n ≡ true → found n (want w n v) ≡ some v
found-want w upgrade v s = refl
found-want w sec_websocket_key v s = refl
found-want w sec_websocket_version v s = refl
found-want w sec_websocket_protocol v s = refl
found-want w origin v s = refl
found-want w _ v s = absurd (ground (arith, s))

found-want_other :
    (w : Wanted) (n m : HeaderName) (v : Bytes) → m ≢ n → found n (want w m v) ≡ found n w
found-want_other w upgrade upgrade v d = absurd (d refl)
found-want_other w upgrade _ v d = refl
found-want_other w sec_websocket_key sec_websocket_key v d = absurd (d refl)
found-want_other w sec_websocket_key _ v d = refl
found-want_other w sec_websocket_version sec_websocket_version v d = absurd (d refl)
found-want_other w sec_websocket_version _ v d = refl
found-want_other w sec_websocket_protocol sec_websocket_protocol v d = absurd (d refl)
found-want_other w sec_websocket_protocol _ v d = refl
found-want_other w origin origin v d = absurd (d refl)
found-want_other w origin _ v d = refl
found-want_other w _ m v d = refl

found-Lacking :
    (w : Wanted) (n : HeaderName) (hs : List (Option Header))
    → Lacking n hs
    → found n (find_wanted w hs) ≡ found n w
unfolding find_wanted
found-Lacking w n [] l = refl
found-Lacking w n (none ∷ hs) l = found-Lacking w n hs l
found-Lacking w n (some h ∷ hs) (d, l) =
    found-Lacking (want w h.int_name h.value) n hs l ∙ found-want_other w n h.int_name h.value d

found-last :
    (w : Wanted) (n : HeaderName) (before after : List (Option Header)) (h : Header)
    → is_sought n ≡ true
    → h.int_name ≡ n
    → Lacking n after
    → found n (find_wanted w (before ++ some h ∷ after)) ≡ some h.value
unfolding find_wanted
found-last w n [] after h s i l =
    found-Lacking (want w h.int_name h.value) n after l
    ∙ ap (λ x. found n (want w x h.value)) i
    ∙ found-want w n h.value s
found-last w n (none ∷ before) after h s i l = found-last w n before after h s i l
found-last w n (some x ∷ before) after h s i l =
    found-last (want w x.int_name x.value) n before after h s i l

found-no_headers : (n : HeaderName) → found n no_headers ≡ none
found-no_headers upgrade = refl
found-no_headers sec_websocket_key = refl
found-no_headers sec_websocket_version = refl
found-no_headers sec_websocket_protocol = refl
found-no_headers origin = refl
found-no_headers _ = refl

pub found-Last :
    (n : HeaderName) (hs : List (Option Header)) (v : Option Bytes)
    → is_sought n ≡ true
    → Last n hs v
    → found n (find_wanted no_headers hs) ≡ v
found-Last n hs none s l = found-Lacking no_headers n hs l ∙ found-no_headers n
found-Last n hs (some v) s (before, after, h, e, i, q, l) =
    ap (λ x. found n (find_wanted no_headers x)) e
    ∙ found-last no_headers n before after h s i l
    ∙ ap some q

-- The search finds the last header of each name that it seeks.
pub Last-found :
    (n : HeaderName) (hs : List (Option Header))
    → is_sought n ≡ true
    → Last n hs (found n (find_wanted no_headers hs))
Last-found n hs s = elim (IsLast-or_Lacking n hs) [
  | inl l ↦ subst (Last n hs) (sym (found-Last n hs none s l)) l
  | inr (v, l) ↦ subst (Last n hs) (sym (found-Last n hs (some v) s l)) l
]
