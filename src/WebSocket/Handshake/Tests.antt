-- ===== src/WebSocket/Handshake/Tests.antt =====
-- The theorems on the handshake at concrete inputs, and the headers of an answer.
use mini_web_srv.Base.{
  ℕ, ◌≡◌, refl, true, false, none, some, Option, List, [], ◌∷◌, ◌++◌, inl, Bytes, arith, codes,
}
use mini_web_srv.Http.HeaderLine.{
  Header, upgrade, sec_websocket_key, sec_websocket_version, sec_websocket_protocol,
}
use mini_web_srv.Http.Delimited.{is_ws}
use mini_web_srv.Strings.{
  extract_trim_tokens, extract_tokens, extract_from, trim_tokens, trim, trim_front, trim_back,
}
use mini_web_srv.WebSocket.Handshake.{
  WsResponse, create_ws_response, atoi, skip_white, digits_value,
}
use mini_web_srv.WebSocket.Base64.Laws.{groups, alphabet_digit}
use mini_web_srv.WebSocket.Handshake.Headers.{HaveBytes}
use mini_web_srv.WebSocket.Handshake.Version.{ReadsAs13}
use mini_web_srv.WebSocket.Handshake.Laws.{
  AsksWebSocket, InAnyCase, nothing, small, capital, Chosen, create_ws_response-AsksWebSocket,
}

abbrev digest : Bytes → Bytes
digest text = codes "01234567890123456789"

-- A program that takes the first subprotocol.
abbrev first_of : List Bytes → List Bytes
first_of [] = []
first_of (p ∷ ps) = p ∷ []

abbrev create_msg_handler : List Bytes → Option Bytes → Option ℕ × List Bytes
create_msg_handler offered from = (some 1, first_of offered)

abbrev headers : List (Option Header)
headers =
    some (record { name = codes "upgrade"; value = codes "WebSocket"; int_name = upgrade })
    ∷ none
    ∷ some (record {
      name = codes "sec-websocket-key";
      value = codes "k";
      int_name = sec_websocket_key;
    })
    ∷ some (record {
      name = codes "sec-websocket-version";
      value = codes "13";
      int_name = sec_websocket_version;
    })
    ∷ some (record {
      name = codes "sec-websocket-protocol";
      value = codes "a, b";
      int_name = sec_websocket_protocol;
    })
    ∷ []

atoi_sample : atoi (codes " +13x") ≡ (false, 13)
unfolding atoi skip_white digits_value
atoi_sample = refl

headers_HaveBytes : HaveBytes headers
headers_HaveBytes = ground arith

-- `WebSocket` but for its capitals.
in_any_case : InAnyCase (codes "WebSocket") (codes "websocket")
in_any_case =
    capital refl refl
      (small (small (capital refl refl (small (small (small (small (small nothing))))))))

reads_13 : ReadsAs13 (codes "13")
reads_13 = ([], [], codes "13", tt, inl refl, ([], [], tt, refl, refl), refl)

asks : AsksWebSocket headers (codes "k")
asks = (
  codes "WebSocket",
  codes "13",
  ([], _, _, refl, refl, refl, ground arith),
  in_any_case,
  (_ ∷ none ∷ [], _, _, refl, refl, refl, ground arith),
  (_ ∷ none ∷ _ ∷ [], _, _, refl, refl, refl, ground arith),
  reads_13,
)

create_ws_response-AsksWebSocket_example :
    (r : WsResponse ℕ) × (create_ws_response digest create_msg_handler headers ≡ (true, some r))
    × (r.handler ≡ 1)
    × (r.accept
        ≡ groups alphabet_digit
            (digest (codes "k" ++ codes "258EAFA5-E914-47DA-95CA-C5AB0DC85B11")))
    × Chosen (codes "a" ∷ []) r.sub_protocol
unfolding extract_trim_tokens extract_tokens extract_from trim_tokens trim trim_front trim_back
    is_ws
create_ws_response-AsksWebSocket_example =
    create_ws_response-AsksWebSocket digest create_msg_handler headers (codes "k")
      (some (codes "a, b")) none 1 (codes "a" ∷ []) (λ text. (ground arith, refl)) headers_HaveBytes
      asks (_ ∷ none ∷ _ ∷ _ ∷ [], [], _, refl, refl, refl, tt) (ground arith) refl
