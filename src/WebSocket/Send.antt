-- ===== src/WebSocket/Send.antt =====
-- WebSocket/WSConnection.cpp, `Allocate`: the header that is put in front of a message to send.
use mini_web_srv.Base.{
  ℕ, ◌+◌, ◌*◌, ◌/◌, ◌%◌, ◌^◌, ◌≤◌, ◌<◌, ◌≡◌, ◌≢◌, ◌⊎◌, Option, none, some, [], ◌∷◌, Bytes, arith,
  ltb, ◌==◌, if◌then◌else◌, length,
}
use mini_web_srv.WebSocket.Frame.{MessageType, text, binary}

abbrev pub get_opcode : MessageType → ℕ
get_opcode text = 1
get_opcode binary = 2

-- The limit below which 16 bits are used for the length.
abbrev pub medium_limit : ℕ
medium_limit = 655356

-- `FrameLength`, cast to `unsigned int` for `WriteBuff.Allocate`.
unfoldable pub frame_size : ℕ → ℕ
frame_size len =
    (len + (if ltb len 126 then 2 else if ltb len medium_limit then 2 + 2 else 2 + 8))
    % 2 ^ 64
    % 2 ^ 32

unfoldable pub frame_header : MessageType → ℕ → Bytes
frame_header t len =
    (128 + get_opcode t)
    ∷ (if ltb len 126
        then len ∷ []
        else if ltb len medium_limit
        then 126 ∷ len % 2 ^ 16 / 2 ^ 8 ∷ len % 2 ^ 8 ∷ []
        else 127
          ∷ len / 2 ^ 56 % 2 ^ 8
          ∷ len / 2 ^ 48 % 2 ^ 8
          ∷ len / 2 ^ 40 % 2 ^ 8
          ∷ len / 2 ^ 32 % 2 ^ 8
          ∷ len / 2 ^ 24 % 2 ^ 8
          ∷ len / 2 ^ 16 % 2 ^ 8
          ∷ len / 2 ^ 8 % 2 ^ 8
          ∷ len % 2 ^ 8
          ∷ [])

-- The payload length that a header without a mask announces (RFC 6455 5.2).
unfoldable pub announced : Bytes → Option ℕ
announced (b0 ∷ n ∷ []) = if ltb n 126 then some n else none
announced (b0 ∷ n ∷ x1 ∷ x0 ∷ []) = if n == 126 then some (x1 * 2 ^ 8 + x0) else none
announced (b0 ∷ n ∷ x7 ∷ x6 ∷ x5 ∷ x4 ∷ x3 ∷ x2 ∷ x1 ∷ x0 ∷ []) =
    if n == 127
    then some (
        x7 * 2 ^ 56
        + x6 * 2 ^ 48
        + x5 * 2 ^ 40
        + x4 * 2 ^ 32
        + x3 * 2 ^ 24
        + x2 * 2 ^ 16
        + x1 * 2 ^ 8
        + x0)
    else none
announced bs = none

-- For a message of less than 2 ^ 16 bytes, or of at least 655356 and less than 2 ^ 32 - 10, the header
-- announces the message's length, and the buffer that is asked for holds the header and the message
-- exactly.
pub announced-frame_header :
    (t : MessageType) (len : ℕ)
    → (len < 2 ^ 16) ⊎ (medium_limit ≤ len)
    → len + 10 < 2 ^ 32
    → (announced (frame_header t len) ≡ some len)
      × (frame_size len ≡ length (frame_header t len) + len)
unfolding announced frame_header frame_size
announced-frame_header t len h k = ground arith

-- From 2 ^ 16 up to 655356 the header announces another length, the last 16 bits of it.
pub frame_header_truncates :
    (t : MessageType) (len : ℕ)
    → 2 ^ 16 ≤ len
    → len < medium_limit
    → (announced (frame_header t len) ≡ some (len % 2 ^ 16))
      × (announced (frame_header t len) ≢ some len)
unfolding announced frame_header
frame_header_truncates t len h k = ground arith
