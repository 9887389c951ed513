-- ===== src/WebSocket/Frame/RoundTrip.antt =====
-- Frames as RFC 6455 5.2 lays them out for a client, read back by `ProcessIncoming`.
use mini_web_srv.Base.{
  ℕ, ◌+◌, ◌-◌, ◌/◌, ◌%◌, ◌^◌, ◌≤◌, ◌<◌, ◌≡◌, refl, sym, ap, ◌∙◌, Bool, true, false, [], ◌∷◌, ◌++◌,
  Bytes, AreBytes, none, arith, ltb, ◌==◌, if◌then◌else◌, Bool-cases, ltb→lt, inl, inr, length,
  take, length-append, take-append-length,
}
use mini_web_srv.WebSocket.Mask.{load32, unmask}
use mini_web_srv.WebSocket.Mask.Laws.{mask_with, unmask_twice, length-mask_with}
use mini_web_srv.WebSocket.Frame.{
  Conn, known, header_length, is_masked, dispatch, process_frame, frame_length_of, big16, big64,
  process_known, process_incoming, frame_done, unknown_frame_length, max_frame_size,
}

abbrev pub first_octet : Bool → ℕ → ℕ
first_octet fin op = (if fin then 128 else 0) + op

-- The octets before the payload: FIN and opcode, the mask bit and the length, and the key.
abbrev pub short_header : Bool → ℕ → ℕ → Bytes → Bytes
short_header fin op n key = first_octet fin op ∷ (128 + n) ∷ key

abbrev pub medium_header : Bool → ℕ → ℕ → Bytes → Bytes
medium_header fin op n key = first_octet fin op ∷ (128 + 126) ∷ n / 2 ^ 8 ∷ n % 2 ^ 8 ∷ key

abbrev pub long_header : Bool → ℕ → ℕ → Bytes → Bytes
long_header fin op n key =
    first_octet fin op
    ∷ (128 + 127)
    ∷ n / 2 ^ 56 % 2 ^ 8
    ∷ n / 2 ^ 48 % 2 ^ 8
    ∷ n / 2 ^ 40 % 2 ^ 8
    ∷ n / 2 ^ 32 % 2 ^ 8
    ∷ n / 2 ^ 24 % 2 ^ 8
    ∷ n / 2 ^ 16 % 2 ^ 8
    ∷ n / 2 ^ 8 % 2 ^ 8
    ∷ n % 2 ^ 8
    ∷ key

first_octet-fin : (fin : Bool) (op : ℕ) → op < 16 → (first_octet fin op / 2 ^ 7 % 2 == 1) ≡ fin
first_octet-fin true op h = ground arith
first_octet-fin false op h = ground arith

first_octet-op : (fin : Bool) (op : ℕ) → op < 16 → first_octet fin op % 2 ^ 4 ≡ op
first_octet-op true op h = omega arith
first_octet-op false op h = omega arith

module _ (w2 w3 : ℕ) (c : Conn) (fin : Bool) (op : ℕ) (k0 k1 k2 k3 : ℕ) (payload rest : Bytes) where
  abbrev key : Bytes
  key = k0 ∷ k1 ∷ k2 ∷ k3 ∷ []

  abbrev masked : Bytes
  masked = mask_with k0 k1 k2 k3 payload

  take-masked : (n : ℕ) → n ≡ length payload → take n (masked ++ rest) ≡ masked
  take-masked n e =
      ap (λ j. take j (masked ++ rest)) (e ∙ sym (length-mask_with k0 k1 k2 k3 payload))
      ∙ take-append-length masked rest

  process_frame-short :
      (total : ℕ)
      → length payload < 126
      → op < 16
      → AreBytes key
      → AreBytes payload
      → process_frame w2 w3
          (record c { frame_length = total })
          (short_header fin op (length payload) key ++ (masked ++ rest))
          (6 + length payload)
        ≡ dispatch w2 w3 (record c { frame_length = total }) fin op payload
  unfolding process_frame
  process_frame-short total h ho hk hp =
      let n = length payload in
      let m : is_masked (128 + n) ≡ true = ground arith in
      let pos : header_length (128 + n) ≡ 6 = unfold header_length in ground arith in
      let len : (6 + n + 2 ^ 32 - 6) % 2 ^ 32 ≡ n = omega arith in
      let fits : ltb (length (short_header fin op n key ++ (masked ++ rest))) (6 + n) ≡ false =
        ground (arith, length-append masked rest, length-mask_with k0 k1 k2 k3 payload) in
      let body =
        ap (unmask (load32 k0 k1 k2 k3)) (take-masked n refl)
        ∙ unmask_twice k0 k1 k2 k3 payload hk hp in
      rw (m, pos, len, fits, body, first_octet-fin fin op ho, first_octet-op fin op ho)

  process_frame-medium :
      (total : ℕ)
      → length payload < 2 ^ 16
      → op < 16
      → AreBytes key
      → AreBytes payload
      → process_frame w2 w3
          (record c { frame_length = total })
          (medium_header fin op (length payload) key ++ (masked ++ rest))
          (8 + length payload)
        ≡ dispatch w2 w3 (record c { frame_length = total }) fin op payload
  unfolding process_frame
  process_frame-medium total h ho hk hp =
      let n = length payload in
      let pos : header_length (128 + 126) ≡ 8 = unfold header_length in refl in
      let len : (8 + n + 2 ^ 32 - 8) % 2 ^ 32 ≡ n = omega arith in
      let fits : ltb (length (medium_header fin op n key ++ (masked ++ rest))) (8 + n) ≡ false =
        ground (arith, length-append masked rest, length-mask_with k0 k1 k2 k3 payload) in
      let body =
        ap (unmask (load32 k0 k1 k2 k3)) (take-masked n refl)
        ∙ unmask_twice k0 k1 k2 k3 payload hk hp in
      rw (pos, len, fits, body, first_octet-fin fin op ho, first_octet-op fin op ho)

  frame_length_of-short :
      length payload < 126
      → frame_length_of (short_header fin op (length payload) key ++ (masked ++ rest))
        ≡ known (6 + length payload)
  unfolding frame_length_of
  frame_length_of-short h = ground arith

  frame_length_of-medium :
      length payload < 2 ^ 16
      → frame_length_of (medium_header fin op (length payload) key ++ (masked ++ rest))
        ≡ known (8 + length payload)
  unfolding frame_length_of big16
  frame_length_of-medium h = ground arith

  frame_length_of-long :
      length payload < 2 ^ 32
      → frame_length_of (long_header fin op (length payload) key ++ (masked ++ rest))
        ≡ known (8 + length payload)
  unfolding frame_length_of big64 big16
  frame_length_of-long h = ground arith

  -- All of a frame of at most the maximal size is at hand.
  process_known_all :
      (buff : Bytes) (n : ℕ)
      → n ≤ max_frame_size
      → n ≤ length buff
      → process_known w2 w3 c buff n ≡ record {
        outcome = frame_done (process_frame w2 w3 (record c { frame_length = n }) buff n);
        consumed = n;
        requested = none;
      }
  unfolding process_known
  process_known_all buff n h k = ground arith

  process_incoming_known :
      (buff : Bytes) (n : ℕ)
      → c.frame_length ≡ unknown_frame_length
      → frame_length_of buff ≡ known n
      → n ≤ max_frame_size
      → n ≤ length buff
      → process_incoming w2 w3 c buff ≡ record {
        outcome = frame_done (process_frame w2 w3 (record c { frame_length = n }) buff n);
        consumed = n;
        requested = none;
      }
  unfolding process_incoming
  process_incoming_known buff n u e h k = ground (arith, process_known_all buff n h k)

  process_incoming-short :
      c.frame_length ≡ unknown_frame_length
      → length payload < 126
      → op < 16
      → AreBytes key
      → AreBytes payload
      → process_incoming w2 w3 c (short_header fin op (length payload) key ++ (masked ++ rest))
        ≡ record {
          outcome =
              frame_done
                (dispatch w2 w3 (record c { frame_length = 6 + length payload }) fin op payload);
          consumed = 6 + length payload;
          requested = none;
        }
  process_incoming-short u h ho hk hp =
      let n = 6 + length payload in
      let buff = short_header fin op (length payload) key ++ (masked ++ rest) in
      let at_hand : n ≤ length buff =
        omega (arith, length-mask_with k0 k1 k2 k3 payload, length-append masked rest) in
      process_incoming_known buff n u (frame_length_of-short h) (omega arith) at_hand
      ∙ ap (λ o. record { outcome = frame_done o; consumed = n; requested = none })
          (process_frame-short n h ho hk hp)

  process_incoming-medium :
      c.frame_length ≡ unknown_frame_length
      → length payload < 2 ^ 16
      → op < 16
      → AreBytes key
      → AreBytes payload
      → process_incoming w2 w3 c (medium_header fin op (length payload) key ++ (masked ++ rest))
        ≡ record {
          outcome =
              frame_done
                (dispatch w2 w3 (record c { frame_length = 8 + length payload }) fin op payload);
          consumed = 8 + length payload;
          requested = none;
        }
  process_incoming-medium u h ho hk hp =
      let n = 8 + length payload in
      let buff = medium_header fin op (length payload) key ++ (masked ++ rest) in
      let at_hand : n ≤ length buff =
        omega (arith, length-mask_with k0 k1 k2 k3 payload, length-append masked rest) in
      process_incoming_known buff n u (frame_length_of-medium h) (omega arith) at_hand
      ∙ ap (λ o. record { outcome = frame_done o; consumed = n; requested = none })
          (process_frame-medium n h ho hk hp)

-- The frame that a client sends for a payload of less than 2 ^ 16 octets.
unfoldable pub client_frame : Bool → ℕ → ℕ → ℕ → ℕ → ℕ → Bytes → Bytes
client_frame fin op k0 k1 k2 k3 payload =
    (if ltb (length payload) 126
      then short_header fin op (length payload) (k0 ∷ k1 ∷ k2 ∷ k3 ∷ [])
      else medium_header fin op (length payload) (k0 ∷ k1 ∷ k2 ∷ k3 ∷ []))
    ++ mask_with k0 k1 k2 k3 payload

-- Before a frame, `ProcessIncoming` reads a client's frame with a 7 or 16 bit length, whatever
-- follows it: it consumes exactly the frame, asks for no more data, and acts on the payload as it
-- was before masking, under the frame's FIN bit and opcode.
pub process_incoming-client_frame :
    (w2 w3 : ℕ) (c : Conn) (fin : Bool) (op k0 k1 k2 k3 : ℕ) (payload rest : Bytes)
    → c.frame_length ≡ unknown_frame_length
    → op < 16
    → AreBytes (k0 ∷ k1 ∷ k2 ∷ k3 ∷ [])
    → AreBytes payload
    → length payload < 2 ^ 16
    → let n = length (client_frame fin op k0 k1 k2 k3 payload) in
      process_incoming w2 w3 c (client_frame fin op k0 k1 k2 k3 payload ++ rest) ≡ record {
        outcome = frame_done (dispatch w2 w3 (record c { frame_length = n }) fin op payload);
        consumed = n;
        requested = none;
      }
unfolding client_frame
process_incoming-client_frame w2 w3 c fin op k0 k1 k2 k3 payload rest u ho hk hp h =
    let size = length-mask_with k0 k1 k2 k3 payload in
    elim (Bool-cases (ltb (length payload) 126)) [
      | inl short ↦ rw short (
          let e : 6 + length payload
              ≡ length (
                  short_header fin op (length payload) (k0 ∷ k1 ∷ k2 ∷ k3 ∷ [])
                  ++ mask_with k0 k1 k2 k3 payload) =
            omega (arith, size) in
          rw (← e) (
            process_incoming-short w2 w3 c fin op k0 k1 k2 k3 payload rest u (ltb→lt _ _ short) ho
              hk hp))
      | inr long ↦ rw long (
          let e : 8 + length payload
              ≡ length (
                  medium_header fin op (length payload) (k0 ∷ k1 ∷ k2 ∷ k3 ∷ [])
                  ++ mask_with k0 k1 k2 k3 payload) =
            omega (arith, size) in
          rw (← e) (process_incoming-medium w2 w3 c fin op k0 k1 k2 k3 payload rest u h ho hk hp))
    ]
