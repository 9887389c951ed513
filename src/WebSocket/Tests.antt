-- ===== src/WebSocket/Tests.antt =====
-- Runs of the frame parser on frames of a client, and the theorems at concrete inputs.
use mini_web_srv.Base.{
  ◌+◌, ◌≡◌, ◌≢◌, refl, inl, true, false, List, [], ◌∷◌, ◌++◌, Bytes, none, some, arith, length,
  codes,
}
use mini_web_srv.WebSocket.Mask.Laws.{mask_with}
use mini_web_srv.WebSocket.Frame.{
  fresh_conn, returned, message, text, dispatch, frame_done, process_incoming,
}
use mini_web_srv.WebSocket.Frame.RoundTrip.{client_frame, process_incoming-client_frame}
use mini_web_srv.WebSocket.Frame.Fragments.{run_frames, message_frames, run_frames-message_frames}
use mini_web_srv.WebSocket.Session.{
  Session, start, on_step, Input, read, read_failed, write_done, stopped, run, on_read_error,
  on_write, start_async_write_external, handle, start_writes, posted_write,
}
use mini_web_srv.WebSocket.Session.Laws.{RunClosesOnce, silent_drops, run-ClosesOnce}
use mini_web_srv.WebSocket.Session.Idle.{Reached, started, handled, Reached-idle}
use mini_web_srv.WebSocket.Send.{
  announced, frame_header, frame_size, announced-frame_header, frame_header_truncates,
}
use mini_web_srv.WebSocket.Base64.{
  bin6_to_base64, encode_step, encode_loop, encode_end, base64_encode,
}
use mini_web_srv.WebSocket.Base64.Laws.{groups, alphabet_digit, base64_encode-groups}
use mini_web_srv.WebSocket.Base64.Decode.{base64_decode, base64_decode-base64_encode}

abbrev hello : Bytes
hello = codes "Hello"

-- The example of RFC 6455 5.7.
hello_frame :
    client_frame true 1 0x37 0xfa 0x21 0x3d hello
    ≡ 0x81 ∷ 0x85 ∷ 0x37 ∷ 0xfa ∷ 0x21 ∷ 0x3d ∷ 0x7f ∷ 0x9f ∷ 0x4d ∷ 0x51 ∷ 0x58 ∷ []
unfolding client_frame mask_with
hello_frame = refl

process_incoming-client_frame_example :
    process_incoming 0 0 fresh_conn (client_frame true 1 0x37 0xfa 0x21 0x3d hello ++ (1 ∷ 2 ∷ []))
    ≡ record {
      outcome = frame_done (dispatch 0 0 (record fresh_conn { frame_length = 11 }) true 1 hello);
      consumed = 11;
      requested = none;
    }
unfolding client_frame mask_with
process_incoming-client_frame_example =
    process_incoming-client_frame 0 0 fresh_conn true 1 0x37 0xfa 0x21 0x3d hello (1 ∷ 2 ∷ []) refl
      (omega arith) (omega arith) (omega arith) (omega arith)

run_frames-message_frames_example :
    run_frames 0 0 (message_frames 1 (codes "He") (codes "l" ∷ []) (codes "lo")) fresh_conn
    ≡ returned 0 fresh_conn (message text hello ∷ [])
run_frames-message_frames_example =
    run_frames-message_frames 0 0 fresh_conn 1 (codes "He") (codes "l" ∷ []) (codes "lo") refl refl
      (omega arith) (omega arith) (omega arith)

abbrev zeros : Bytes
zeros = 0 ∷ 0 ∷ 0 ∷ 0 ∷ 0 ∷ 0 ∷ 0 ∷ 0 ∷ 0 ∷ 0 ∷ 0 ∷ 0 ∷ []

abbrev history : List Input
history = read (0x88 ∷ 0x80 ∷ 1 ∷ 2 ∷ 3 ∷ 4 ∷ []) 1 ∷ write_done 0 ∷ read_failed ∷ stopped 0 ∷ []

run-ClosesOnce_example :
    RunClosesOnce (start zeros) (silent_drops history) (run (λ n. 0) 0 0 (start zeros) history)
run-ClosesOnce_example = run-ClosesOnce (λ n. 0) 0 0 (start zeros) history

-- A connection that sends, whose read fails while the write is under way, and whose write ends.
abbrev sending : Session
sending = start_writes 1 (start zeros)

abbrev unread : Session
unread = record sending {
  conn = record fresh_conn { handler = false };
  safe_read = true;
  reading = false;
}

abbrev idle : Session
idle = record unread { safe_write = true; writes = 0 }

idle_Reached : Reached (λ n. 0) 0 0 idle
unfolding start handle start_writes start_async_write_external on_read_error on_write
idle_Reached =
    handled (write_done 0)
      (handled read_failed
        (handled {s' = sending} (posted_write 1) (started zeros) (omega arith) refl) refl refl)
      (omega arith, omega arith) refl

Reached-idle_example : (idle.reading ≡ false) × (idle.writes ≡ 0) × (idle.conn.handler ≡ false)
unfolding on_step start start_writes
Reached-idle_example =
    Reached-idle (λ n. 0) 0 0 idle (record idle { silent_time = 5 }) 5 [] idle_Reached refl

announced-frame_header_example :
    (announced (frame_header text 300) ≡ some 300)
    × (frame_size 300 ≡ length (frame_header text 300) + 300)
announced-frame_header_example = announced-frame_header text 300 (inl (omega arith)) (omega arith)

frame_header_truncates_example :
    (announced (frame_header text 65536) ≡ some 0)
    × (announced (frame_header text 65536) ≢ some 65536)
frame_header_truncates_example = frame_header_truncates text 65536 (omega arith) (omega arith)

-- The example of RFC 4648 10, and the empty text, which is no group.
base64_samples : (base64_encode (codes "foob") ≡ codes "Zm9vYg==") × (base64_encode [] ≡ codes "A=")
unfolding base64_encode encode_loop encode_step encode_end bin6_to_base64
base64_samples = (refl, refl)

base64_encode-groups_example : base64_encode (codes "fo") ≡ groups alphabet_digit (codes "fo")
base64_encode-groups_example =
    base64_encode-groups (codes "fo") (omega arith, (omega arith, tt)) (ground arith)

base64_decode-base64_encode_example : base64_decode (base64_encode (codes "fo")) ≡ codes "fo"
base64_decode-base64_encode_example =
    base64_decode-base64_encode (codes "fo") (omega arith, (omega arith, tt)) (ground arith)
