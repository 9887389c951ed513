-- ===== src/Http/Connection/Pipelined.antt =====
-- The requests that a client sends one behind the other: Connection.cpp, `ProtocolHandler`.
use mini_web_srv.Base.{
  ℕ, zero, suc, ◌≤◌, ◌<◌, ◌≡◌, refl, ap, ◌∙◌, subst, true, false, none, some, List, [], ◌∷◌, ◌++◌,
  Bytes, arith, length, map, append_assoc,
}
use mathlib.Core.List.{flatten}
use mini_web_srv.ReadBuff.{Buff, size, reset_relevant}
use mini_web_srv.ReadBuff.Inv.{IsValid, reset_relevant-IsValid}
use mini_web_srv.ReadBuff.View.{Stream, reset_relevant-view}
use mini_web_srv.Http.RequestLine.{Request, parse_request_line}
use mini_web_srv.Http.HeaderLine.{extract_header}
use mini_web_srv.Http.Head.{Head, waiting, header_handler, scan, more, fresh_head}
use mini_web_srv.Http.Head.Reads.{NoneEmpty, HasRoom, stream}
use mini_web_srv.Http.Head.Chunks.{Agrees, header_handler-Agrees}
use mini_web_srv.Http.Head.Text.{head_text, AreLines, header_handler-head_text}
use mini_web_srv.Http.Connection.{
  Env, waits, Handled, protocol_loop, answer, after_headers, reset_request, is_post, is_keep_alive,
}
use mini_web_srv.Http.Connection.Laws.{Keeps, header_handler-Keeps}

-- A request without content: its first line, its header lines, and what they say.
pub record Sent : Type 0 where
  pub first : Bytes
  pub lines : List Bytes
  pub request : Request

abbrev pub sent_text : Sent → Bytes
sent_text s = head_text s.first s.lines

abbrev pub sent_handled : Sent → Handled
sent_handled s = record {
  request = s.request;
  headers = map extract_header s.lines;
  content = none;
}

abbrev pub texts : List Sent → Bytes
texts [] = []
texts (s ∷ ss) = sent_text s ++ texts ss

reset_relevant-room :
    (b : Buff) → (size (reset_relevant b) ≡ size b) × ((reset_relevant b).data_end ≤ b.data_end)
unfolding reset_relevant
reset_relevant-room b = ground arith

module _ (env : Env) where
  -- A request that is read, answered and does not end the connection.
  abbrev pub IsAnswered : Sent → Type 0
  IsAnswered s =
      AreLines (s.first ∷ s.lines)
      × (parse_request_line reset_request s.first ≡ some (s.request, true))
      × (is_post s.request.method ≡ false)
      × (is_keep_alive s.request.version (map extract_header s.lines) ≡ true)
      × (env.respond (sent_handled s) ≡ true)

  abbrev pub AreAnswered : List Sent → Type 0
  AreAnswered [] = Unit {0}
  AreAnswered (s ∷ ss) = IsAnswered s × AreAnswered ss

  -- A round: the request is handled, and the loop goes on with what is behind it.
  round :
      (fuel : ℕ) (b : Buff) (reads : List Bytes) (s : Sent) (rest : Bytes)
      → IsValid b
      → NoneEmpty reads
      → HasRoom b reads
      → stream b reads ≡ sent_text s ++ rest
      → IsAnswered s
      → (b' : Buff) × (rs : List Bytes) × (protocol_loop env (suc fuel) b reads
          ≡ elim (protocol_loop env fuel b' rs) [
            | none ↦ none
            | some (hs, e) ↦ some (sent_handled s ∷ hs, e)
          ])
        × IsValid b'
        × NoneEmpty rs
        × HasRoom b' rs
        × (stream b' rs ≡ rest)
  unfolding protocol_loop answer after_headers
  round fuel b reads s rest v ne room t (lines, parsed, get, alive, ok) =
      let (b', rs, o, v', kept, left) =
        header_handler-head_text reset_request s.request b reads s.first s.lines rest v ne room t
          lines parsed in
      let (same, ends_at, ne') =
        subst (Keeps b reads) o (header_handler-Keeps reset_request b reads v ne room) in
      (
        reset_relevant b',
        rs,
        rw (protocol_loop, o, after_headers, get, answer, ok, alive) refl,
        reset_relevant-IsValid v',
        ne',
        (let (z, d) = reset_relevant-room b' in omega (arith, z, d, same, ends_at, room)),
        ap (λ (x : Stream). x.pending ++ flatten rs) (reset_relevant-view v') ∙ left,
      )

  -- Any requests without content that a client sends one behind the other, in any reads, are handled in
  -- order, each as it was sent, and then the loop waits for the rest of what has come.
  pub protocol_loop-texts :
      (fuel : ℕ) (b : Buff) (reads : List Bytes) (ss : List Sent) (rest : Bytes) (h : Head)
      → IsValid b
      → NoneEmpty reads
      → HasRoom b reads
      → stream b reads ≡ texts ss ++ rest
      → AreAnswered ss
      → scan (fresh_head reset_request) rest ≡ more h
      → length ss < fuel
      → protocol_loop env fuel b reads ≡ some (map sent_handled ss, waits)
  unfolding protocol_loop
  protocol_loop-texts zero b reads ss rest h v ne room t a e l = absurd (omega arith)
  protocol_loop-texts (suc fuel) b reads [] rest h v ne room t a e l =
      let o : header_handler reset_request b reads ≡ some waiting =
        subst (λ x. Agrees b reads x (header_handler reset_request b reads))
          (ap (scan (fresh_head reset_request)) t ∙ e)
          (header_handler-Agrees reset_request b reads v ne room) in
      rw (protocol_loop, o) refl
  protocol_loop-texts (suc fuel) b reads (s ∷ ss) rest h v ne room t a e l =
      let (b', rs, o, v', ne', room', left) =
        round fuel b reads s (texts ss ++ rest) v ne room
          (t ∙ append_assoc (sent_text s) (texts ss) rest) a.0 in
      o
      ∙ rw (protocol_loop-texts fuel b' rs ss rest h v' ne' room' left a.1 e (omega (arith, l)))
          refl
