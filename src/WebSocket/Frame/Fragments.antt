-- ===== src/WebSocket/Frame/Fragments.antt =====
-- A message in fragments, as `ProcessFrame` assembles it.
use mini_web_srv.Base.{
  ℕ, ◌≤◌, ◌<◌, ◌≡◌, ◌≢◌, sym, ap, ◌∙◌, Bool, true, false, List, [], ◌∷◌, ◌++◌, Bytes, arith, ◌==◌,
  if◌then◌else◌, length, length-append, append_assoc,
}
use mini_web_srv.WebSocket.Frame.{
  Conn, Outcome, returned, fault, message, cr_none, get_message_type, max_fragmented_size, dispatch,
  ocn_continuation,
}

pub record Fragment : Type 0 where
  pub fin : Bool
  pub op : ℕ
  pub payload : Bytes

-- Frames one after another, up to the first that does not return `CR_NONE`.
abbrev pub then_run : (Conn → Outcome) → Outcome → Outcome
then_run k fault = fault
then_run k (returned reason c es) =
    if reason == cr_none
    then (elim (k c) [ fault ↦ fault | returned r c' es' ↦ returned r c' (es ++ es') ])
    else returned reason c es

unfoldable pub run_frames : ℕ → ℕ → List Fragment → Conn → Outcome
run_frames w2 w3 [] c = returned cr_none c []
run_frames w2 w3 (f ∷ fs) c = then_run (run_frames w2 w3 fs) (dispatch w2 w3 c f.fin f.op f.payload)

abbrev pub joined : List Bytes → Bytes
joined [] = []
joined (p ∷ ps) = p ++ joined ps

-- The frames of one message: a first one, continuations, and a last continuation with FIN.
abbrev pub rest_frames : List Bytes → Bytes → List Fragment
rest_frames [] last = record { fin = true; op = ocn_continuation; payload = last } ∷ []
rest_frames (p ∷ ps) last =
    record { fin = false; op = ocn_continuation; payload = p } ∷ rest_frames ps last

abbrev pub message_frames : ℕ → Bytes → List Bytes → Bytes → List Fragment
message_frames op first middle last =
    record { fin = false; op = op; payload = first } ∷ rest_frames middle last

run_rest_frames :
    (w2 w3 : ℕ) (middle : List Bytes) (last : Bytes) (c : Conn)
    → c.frag_op ≢ 0
    → c.handler ≡ true
    → length (c.frag_data ++ (joined middle ++ last)) ≤ max_fragmented_size
    → run_frames w2 w3 (rest_frames middle last) c
      ≡ returned cr_none
          (record c { frag_op = 0; frag_data = [] })
          (message (get_message_type c.frag_op) (c.frag_data ++ (joined middle ++ last)) ∷ [])
unfolding run_frames dispatch
run_rest_frames w2 w3 [] last c o h len = ground (arith, length-append c.frag_data last)
run_rest_frames w2 w3 (p ∷ ps) last c o h len =
    let more = joined ps ++ last in
    let e : (c.frag_data ++ p) ++ more ≡ c.frag_data ++ ((p ++ joined ps) ++ last) =
      append_assoc c.frag_data p more
      ∙ ap (◌++◌ c.frag_data) (sym (append_assoc p (joined ps) last)) in
    let fits : length ((c.frag_data ++ p) ++ more) ≤ max_fragmented_size = rw e len in
    ground (
      arith,
      e,
      length-append (c.frag_data ++ p) more,
      length-append c.frag_data p,
      run_rest_frames w2 w3 ps last (record c { frag_data = c.frag_data ++ p }) o h fits,
    )

-- Between messages and with a handler, a message that is sent in any number of fragments of at most
-- the maximal size together is delivered once, whole and under the first frame's opcode, and leaves
-- the connection ready for the next message.
pub run_frames-message_frames :
    (w2 w3 : ℕ) (c : Conn) (op : ℕ) (first : Bytes) (middle : List Bytes) (last : Bytes)
    → c.frag_op ≡ 0
    → c.handler ≡ true
    → op ≢ 0
    → op < 8
    → length (first ++ (joined middle ++ last)) ≤ max_fragmented_size
    → run_frames w2 w3 (message_frames op first middle last) c
      ≡ returned cr_none
          (record c { frag_op = 0; frag_data = [] })
          (message (get_message_type op) (first ++ (joined middle ++ last)) ∷ [])
unfolding run_frames dispatch
run_frames-message_frames w2 w3 c op first middle last f h o k len = ground (
  arith,
  run_rest_frames w2 w3 middle last (record c { frag_data = first; frag_op = op }) o h len,
)
