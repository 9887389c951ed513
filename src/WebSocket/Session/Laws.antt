-- ===== src/WebSocket/Session/Laws.antt =====
-- Over any history of callbacks the handler hears of the end at most once.
use mini_web_srv.Base.{
  ℕ, suc, ◌+◌, ◌≤◌, ◌≡◌, List, [], ◌∷◌, arith, Bool-cases, inl, inr, ◌==◌, refl, subst, ◌∙◌,
}
use mini_web_srv.ReadBuff.{Buff, receive, available_data}
use mini_web_srv.WebSocket.Frame.{
  Conn, Outcome, Incoming, cr_none, returned, fault, Event, write_started, message, closed, queued,
  on_protocol_error, process_incoming,
}
use mini_web_srv.WebSocket.Frame.Closing.{
  closings, has_handler, ClosesOnce, process_incoming-ClosesOnce, closings-append,
}
use mini_web_srv.WebSocket.Session.{
  Session, Reply, went, crashed, start_writes, start_all, read_reply, after_events, followed_by,
  Input, read, read_failed, write_failed, write_done, posted_write, posted_close, stopped, stepped,
  handle, run,
}

-- How often `StartAsyncWriteCloseExternal` is called: it drops a handler that is not told.
abbrev pub silent_drops : List Input → ℕ
silent_drops [] = 0
silent_drops (posted_close k ∷ is) = suc (silent_drops is)
silent_drops (_ ∷ is) = silent_drops is

silent_drops-cons :
    (i : Input) (is : List Input) → silent_drops (i ∷ []) + silent_drops is ≡ silent_drops (i ∷ is)
silent_drops-cons (read bs k) is = omega arith
silent_drops-cons read_failed is = omega arith
silent_drops-cons write_failed is = omega arith
silent_drops-cons (write_done k) is = omega arith
silent_drops-cons (posted_write k) is = omega arith
silent_drops-cons (posted_close k) is = omega arith
silent_drops-cons (stopped k) is = omega arith
silent_drops-cons (stepped n) is = omega arith

-- `OnClose` is called at most once, and only for a handler that is there and then dropped; if at most
-- `n` handlers are dropped without it, all the others that are dropped have heard it.
abbrev pub RunClosesOnce : Session → ℕ → Reply → Type 0
RunClosesOnce s n (went s' es b) =
    (closings es + has_handler s'.conn ≤ has_handler s.conn)
    × (has_handler s.conn ≤ closings es + has_handler s'.conn + n)
RunClosesOnce s n (crashed es) = closings es ≤ has_handler s.conn

after_events-ClosesOnce :
    (s s' : Session) (es : List Event) (m n : ℕ) (r : Reply)
    → closings es + has_handler s'.conn ≤ has_handler s.conn
    → has_handler s.conn ≤ closings es + has_handler s'.conn + m
    → RunClosesOnce s' n r
    → RunClosesOnce s (m + n) (after_events es r)
after_events-ClosesOnce s s' es m n (crashed es') h g k =
    omega (arith, closings-append es es', h, g, k)
after_events-ClosesOnce s s' es m n (went t es' b) h g (k, l) =
    (omega (arith, closings-append es es', h, k), omega (arith, closings-append es es', g, l))

followed_by-ClosesOnce :
    (s : Session) (m n : ℕ) (r : Reply) (k : Session → Reply)
    → RunClosesOnce s m r
    → ((s' : Session) → RunClosesOnce s' n (k s'))
    → RunClosesOnce s (m + n) (followed_by k r)
followed_by-ClosesOnce s m n (crashed es) k h later = h
followed_by-ClosesOnce s m n (went s' es b) k (h, g) later =
    after_events-ClosesOnce s s' es m n (k s') h g (later s')

start_writes-conn : (k : ℕ) (s : Session) → (start_writes k s).conn ≡ s.conn
unfolding start_writes
start_writes-conn k s = elim (Bool-cases s.safe_write) [ inl e ↦ rw e refl | inr e ↦ rw e refl ]

start_all-conn : (k : ℕ) (es : List Event) (s : Session) → (start_all k es s).conn ≡ s.conn
unfolding start_all
start_all-conn k [] s = refl
start_all-conn k (write_started ∷ es) s =
    start_all-conn k es (start_writes k s) ∙ start_writes-conn k s
start_all-conn k (message t p ∷ es) s = start_all-conn k es s
start_all-conn k (closed r ∷ es) s = start_all-conn k es s
start_all-conn k (queued p ∷ es) s = start_all-conn k es s

module _ (g : ℕ → ℕ) (w2 w3 : ℕ) where
  on_protocol_error-closings :
      (c : Conn) (reason : ℕ)
      → closings (on_protocol_error w2 w3 c reason).1
          + has_handler (on_protocol_error w2 w3 c reason).0
        ≡ has_handler c
  unfolding on_protocol_error
  on_protocol_error-closings c reason = ground arith

  -- `on_read` behind the frame parser.
  read_reply-ClosesOnce :
      (k : ℕ) (s : Session) (b : Buff) (r : Incoming) (o : Outcome)
      → ClosesOnce s.conn o
      → RunClosesOnce s 0 (read_reply g w2 w3 k s b r o)
  unfolding read_reply
  read_reply-ClosesOnce k s b r fault h = omega arith
  read_reply-ClosesOnce k s b r (returned reason c es) h = elim (Bool-cases (reason == cr_none)) [
    | inl fine ↦ rw (fine, start_all-conn k es) (omega (arith, h), omega (arith, h))
    | inr wrong ↦
        let more = closings-append es (on_protocol_error w2 w3 c reason).1 in
        let once = on_protocol_error-closings c reason in
        rw wrong (omega (arith, h, more, once), omega (arith, h, more, once))
  ]

  handle-ClosesOnce :
      (s : Session) (i : Input) → RunClosesOnce s (silent_drops (i ∷ [])) (handle g w2 w3 s i)
  unfolding handle on_protocol_error
  handle-ClosesOnce s (read bytes k) =
      let b = receive s.buff bytes in
      read_reply-ClosesOnce k s b _ (process_incoming w2 w3 s.conn (available_data b)).outcome
        (process_incoming-ClosesOnce w2 w3 s.conn (available_data b))
  handle-ClosesOnce s read_failed = ground arith
  handle-ClosesOnce s write_failed = ground arith
  handle-ClosesOnce s (write_done k) = rw start_writes-conn (omega arith, omega arith)
  handle-ClosesOnce s (posted_write k) = rw start_writes-conn (omega arith, omega arith)
  handle-ClosesOnce s (posted_close k) = rw start_writes-conn (omega arith, ground arith)
  handle-ClosesOnce s (stopped k) = ground arith
  handle-ClosesOnce s (stepped n) = ground arith

  -- Over any history of reads, writes, failures, posted writes and closings, steps and stops, `OnClose`
  -- is called at most once, only if the connection had a handler, and has dropped it behind the call;
  -- this holds up to a crash too. If no close is posted, which drops a handler that is not told, and
  -- nothing crashes, a handler that the connection had and has dropped has been told.
  pub run-ClosesOnce :
      (s : Session) (is : List Input) → RunClosesOnce s (silent_drops is) (run g w2 w3 s is)
  unfolding run
  run-ClosesOnce s [] = (omega arith, omega arith)
  run-ClosesOnce s (i ∷ is) =
      subst (λ n. RunClosesOnce s n (run g w2 w3 s (i ∷ is))) (silent_drops-cons i is)
        (followed_by-ClosesOnce s (silent_drops (i ∷ [])) (silent_drops is) (handle g w2 w3 s i)
          (λ s'. run g w2 w3 s' is) (handle-ClosesOnce s i) (λ s'. run-ClosesOnce s' is))
