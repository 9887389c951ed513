-- ===== src/WebSocket/Session/Idle.antt =====
-- A connection that asks to be deleted is idle, where one write is started at a time.
use mini_web_srv.Base.{
  ℕ, ◌≤◌, ◌≡◌, Bool, true, false, List, [], ◌∷◌, Bytes, arith, Bool-cases, inl, inr, ◌==◌, refl,
  subst,
}
use mini_web_srv.ReadBuff.{Buff, receive, available_data}
use mini_web_srv.WebSocket.Frame.{
  Outcome, Incoming, cr_none, returned, fault, Event, write_started, message, closed, queued,
  on_protocol_error, process_incoming,
}
use mini_web_srv.WebSocket.Session.{
  Session, Reply, went, crashed, start, start_writes, start_all, read_reply, on_step, Input, read,
  read_failed, write_failed, write_done, posted_write, posted_close, stopped, stepped, handle,
}

-- What can come: the end of a read or of a write only if one is under way, and at most one buffer is
-- in the queue when `StartAsyncWrite` is called.
abbrev pub Possible : Session → Input → Type 0
Possible s (read bytes k) = (s.reading ≡ true) × (k ≤ 1)
Possible s read_failed = s.reading ≡ true
Possible s (write_done k) = (1 ≤ s.writes) × (k ≤ 1)
Possible s write_failed = 1 ≤ s.writes
Possible s (posted_write k) = k ≤ 1
Possible s (posted_close k) = k ≤ 1
Possible s (stopped k) = k ≤ 1
Possible s (stepped n) = Unit {0}

-- The two bits of `SafeStates` say what is under way.
abbrev pub BitsTell : Session → Type 0
BitsTell s =
    (s.safe_read ≡ true → s.reading ≡ false) × (s.safe_write ≡ true → s.writes ≡ 0) × (s.writes ≤ 1)

abbrev TellsAfter : Reply → Type 0
TellsAfter (went s es b) = BitsTell s
TellsAfter (crashed es) = Unit {0}

start_writes-BitsTell : (k : ℕ) (s : Session) → k ≤ 1 → BitsTell s → BitsTell (start_writes k s)
unfolding start_writes
start_writes-BitsTell k s h (r, w, m) = ground (arith, h, r, w, m)

start_all-BitsTell :
    (k : ℕ) (es : List Event) (s : Session) → k ≤ 1 → BitsTell s → BitsTell (start_all k es s)
unfolding start_all
start_all-BitsTell k [] s h t = t
start_all-BitsTell k (write_started ∷ es) s h t =
    start_all-BitsTell k es (start_writes k s) h (start_writes-BitsTell k s h t)
start_all-BitsTell k (message y p ∷ es) s h t = start_all-BitsTell k es s h t
start_all-BitsTell k (closed r ∷ es) s h t = start_all-BitsTell k es s h t
start_all-BitsTell k (queued p ∷ es) s h t = start_all-BitsTell k es s h t

module _ (g : ℕ → ℕ) (w2 w3 : ℕ) where
  -- A session that a connection comes to.
  pub data Reached : Session → Type 0 where
    started : (static_buff : Bytes) → Reached (start static_buff)
    handled :
        {s s' : Session} {es : List Event} {b : Bool}
        → (i : Input) → Reached s
        → Possible s i
        → handle g w2 w3 s i ≡ went s' es b
        → Reached s'

  read_reply-TellsAfter :
      (k : ℕ) (s : Session) (b : Buff) (r : Incoming) (o : Outcome)
      → k ≤ 1
      → BitsTell s
      → TellsAfter (read_reply g w2 w3 k s b r o)
  unfolding read_reply
  read_reply-TellsAfter k s b r fault h t = tt
  read_reply-TellsAfter k s b r (returned reason c es) h t = elim (Bool-cases (reason == cr_none)) [
    | inl fine ↦ rw fine (start_all-BitsTell k es _ h t)
    | inr wrong ↦
        let t' =
          start_all-BitsTell k (on_protocol_error w2 w3 c reason).1 _ h
            (start_all-BitsTell k es _ h t) in
        rw wrong (λ e. refl, t'.1, t'.2)
  ]

  handle-TellsAfter :
      (s : Session) (i : Input) → Possible s i → BitsTell s → TellsAfter (handle g w2 w3 s i)
  unfolding handle on_protocol_error
  handle-TellsAfter s (read bytes k) p t =
      let b = receive s.buff bytes in
      read_reply-TellsAfter k s b _ (process_incoming w2 w3 s.conn (available_data b)).outcome p.1 t
  handle-TellsAfter s read_failed p t = ground (arith, t.1, t.2)
  handle-TellsAfter s write_failed p t = ground (arith, p, t.0, t.1, t.2)
  handle-TellsAfter s (write_done k) p t =
      start_writes-BitsTell k _ p.1 (ground (arith, p.0, t.0, t.1, t.2))
  handle-TellsAfter s (posted_write k) p t = start_writes-BitsTell k s p t
  handle-TellsAfter s (posted_close k) p t = start_writes-BitsTell k _ p t
  handle-TellsAfter s (stopped k) p t = start_all-BitsTell k _ s p t
  handle-TellsAfter s (stepped n) p t = ground (arith, t.0, t.1, t.2)

  Reached-BitsTell : {s : Session} → Reached s → BitsTell s
  unfolding start
  Reached-BitsTell (started static_buff) = ground arith
  Reached-BitsTell (handled {s = s} i r p e) =
      subst TellsAfter e (handle-TellsAfter s i p (Reached-BitsTell r))

  -- Along the callbacks from the start, where reads and writes end that are under way and a call of
  -- `StartAsyncWrite` finds at most one buffer in the queue: a step after which the server deletes the
  -- connection leaves no read and no write under way, and no handler that still waits to hear of the
  -- end.
  pub Reached-idle :
      (s s' : Session) (n : ℕ) (es : List Event)
      → Reached s
      → on_step g w2 w3 s n ≡ went s' es false
      → (s'.reading ≡ false) × (s'.writes ≡ 0) × (s'.conn.handler ≡ false)
  unfolding on_step
  Reached-idle s s' n es r e = let (t, u, m) = Reached-BitsTell r in ground (arith, t, u, m, e)
