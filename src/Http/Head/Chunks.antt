-- ===== src/Http/Head/Chunks.antt =====
-- The head handler over the read buffer, whatever the socket's reads are.
use mini_web_srv.Base.{
  ℕ, zero, suc, ◌+◌, ◌-◌, ◌≤◌, ◌≡◌, refl, sym, ap, ap₂, ◌∙◌, subst, Bool-cases, true, false, inl,
  inr, Option, none, some, List, [], ◌∷◌, ◌++◌, Bytes, arith, ◌==◌, length, take, drop,
  take-append_le, take-append_add, drop-append_add, drop-append_le, length-append, append_assoc,
  append-nil,
}
use mathlib.Core.List.{flatten}
use mini_web_srv.ReadBuff.{
  Buff, size, consume, available_length, available_data, relevant_data, receive,
}
use mini_web_srv.ReadBuff.Inv.{IsValid, consume-IsValid, receive-IsValid}
use mini_web_srv.ReadBuff.View.{
  Stream, consume-pending, consume-kept, receive-view, length-available, available-nil,
}
use mini_web_srv.Http.RequestLine.{Request}
use mini_web_srv.Http.Head.{
  Head, Scanned, more, done, refused, overrun, shift, scan, continue_read, Outcome, headers_done,
  closed, overran, waiting, head_block, head_loop, fresh_head, header_handler,
}
use mini_web_srv.Http.Head.Scan.{scan_then, scan-append, shift_zero, Counts, scan-Counts}
use mini_web_srv.Http.Head.Reads.{
  consume-ends, receive-ends, continue_read-next, continue_read-nil, head_loop-block, next_buff-lem,
  next_buff, NoneEmpty, stream, HasRoom,
}

-- What the scan of the stream says of the handler's outcome: a finished head has kept its bytes in
-- the buffer, and what is behind it is still to be consumed or read.
abbrev pub Agrees : Buff → List Bytes → Scanned → Option Outcome → Type 0
Agrees b reads (done h n) o =
    (b' : Buff) × (rs : List Bytes) × (o ≡ some (headers_done h b' rs))
    × IsValid b'
    × (relevant_data b' ≡ relevant_data b ++ take n (stream b reads))
    × (stream b' rs ≡ drop n (stream b reads))
Agrees b reads (more h) o = o ≡ some waiting
Agrees b reads refused o = o ≡ some closed
Agrees b reads overrun o = o ≡ some overran

-- The next block's agreement, as one of the stream before it.
Agrees-shift :
    (b b' : Buff) (reads rs : List Bytes) (n : ℕ) (s : Scanned) (o : Option Outcome)
    → n ≡ length (available_data b)
    → relevant_data b' ≡ relevant_data b ++ available_data b
    → stream b' rs ≡ flatten reads
    → Agrees b' rs s o
    → Agrees b reads (shift n s) o
Agrees-shift b b' reads rs n (done h m) o e k f (b'', rs'', x, v, y, z) =
    let at : n + m ≡ length (available_data b) + m = omega arith in
    (
      b'',
      rs'',
      x,
      v,
      y
          ∙ ap₂ (λ p q. p ++ take m q) k f
          ∙ append_assoc (relevant_data b) (available_data b) (take m (flatten reads))
          ∙ ap (◌++◌ (relevant_data b))
              (sym (take-append_add (n + m) m (available_data b) (flatten reads) at)),
      z ∙ ap (drop m) f ∙ sym (drop-append_add (n + m) m (available_data b) (flatten reads) at),
    )
Agrees-shift b b' reads rs n (more h) o e k f a = a
Agrees-shift b b' reads rs n refused o e k f a = a
Agrees-shift b b' reads rs n overrun o e k f a = a

done-Agrees :
    (h : Head) (n : ℕ) (b : Buff) (reads : List Bytes)
    → IsValid b
    → n ≤ length (available_data b)
    → Agrees b reads (done h n) (some (headers_done h (consume b n true).0 reads))
done-Agrees h n b reads v c = (
  (consume b n true).0,
  reads,
  refl,
  consume-IsValid n true v,
  consume-kept n v
      ∙ ap (◌++◌ (relevant_data b)) (sym (take-append_le n (available_data b) (flatten reads) c)),
  ap (λ p. p ++ flatten reads) (consume-pending n true v)
      ∙ sym (drop-append_le n (available_data b) (flatten reads) c),
)

abbrev after_block : ℕ → Buff → List Bytes → Head → Option Outcome
after_block fuel b reads h = elim (continue_read (consume b (available_length b) true).0 reads) [
  | none ↦ some waiting
  | some (b', rs) ↦ head_loop fuel h b' rs
]

block_cases :
    (reads : List Bytes) (fuel : ℕ) (h : Head) (b : Buff)
    → IsValid b
    → ((h' : Head)
        → Agrees b reads
            (shift (length (available_data b)) (scan h' (flatten reads)))
            (after_block fuel b reads h'))
    → (s : Scanned) → scan h (available_data b) ≡ s
    → Counts (length (available_data b)) s
    → Agrees b reads
        (scan_then (length (available_data b)) s (flatten reads))
        (head_block (head_loop fuel) h b reads)
unfolding head_block
block_cases reads fuel h b v next (more h') e c =
    subst (Agrees b reads (shift (length (available_data b)) (scan h' (flatten reads))))
      (sym (rw (head_block, e) refl)) (next h')
block_cases reads fuel h b v next (done h' n) e c =
    subst (Agrees b reads (done h' n)) (sym (rw (head_block, e) refl))
      (done-Agrees h' n b reads v c)
block_cases reads fuel h b v next refused e c = rw (head_block, e) refl
block_cases reads fuel h b v next overrun e c = rw (head_block, e) refl

-- A block and all that is read after it agree with the scan of the stream.
block-Agrees :
    (reads : List Bytes) (fuel : ℕ) (h : Head) (b : Buff)
    → IsValid b
    → NoneEmpty reads
    → HasRoom b reads
    → length reads ≤ fuel
    → Agrees b reads (scan h (stream b reads)) (head_block (head_loop fuel) h b reads)
unfolding flatten scan
block-Agrees [] fuel h b v ne room l =
    let c = (consume b (available_length b) true).0 in
    let (m, d) = consume-ends v in
    let free : (size c - c.data_end == 0) ≡ false = ground (arith, ap length m, d) in
    subst (λ s. Agrees b [] s (head_block (head_loop fuel) h b []))
      (sym (scan-append h (available_data b) []))
      (block_cases [] fuel h b v (λ h'. rw (after_block, continue_read-nil c free) refl)
        (scan h (available_data b)) refl (scan-Counts h (available_data b)))
block-Agrees (r ∷ rs) zero h b v ne room l = absurd (omega arith)
block-Agrees (r ∷ rs) (suc fuel) h b v ne room l =
    let c = (consume b (available_length b) true).0 in
    let b' = next_buff b r in
    let (m, d) = consume-ends v in
    let free : (size c - c.data_end == 0) ≡ false = ground (arith, ap length m, d) in
    let (v', s', d', k, a) = next_buff-lem b r v (omega (arith, length-append r (flatten rs))) in
    let room' : HasRoom b' rs = omega (arith, s', d', length-append r (flatten rs)) in
    let filled : (available_length b' == 0) ≡ false =
      ground (arith, ap length a, length-available v') in
    subst (λ s. Agrees b (r ∷ rs) s (head_block (head_loop (suc fuel)) h b (r ∷ rs)))
      (sym (scan-append h (available_data b) (r ++ flatten rs)))
      (block_cases (r ∷ rs) (suc fuel) h b v
        (λ h'.
          rw (after_block, continue_read-next c r rs free, head_loop-block fuel h' b' rs filled)
            (Agrees-shift b b' (r ∷ rs) rs (length (available_data b)) (scan h' (r ++ flatten rs)) _
              refl k (ap (λ x. x ++ flatten rs) a)
              (subst (λ x. Agrees b' rs (scan h' x) (head_block (head_loop fuel) h' b' rs))
                (ap (λ x. x ++ flatten rs) a)
                (block-Agrees rs fuel h' b' v' ne.1 room' (omega arith)))))
        (scan h (available_data b)) refl (scan-Counts h (available_data b)))

head_loop-empty :
    (fuel : ℕ) (h : Head) (b : Buff) (r : Bytes) (rs : List Bytes)
    → available_length b ≡ 0
    → (size b - b.data_end == 0) ≡ false
    → (available_length (receive b r) == 0) ≡ false
    → head_loop (suc fuel) h b (r ∷ rs) ≡ head_block (head_loop fuel) h (receive b r) rs
unfolding head_loop
head_loop-empty fuel h b r rs z free filled =
    rw (head_loop, z, continue_read-next b r rs free, filled) refl

-- A buffer without bytes to consume reads first.
loop_empty-Agrees :
    (reads : List Bytes) (fuel : ℕ) (h : Head) (b : Buff)
    → IsValid b
    → NoneEmpty reads
    → HasRoom b reads
    → length reads ≤ fuel
    → available_length b ≡ 0
    → Agrees b reads (scan h (stream b reads)) (head_loop (suc fuel) h b reads)
unfolding flatten scan head_loop
loop_empty-Agrees [] fuel h b v ne room l z =
    let free : (size b - b.data_end == 0) ≡ false = ground arith in
    rw (head_loop, z, continue_read-nil b free) refl
loop_empty-Agrees (r ∷ rs) fuel h b v ne room l z =
    let free : (size b - b.data_end == 0) ≡ false = ground arith in
    let nothing : available_data b ≡ [] = available-nil b z in
    let fits : length r ≤ size b - b.data_end = omega (arith, length-append r (flatten rs)) in
    let b' = receive b r in
    let (s', d') = receive-ends r v fits in
    let w = receive-view r v fits in
    let a : available_data b' ≡ r = ap (λ (x : Stream). x.pending) w ∙ ap (λ x. x ++ r) nothing in
    let k : relevant_data b' ≡ relevant_data b ++ available_data b =
      ap (λ (x : Stream). x.kept) w
      ∙ sym (append-nil (relevant_data b))
      ∙ ap (◌++◌ (relevant_data b)) (sym nothing) in
    let v' = receive-IsValid r v fits in
    let filled : (available_length b' == 0) ≡ false =
      ground (arith, ap length a, length-available v') in
    let room' : HasRoom b' rs = omega (arith, s', d', length-append r (flatten rs)) in
    let same : stream b' rs ≡ r ++ flatten rs = ap (λ x. x ++ flatten rs) a in
    let none_yet : 0 ≡ length (available_data b) = sym (ap length nothing) in
    subst (Agrees b (r ∷ rs) (scan h (stream b (r ∷ rs))))
      (sym (head_loop-empty fuel h b r rs z free filled))
      (subst (λ s. Agrees b (r ∷ rs) s (head_block (head_loop fuel) h b' rs))
        (shift_zero (scan h (stream b' rs))
          ∙ ap (scan h) (same ∙ sym (ap (λ x. x ++ (r ++ flatten rs)) nothing)))
        (Agrees-shift b b' (r ∷ rs) rs 0 (scan h (stream b' rs)) _ none_yet k same
          (block-Agrees rs fuel h b' v' ne.1 room' (omega arith))))

-- From a valid buffer with room for all that is read, and a byte more, the handler reads exactly the
-- head, however the reads cut it: what it finds is what one scan of the whole stream finds, the
-- buffer keeps the bytes of the head, and the bytes behind the head are still to come, in order. It
-- gives up if the scan does, and waits if the scan needs more.
pub header_handler-Agrees :
    (r : Request) (b : Buff) (reads : List Bytes)
    → IsValid b
    → NoneEmpty reads
    → HasRoom b reads
    → Agrees b reads (scan (fresh_head r) (stream b reads)) (header_handler r b reads)
unfolding header_handler
header_handler-Agrees r b reads v ne room =
    let h = fresh_head r in
    let fuel = suc (length reads) in
    elim (Bool-cases (available_length b == 0)) [
      | inl z ↦ loop_empty-Agrees reads fuel h b v ne room (omega arith) (ground arith)
      | inr z ↦
          subst (Agrees b reads (scan h (stream b reads))) (sym (head_loop-block fuel h b reads z))
            (block-Agrees reads fuel h b v ne room (omega arith))
    ]
