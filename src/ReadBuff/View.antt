-- ===== src/ReadBuff/View.antt =====
-- What the reader sees of the buffer: the kept bytes, and behind them the bytes to be consumed.
use mini_web_srv.Base.{
  ℕ, ◌+◌, ◌-◌, ◌^◌, ◌≤◌, ◌<◌, ◌≡◌, ap, ap₂, sym, ◌∙◌, Bool, true, false, [], ◌++◌, Bytes, arith,
  ltb, leb, Bool-cases, ltb→lt, inl, inr, length, take, drop, length-append, length-take,
  length-drop, take_add, drop-take, drop-drop, take-take, take_all, drop_all, drop-append_le,
  take-append-length, append_assoc,
}
use mini_web_srv.ReadBuff.{
  Buff, size, sub32, add32, consume, reset_relevant, make_room, available_length, relevant_data,
  available_data, request_data, on_new_data, receive,
}
use mini_web_srv.ReadBuff.Inv.{IsValid, length-received}
use mini_web_srv.ReadBuff.Slices.{slice_copied}

pub record Stream : Type 0 where
  pub kept : Bytes
  pub pending : Bytes

abbrev pub view : Buff → Stream
view b = record { kept = relevant_data b; pending = available_data b }

-- A window of the new storage is the window of the old one, from the kept bytes on.
slice-make_room :
    (g : ℕ → ℕ) (b : Buff) (req i n j : ℕ)
    → IsValid b
    → i + n ≤ b.data_end - sub32 b.read_pos b.relevant
    → j ≡ sub32 b.read_pos b.relevant + i
    → take n (drop i (make_room g b req)) ≡ take n (drop j b.mem)
unfolding make_room
slice-make_room g b req i n j v h e =
    let front = sub32 b.read_pos b.relevant in
    let m = b.data_end - front in
    elim (Bool-cases (leb (sub32 req b.data_end) (add32 front (sub32 (size b) b.data_end)))) [
      | inl fits ↦ rw fits (slice_copied front m i n j b.mem _ h (omega arith) e)
      | inr tight ↦ rw tight (slice_copied front m i n j b.mem _ h (omega arith) e)
    ]

pub request_data-view :
    (g : ℕ → ℕ) {b : Buff} (n : ℕ)
    → IsValid b
    → size b + n + 1023 < 2 ^ 32
    → view (request_data g b n).0 ≡ view b
unfolding request_data
request_data-view g {b} n v h =
    let avail = available_length b in
    let req = add32 b.req_end (sub32 n avail) in
    let front = sub32 b.read_pos b.relevant in
    let r' = sub32 b.read_pos front in
    elim (Bool-cases (leb n avail)) [
      | inl enough ↦ rw enough
      | inr short ↦ rw short (elim (Bool-cases (ltb (size b) req)) [
        | inl over ↦ rw over (
            let e1 =
              slice-make_room g b req (r' - b.relevant) b.relevant (b.read_pos - b.relevant) v
                (omega arith) (omega arith) in
            let e2 = slice-make_room g b req r' avail b.read_pos v (omega arith) (omega arith) in
            let e3 : sub32 (sub32 b.data_end front) r' ≡ avail = omega arith in
            ap₂ (λ k p. record { kept = k; pending = p }) e1 (rw e3 e2))
        | inr fits ↦ rw fits
      ])
    ]

-- The kept window grows over the first `n` pending bytes.
window-grow :
    (mem : Bytes) (rel read n avail rel' start : ℕ)
    → n ≤ avail
    → rel' ≡ rel + n
    → start + rel ≡ read
    → take rel' (drop start mem)
      ≡ take rel (drop (read - rel) mem) ++ take n (take avail (drop read mem))
window-grow mem rel read n avail rel' start h e k =
    let front : start ≡ read - rel = omega arith in
    take_add rel n rel' (drop start mem) e
    ∙ ap₂ (◌++◌) (ap (λ o. take rel (drop o mem)) front)
        (ap (take n) (drop-drop start rel read mem (sym k)) ∙ sym (take-take n avail _ h))

window-drop :
    (mem : Bytes) (read n avail rest read' : ℕ)
    → avail ≡ n + rest
    → read' ≡ read + n
    → take rest (drop read' mem) ≡ drop n (take avail (drop read mem))
window-drop mem read n avail rest read' e k =
    ap (take rest) (sym (drop-drop read n read' mem k)) ∙ sym (drop-take n rest avail _ e)

pub length-available : {b : Buff} → IsValid b → length (available_data b) ≡ b.data_end - b.read_pos
length-available {b} v =
    omega (
      arith,
      length-take (available_length b) (drop b.read_pos b.mem),
      length-drop b.read_pos b.mem,
    )

pub consume-pending :
    {b : Buff} (n : ℕ) (keep : Bool)
    → IsValid b
    → available_data (consume b n keep).0 ≡ drop n (available_data b)
unfolding consume
consume-pending {b} n keep v =
    let avail = available_length b in
    elim (Bool-cases (ltb n avail)) [
      | inl less ↦ rw less (
          let k = ltb→lt _ _ less in
          window-drop b.mem b.read_pos n avail _ _ (omega (arith, k)) (omega (arith, k)))
      | inr all ↦ rw all (
          let none_left : sub32 b.data_end b.data_end ≡ 0 = omega arith in
          rw none_left (sym (drop_all n (available_data b) (ground (arith, length-available v)))))
    ]

pub consume-kept :
    {b : Buff} (n : ℕ)
    → IsValid b
    → relevant_data (consume b n true).0 ≡ relevant_data b ++ take n (available_data b)
unfolding consume
consume-kept {b} n v =
    let avail = available_length b in
    elim (Bool-cases (ltb n avail)) [
      | inl less ↦ rw less (
          let k = ltb→lt _ _ less in
          window-grow b.mem b.relevant b.read_pos n avail _ _ (omega (arith, k)) (omega (arith, k))
            (omega (arith, k)))
      | inr all ↦ rw all (
          window-grow b.mem b.relevant b.read_pos avail avail _ _ (omega arith) (omega arith)
            (omega arith)
          ∙ ap (◌++◌ (relevant_data b)) (
              take_all avail (available_data b) (omega (arith, length-available v))
              ∙ sym (take_all n (available_data b) (ground (arith, length-available v)))))
    ]

pub available-nil : (b : Buff) → available_length b ≡ 0 → available_data b ≡ []
available-nil b e = ap (λ n. take n (drop b.read_pos b.mem)) e

pub relevant-nil : (b : Buff) → b.relevant ≡ 0 → relevant_data b ≡ []
relevant-nil b e = ap (λ n. take n (drop (b.read_pos - b.relevant) b.mem)) e

pub reset_relevant-view :
    {b : Buff}
    → IsValid b
    → view (reset_relevant b) ≡ record { kept = []; pending = available_data b }
unfolding reset_relevant
reset_relevant-view {b} v = ground (arith, relevant-nil b, available-nil b)

-- Bytes written behind the pending ones are pending, and nothing else changes.
receive-pending :
    (mem bytes rest : Bytes) (read data_end n : ℕ)
    → read ≤ data_end
    → data_end ≤ length mem
    → n ≡ data_end - read + length bytes
    → take n (drop read (take data_end mem ++ (bytes ++ rest)))
      ≡ take (data_end - read) (drop read mem) ++ bytes
receive-pending mem bytes rest read data_end n h k e =
    let old = take (data_end - read) (drop read mem) in
    let len : length old ≡ data_end - read =
      omega (arith, length-take (data_end - read) (drop read mem), length-drop read mem) in
    let whole : n ≡ length (old ++ bytes) = omega (arith, length-append old bytes) in
    ap (take n) (
      drop-append_le read (take data_end mem) (bytes ++ rest)
        (omega (arith, length-take data_end mem))
      ∙ ap (λ xs. xs ++ (bytes ++ rest))
          (drop-take read (data_end - read) data_end mem (omega arith))
      ∙ sym (append_assoc old bytes rest))
    ∙ ap (λ j. take j ((old ++ bytes) ++ rest)) whole
    ∙ take-append-length (old ++ bytes) rest

pub receive-view :
    {b : Buff} (bytes : Bytes)
    → IsValid b
    → length bytes ≤ size b - b.data_end
    → view (receive b bytes)
      ≡ record { kept = relevant_data b; pending = available_data b ++ bytes }
unfolding receive on_new_data
receive-view {b} bytes v h =
    let rest = drop (b.data_end + length bytes) b.mem in
    let n = length bytes in
    let data_end' = add32 b.data_end n in
    let len = length-received b.mem bytes b.data_end (omega arith) in
    let fits : ltb (sub32 (length (take b.data_end b.mem ++ (bytes ++ rest))) b.data_end) n
        ≡ false =
      ground (arith, len) in
    let e1 =
      slice_copied 0 b.data_end (b.read_pos - b.relevant) b.relevant (b.read_pos - b.relevant) b.mem
        (bytes ++ rest) (omega arith) (omega arith) (omega arith) in
    let e2 : sub32 data_end' b.read_pos ≡ b.data_end - b.read_pos + n = omega arith in
    let e3 =
      receive-pending b.mem bytes rest b.read_pos b.data_end _ (omega arith) (omega arith) e2 in
    let e4 : b.data_end - b.read_pos ≡ available_length b = omega arith in
    let e5 = e3 ∙ ap (λ j. take j (drop b.read_pos b.mem) ++ bytes) e4 in
    ground (arith, fits, e1, e5)
