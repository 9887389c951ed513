-- ===== src/Http/Content/Multipart.antt =====
-- The loop over a multipart content: its chunks are the announced bytes, and no more.
use mini_web_srv.Base.{
  ℕ, zero, suc, ◌+◌, ◌-◌, ◌≤◌, ◌<◌, ◌≡◌, refl, sym, ap, ◌∙◌, subst, true, false, inl, inr,
  Bool-cases, some, List, [], ◌∷◌, ◌++◌, Bytes, arith, ltb, ltb→lt, if◌then◌else◌, length,
  length-append, take, drop, take-append_le, drop-append_le, take-append_add, drop-append_add,
  append-nil,
}
use mathlib.Core.List.{flatten}
use mini_web_srv.ReadBuff.{Buff, consume, available_length, available_data, request_data}
use mini_web_srv.ReadBuff.Inv.{IsValid, consume-IsValid}
use mini_web_srv.ReadBuff.View.{consume-pending, length-available}
use mini_web_srv.Http.Head.{continue_read}
use mini_web_srv.Http.Head.Reads.{stream}
use mini_web_srv.Http.Content.{multipart_loop}
use mini_web_srv.Http.Content.Rounds.{When, refill, RefillFits, refill-lem, drained}
use mini_web_srv.Http.Content.Laws.{length-stream}

-- What a round asks for, of the bytes that are left.
abbrev pub part_size : ℕ → ℕ → ℕ
part_size rbs left = if ltb left rbs then left else rbs

abbrev pub drained_buff : Buff → Buff
drained_buff b = (consume b (available_length b) false).0

abbrev pub refilled : (ℕ → ℕ) → ℕ → ℕ → Buff → Bytes → Buff
refilled g rbs rem b r = refill g (part_size rbs (rem - available_length b)) (drained_buff b) r

-- Every read that is waited for fits.
abbrev pub PartsFit : (ℕ → ℕ) → ℕ → ℕ → Buff → List Bytes → Type 0
PartsFit g rbs rem b [] = Unit {0}
PartsFit g rbs rem b (r ∷ rs) = When (ltb (available_length b) rem) (
    RefillFits g (part_size rbs (rem - available_length b)) (drained_buff b) r
    × PartsFit g rbs (rem - available_length b) (refilled g rbs rem b r) rs)

last_part :
    (g : ℕ → ℕ) (rbs fuel rem : ℕ) (b : Buff) (reads : List Bytes)
    → 0 < rem
    → ltb (available_length b) rem ≡ false
    → multipart_loop g rbs (suc fuel) rem b reads
      ≡ some (some (take rem (available_data b) ∷ [], (consume b rem false).0, reads))
unfolding multipart_loop
last_part g rbs fuel zero b reads h e = absurd (omega arith)
last_part g rbs fuel (suc r) b reads h e = rw (multipart_loop, e) refl

next_part :
    (g : ℕ → ℕ) (rbs fuel rem : ℕ) (b : Buff) (r : Bytes) (rs : List Bytes) (chunks : List Bytes)
    (b' : Buff) (rs' : List Bytes)
    → ltb (available_length b) rem ≡ true
    → continue_read
        (request_data g (drained_buff b) (part_size rbs (rem - available_length b))).0
        (r ∷ rs)
      ≡ some (refilled g rbs rem b r, rs)
    → multipart_loop g rbs fuel (rem - available_length b) (refilled g rbs rem b r) rs
      ≡ some (some (chunks, b', rs'))
    → multipart_loop g rbs (suc fuel) rem b (r ∷ rs)
      ≡ some (some (available_data b ∷ chunks, b', rs'))
unfolding multipart_loop
next_part g rbs fuel zero b r rs chunks b' rs' e c m = absurd (ground arith)
next_part g rbs fuel (suc n) b r rs chunks b' rs' e c m = rw (multipart_loop, e, c, m) refl

-- A multipart content that is announced and comes in any reads is handed on completely: the chunks
-- together are exactly the announced bytes, and what is behind them is still to come.
pub multipart_loop-stream :
    (g : ℕ → ℕ) (rbs : ℕ) (reads : List Bytes) (fuel rem : ℕ) (b : Buff)
    → 0 < rbs
    → 0 < rem
    → IsValid b
    → PartsFit g rbs rem b reads
    → length reads < fuel
    → rem ≤ length (stream b reads)
    → (chunks : List Bytes) × (b' : Buff) × (rs : List Bytes) × (multipart_loop g rbs fuel rem b
          reads
        ≡ some (some (chunks, b', rs)))
      × IsValid b'
      × (flatten chunks ≡ take rem (stream b reads))
      × (stream b' rs ≡ drop rem (stream b reads))
unfolding flatten
multipart_loop-stream g rbs reads zero rem b p q v f l k = absurd (omega arith)
multipart_loop-stream g rbs [] (suc fuel) rem b p q v f l k =
    let e : rem ≤ length (available_data b) =
      omega (arith, length-stream b [] v, length-available v) in
    (
      take rem (available_data b) ∷ [],
      (consume b rem false).0,
      [],
      last_part g rbs fuel rem b [] q (ground (arith, length-stream b [] v)),
      consume-IsValid rem false v,
      append-nil (take rem (available_data b)) ∙ sym (take-append_le rem (available_data b) [] e),
      append-nil _
          ∙ consume-pending rem false v
          ∙ ap (drop rem) (sym (append-nil (available_data b))),
    )
multipart_loop-stream g rbs (r ∷ rs) (suc fuel) rem b p q v f l k =
    elim (Bool-cases (ltb (available_length b) rem)) [
      | inr enough ↦
          let e : rem ≤ length (available_data b) = ground (arith, length-available v) in
          (
            take rem (available_data b) ∷ [],
            (consume b rem false).0,
            r ∷ rs,
            last_part g rbs fuel rem b (r ∷ rs) q enough,
            consume-IsValid rem false v,
            append-nil (take rem (available_data b))
                ∙ sym (take-append_le rem (available_data b) (r ++ flatten rs) e),
            ap (λ x. x ++ (r ++ flatten rs)) (consume-pending rem false v)
                ∙ sym (drop-append_le rem (available_data b) (r ++ flatten rs) e),
          )
      | inl short ↦
          let avail = available_length b in
          let left = rem - avail in
          let b0 = drained_buff b in
          let h = ltb→lt avail rem short in
          let (fit, fits) =
            subst
              (λ x. When x (
                RefillFits g (part_size rbs left) b0 r
                × PartsFit g rbs left (refilled g rbs rem b r) rs))
              short f in
          let (v0, nothing, none_left) = drained b v in
          let some_left : available_length b0 < part_size rbs left = ground (arith, none_left) in
          let (c, v', a, kept) = refill-lem g (part_size rbs left) b0 r rs v0 some_left fit in
          let same : stream (refilled g rbs rem b r) rs ≡ r ++ flatten rs =
            ap (λ x. x ++ flatten rs) (a ∙ ap (λ x. x ++ r) nothing) in
          let at : rem ≡ length (available_data b) + left = omega (arith, length-available v) in
          let (chunks, b', rs', e, v'', t, d) =
            multipart_loop-stream g rbs rs fuel left (refilled g rbs rem b r) p (omega arith) v'
              fits (omega arith)
              (omega (arith, ap length same, length-append (available_data b) (r ++ flatten rs))) in
          (
            available_data b ∷ chunks,
            b',
            rs',
            next_part g rbs fuel rem b r rs chunks b' rs' short c e,
            v'',
            ap (◌++◌ (available_data b)) (t ∙ ap (take left) same)
                ∙ sym (take-append_add rem left (available_data b) (r ++ flatten rs) at),
            d
                ∙ ap (drop left) same
                ∙ sym (drop-append_add rem left (available_data b) (r ++ flatten rs) at),
          )
    ]
