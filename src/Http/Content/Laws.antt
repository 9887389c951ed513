-- ===== src/Http/Content/Laws.antt =====
-- The loops of the content handler read what the client announced, whatever the socket's reads are.
use mini_web_srv.Base.{
  ℕ, zero, suc, ◌+◌, ◌≤◌, ◌<◌, ◌≡◌, refl, ap, ◌∙◌, subst, inl, inr, Bool-cases, some, List, [], ◌∷◌,
  ◌++◌, Bytes, arith, ltb, ltb→lt, length, length-append, append_assoc,
}
use mathlib.Core.List.{flatten}
use mini_web_srv.ReadBuff.{Buff, available_length, available_data, relevant_data, request_data}
use mini_web_srv.ReadBuff.Inv.{IsValid}
use mini_web_srv.ReadBuff.View.{length-available}
use mini_web_srv.ReadBuff.Steps.{request_data-enough}
use mini_web_srv.Http.Head.{continue_read}
use mini_web_srv.Http.Head.Reads.{stream}
use mini_web_srv.Http.Content.{await_data}
use mini_web_srv.Http.Content.Rounds.{When, refill, RefillFits, request_data_fails, refill-lem}

-- Every read that is waited for fits.
abbrev pub AwaitFits : (ℕ → ℕ) → ℕ → Buff → List Bytes → Type 0
AwaitFits g n b [] = Unit {0}
AwaitFits g n b (r ∷ rs) =
    When (ltb (available_length b) n) (RefillFits g n b r × AwaitFits g n (refill g n b r) rs)

pub length-stream :
    (b : Buff) (reads : List Bytes)
    → IsValid b
    → length (stream b reads) ≡ available_length b + length (flatten reads)
length-stream b reads v =
    omega (arith, length-append (available_data b) (flatten reads), length-available v)

await_enough :
    (g : ℕ → ℕ) (fuel n : ℕ) (b : Buff) (reads : List Bytes)
    → n ≤ available_length b
    → await_data g (suc fuel) n b reads ≡ some (some (b, reads))
unfolding await_data
await_enough g fuel n b reads h = rw (await_data, request_data-enough g b n h) refl

await_refill :
    (g : ℕ → ℕ) (fuel n : ℕ) (b : Buff) (r : Bytes) (rs : List Bytes)
    → available_length b < n
    → continue_read (request_data g b n).0 (r ∷ rs) ≡ some (refill g n b r, rs)
    → await_data g (suc fuel) n b (r ∷ rs) ≡ await_data g fuel n (refill g n b r) rs
unfolding await_data
await_refill g fuel n b r rs h e = rw (await_data, request_data_fails g b n h, e) refl

-- A content that is announced and comes in any reads is waited for, and no longer: the wait ends with
-- the announced bytes in the buffer; nothing of what came is lost, and the kept bytes stay.
pub await_data-stream :
    (g : ℕ → ℕ) (reads : List Bytes) (fuel n : ℕ) (b : Buff)
    → IsValid b
    → AwaitFits g n b reads
    → length reads < fuel
    → n ≤ length (stream b reads)
    → (b' : Buff) × (rs : List Bytes) × (await_data g fuel n b reads ≡ some (some (b', rs)))
      × IsValid b'
      × (n ≤ available_length b')
      × (stream b' rs ≡ stream b reads)
      × (relevant_data b' ≡ relevant_data b)
unfolding flatten
await_data-stream g reads zero n b v f l k = absurd (omega arith)
await_data-stream g [] (suc fuel) n b v f l k =
    let e : n ≤ available_length b = omega (arith, length-stream b [] v) in
    (b, [], await_enough g fuel n b [] e, v, e, refl, refl)
await_data-stream g (r ∷ rs) (suc fuel) n b v f l k =
    elim (Bool-cases (ltb (available_length b) n)) [
      | inr enough ↦
          let e : n ≤ available_length b = ground arith in
          (b, r ∷ rs, await_enough g fuel n b (r ∷ rs) e, v, e, refl, refl)
      | inl short ↦
          let h = ltb→lt (available_length b) n short in
          let (fit, fits) =
            subst (λ x. When x (RefillFits g n b r × AwaitFits g n (refill g n b r) rs)) short f in
          let (c, v', a, kept) = refill-lem g n b r rs v h fit in
          let same : stream (refill g n b r) rs ≡ stream b (r ∷ rs) =
            ap (λ x. x ++ flatten rs) a ∙ append_assoc (available_data b) r (flatten rs) in
          let (b', rs', e, v'', k', s, q) =
            await_data-stream g rs fuel n (refill g n b r) v' fits (omega arith)
              (omega (arith, ap length same)) in
          (b', rs', await_refill g fuel n b r rs h c ∙ e, v'', k', s ∙ same, q ∙ kept)
    ]
