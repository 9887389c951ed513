-- ===== src/Sources/Text/Laws.antt =====
-- A text as a response, sent by Connection.cpp, `ResponseHandler`.
use mini_web_srv.Base.{
  ℕ, zero, suc, ◌+◌, ◌-◌, ◌≤◌, ◌<◌, ◌≡◌, refl, sym, ap, ap₂, ◌∙◌, true, false, Bool-cases, inl, inr,
  some, [], ◌∷◌, Bytes, arith, leb, ◌==◌, length, length-take, length-drop, take, drop,
  take-append-drop, take_all,
}
use mini_web_srv.Http.Body.{length_body}
use mini_web_srv.Sources.Text.{
  StringResponse, is_done, get_length, read, reads, Static, create_static,
}

is_done-length : (bs : Bytes) → is_done bs ≡ (length bs == 0)
is_done-length [] = refl
is_done-length (b ∷ bs) = ground arith

length_body-reads :
    (max_length fuel n : ℕ) (r : StringResponse)
    → 0 < max_length
    → n ≡ length r.left
    → 0 < n
    → n ≤ fuel
    → length_body n (reads max_length fuel r)
      ≡ some (record { out = r.left; total = n; keep = true })
unfolding length_body reads read
length_body-reads max_length zero n r m e p l = absurd (omega arith)
length_body-reads max_length (suc fuel) zero r m e p l = absurd (omega arith)
length_body-reads max_length (suc fuel) (suc n) r m e p l =
    let t = length-take max_length r.left in
    let d = length-drop max_length r.left in
    let q = is_done-length (drop max_length r.left) in
    let fits : leb (length (take max_length r.left)) (suc n) ≡ true = ground (arith, t, e) in
    elim (Bool-cases (is_done (drop max_length r.left))) [
      | inl x ↦
          (let none_left : (suc n - length (take max_length r.left) == 0) ≡ true =
              ground (arith, t, d, q, x, e) in
            let whole : take max_length r.left ≡ r.left =
              take_all max_length r.left (ground (arith, d, q, x)) in
            rw (reads, read, x, fits, none_left)
              (ap (λ b. some (record { out = b; total = length b; keep = true })) whole
                ∙ ap (λ k. some (record { out = r.left; total = k; keep = true })) (sym e)))
      | inr x ↦
          (let some_left : (suc n - length (take max_length r.left) == 0) ≡ false =
              ground (arith, t, d, q, x, e) in
            let r' : StringResponse = record r { left = drop max_length r.left } in
            let ih =
              length_body-reads max_length fuel (suc n - length (take max_length r.left)) r' m
                (omega (arith, t, d, e)) (ground (arith, some_left))
                (ground (arith, t, d, q, x, m, l, e)) in
            let sum : length (take max_length r.left) + (suc n - length (take max_length r.left))
                ≡ suc n =
              omega (arith, t, e) in
            rw (reads, read, x, fits, some_left, ih)
              (ap₂ (λ b k. some (record { out = b; total = k; keep = true }))
                (take-append-drop max_length r.left) sum))
    ]

-- A static text that is not empty is sent whole, and the connection is kept, whatever the size of the
-- blocks is.
pub length_body-create_static :
    (max_length : ℕ) (s : Static)
    → 0 < max_length
    → 0 < length s.data_text
    → length_body
        (get_length (create_static s))
        (reads max_length (length s.data_text) (create_static s))
      ≡ some (record { out = s.data_text; total = length s.data_text; keep = true })
unfolding create_static get_length
length_body-create_static max_length s m p =
    length_body-reads max_length (length s.data_text) (length s.data_text) (create_static s) m refl
      p (omega arith)

-- Behind a static text that is empty the connection is closed.
pub length_body-empty :
    (max_length : ℕ) (s : Static)
    → s.data_text ≡ []
    → length_body (get_length (create_static s)) (reads max_length 1 (create_static s))
      ≡ some (record { out = []; total = 0; keep = false })
unfolding create_static get_length length_body
length_body-empty max_length s e = rw e refl
