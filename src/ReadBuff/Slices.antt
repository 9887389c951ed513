-- ===== src/ReadBuff/Slices.antt =====
-- Windows of a list, after a copy to the front or a write behind them.
use mini_web_srv.Base.{
  ℕ, ◌+◌, ◌-◌, ◌≤◌, ◌≡◌, ap, ◌∙◌, List, ◌++◌, arith, length, take, drop, length-take, length-drop,
  take-append_le, drop-append_le, take-take, drop-take, drop-drop,
}

module _ {ℓ} {A : Type ℓ} where
  -- A window `[i, i + n)` is in reach of a larger window at `o` that was copied to the front.
  pub slice_copied :
      (o m i n j : ℕ) (xs rest : List A)
      → i + n ≤ m
      → o + m ≤ length xs
      → j ≡ o + i
      → take n (drop i (take m (drop o xs) ++ rest)) ≡ take n (drop j xs)
  slice_copied o m i n j xs rest h k e =
      let len : length (take m (drop o xs)) ≡ m =
        omega (arith, length-take m (drop o xs), length-drop o xs) in
      let cut : drop i (take m (drop o xs)) ≡ take (m - i) (drop j xs) =
        drop-take i (m - i) m (drop o xs) (omega arith)
        ∙ ap (take (m - i)) (drop-drop o i j xs e) in
      ap (take n) (drop-append_le i _ rest (omega arith))
      ∙ take-append_le n _ rest (omega (arith, length-drop i (take m (drop o xs))))
      ∙ ap (take n) cut
      ∙ take-take n (m - i) (drop j xs) (omega arith)
