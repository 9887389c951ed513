-- ===== src/Base/Table.antt =====
-- A statement about every number below a bound, decided by running through them.
use Prim.Native.Nat.{ℕ, zero, suc, ◌<◌}
use mathlib.Core.Path.{◌≡◌}
use mathlib.Core.Bool.{Bool, true, false}
use native.Mathlib.Omega.{arith}
use mini_web_srv.Base.Tests.{if◌then◌else◌}

module _ (p : ℕ → Bool) where
  unfoldable pub passes : ℕ → Bool
  passes zero = true
  passes (suc n) = let rest = passes n in if p n then rest else false

  pub passes-all : (n x : ℕ) → passes n ≡ true → x < n → p x ≡ true
  unfolding passes
  passes-all zero x e h = absurd (omega arith)
  passes-all (suc n) x e h = ground (arith, passes-all n x)
