-- ===== src/Base/Checks.antt =====
-- Facts about all numbers below a bound, found by running a test on each.
use Prim.Native.Nat.{ℕ, zero, suc, ◌<◌}
use mathlib.Core.Path.{◌≡◌, refl, subst}
use mathlib.Core.Logic.{inl, inr}
use mathlib.Core.Bool.{Bool, true, false, ◌&&◌}
use native.Mathlib.Omega.{arith}
use xbeepocs.Base.Tests.{◌==◌, Bool-cases}

abbrev pub all_below : ℕ → (ℕ → Bool) → Bool
all_below zero test = true
all_below (suc n) test = test n && all_below n test

and_both : (a b : Bool) → (a && b) ≡ true → (a ≡ true) × (b ≡ true)
and_both true b h = (refl, h)
and_both false b h = cc

pub holds_below :
    (n : ℕ) (test : ℕ → Bool) (i : ℕ) → all_below n test ≡ true → i < n → test i ≡ true
holds_below zero test i all lt = absurd (omega arith)
holds_below (suc n) test i all lt = elim (Bool-cases (i == n)) [
  | inl same ↦
      let eq : n ≡ i = ground (arith, same) in
      subst (λ k. test k ≡ true) eq (and_both (test n) (all_below n test) all).0
  | inr other ↦
      holds_below n test i (and_both (test n) (all_below n test) all).1 (ground (arith, other))
]
