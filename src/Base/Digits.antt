-- ===== src/Base/Digits.antt =====
-- The bitwise AND of C by its lowest digit, and masks of low bits as remainders.
use Prim.Native.Nat.{
  ℕ, zero, suc, ◌+◌, ◌-◌, ◌*◌, ◌/◌, ◌%◌, ◌^◌, ◌≤◌, ◌<◌, min, bit_and, bit_and-bitwise,
}
use mathlib.Core.Path.{◌≡◌, refl, ap, ◌∙◌}
use native.Mathlib.Nat.{pow-suc, one-le-pow}
use native.Mathlib.Omega.{arith}
use xbeepocs.Base.Halving.{half_fuel}

pub bit_and_step : (x y : ℕ) → bit_and x y ≡ bit_and (x / 2) (y / 2) * 2 + min (x % 2) (y % 2)
bit_and_step zero y = simp bit_and-bitwise (omega arith)
bit_and_step (suc x) y = simp bit_and-bitwise (omega (arith, half_fuel (λ rest. 0) min x y))

-- Both facts go down by halves, here with a bound in place of the number itself.
halving_zero : (bound x : ℕ) → x ≤ bound → bit_and x 0 ≡ 0
halving_zero bound zero le = refl
halving_zero zero (suc x) le = absurd (omega arith)
halving_zero (suc bound) (suc x) le =
    omega (arith, bit_and_step (suc x) 0, halving_zero bound (suc x / 2) (omega arith))

halving_self : (bound x : ℕ) → x ≤ bound → bit_and x x ≡ x
halving_self bound zero le = refl
halving_self zero (suc x) le = absurd (omega arith)
halving_self (suc bound) (suc x) le =
    omega (arith, bit_and_step (suc x) (suc x), halving_self bound (suc x / 2) (omega arith))

pub bit_and_self : (x : ℕ) → bit_and x x ≡ x
bit_and_self x = halving_self x x (omega arith)

-- The mask keeps the part of a number below the power.
keeps_low :
    (bits low high : ℕ) → low < 2 ^ bits → bit_and (high * 2 ^ bits + low) (2 ^ bits - 1) ≡ low
keeps_low zero low high small =
    halving_zero (high * 2 ^ 0 + low) (high * 2 ^ 0 + low) (omega arith) ∙ omega arith
keeps_low (suc bits) low high small =
    let double = pow-suc 2 bits in
    let wide : high * 2 ^ suc bits ≡ 2 * (high * 2 ^ bits) =
      omega (arith, ap (λ (p : ℕ). high * p) double) in
    let below = keeps_low bits (low / 2) high (omega (arith, double)) in
    ground (
      arith,
      bit_and_step (high * 2 ^ suc bits + low) (2 ^ suc bits - 1),
      wide,
      double,
      one-le-pow bits 2,
      below,
    )

-- A mask of `bits` low bits is the remainder by `2 ^ bits`.
pub bit_and_mask : (bits x : ℕ) → bit_and x (2 ^ bits - 1) ≡ x % 2 ^ bits
bit_and_mask bits x =
    ground (arith, one-le-pow bits 2, keeps_low bits (x % 2 ^ bits) (x / 2 ^ bits))
