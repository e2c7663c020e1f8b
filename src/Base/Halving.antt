-- ===== src/Base/Halving.antt =====
-- The recursion of the bitwise operations on fuel: any fuel above the number does as well.
use Prim.Native.Nat.{ℕ, zero, suc, ◌+◌, ◌-◌, ◌/◌, ◌≤◌, digits}
use mathlib.Core.Path.{◌≡◌, refl, sym, ap, ◌∙◌}
use native.Mathlib.Omega.{arith}

-- `rest` is for the digits of the second number above those of the first, `join` for two digits.
module _ (rest : ℕ → ℕ) (join : ℕ → ℕ → ℕ) where
  abbrev pub join_digits : ℕ → ℕ → ℕ → ℕ
  join_digits fuel x y = digits rest join fuel x y

  one_more : (fuel x y : ℕ) → x ≤ fuel → join_digits (suc fuel) x y ≡ join_digits fuel x y
  one_more fuel zero y le = at_zero fuel
    where
      at_zero : (n : ℕ) → join_digits (suc n) zero y ≡ join_digits n zero y
      at_zero zero = refl
      at_zero (suc n) = refl
  one_more zero (suc x) y le = absurd (omega arith)
  one_more (suc fuel) (suc x) y le = rw (one_more fuel (suc x / 2) (y / 2) (omega arith))

  spare_fuel : (spare x y : ℕ) → join_digits (x + spare) x y ≡ join_digits x x y
  spare_fuel zero x y = ap (λ n. join_digits n x y) (omega arith)
  spare_fuel (suc spare) x y =
      let next : x + suc spare ≡ suc (x + spare) = omega arith in
      ap (λ n. join_digits n x y) next
      ∙ one_more (x + spare) x y (omega arith)
      ∙ spare_fuel spare x y

  -- The fuel of the whole number is enough for its half.
  pub half_fuel :
      (x y : ℕ) → join_digits x (suc x / 2) (y / 2) ≡ join_digits (suc x / 2) (suc x / 2) (y / 2)
  half_fuel x y =
      let exact : suc x / 2 + (x - suc x / 2) ≡ x = omega arith in
      ap (λ n. join_digits n (suc x / 2) (y / 2)) (sym exact)
      ∙ spare_fuel (x - suc x / 2) (suc x / 2) (y / 2)
