-- ===== src/Base/Bits.antt =====
-- Single binary digits of the bitwise AND and OR of C.
use Prim.Native.Nat.{
  ℕ, zero, suc, ◌+◌, ◌*◌, ◌/◌, ◌%◌, ◌^◌, min, max, bit_and, bit_or, bit_or-bitwise,
}
use mathlib.Core.Path.{◌≡◌, sym, ap, ap₂, ◌∙◌}
use native.Mathlib.Omega.{arith}
use xbeepocs.Base.Halving.{half_fuel}
use xbeepocs.Base.Digits.{bit_and_step, bit_and_mask}
use xbeepocs.Base.Xor.{shift_more, twice_as_wide}

pub bit_or_step : (x y : ℕ) → bit_or x y ≡ bit_or (x / 2) (y / 2) * 2 + max (x % 2) (y % 2)
bit_or_step zero y = simp bit_or-bitwise (omega arith)
bit_or_step (suc x) y = simp bit_or-bitwise (omega (arith, half_fuel (λ rest. rest) max x y))

-- The digit at a place.
abbrev pub bit_at : ℕ → ℕ → ℕ
bit_at k x = x / 2 ^ k % 2

bit_at-zero : (x : ℕ) → bit_at 0 x ≡ x % 2
bit_at-zero x = omega arith

bit_at-suc : (k x : ℕ) → bit_at (suc k) x ≡ bit_at k (x / 2)
bit_at-suc k x = ap (λ n. n % 2) (shift_more k x)

pub bit_at-bit_or : (k x y : ℕ) → bit_at k (bit_or x y) ≡ max (bit_at k x) (bit_at k y)
bit_at-bit_or zero x y = omega (arith, bit_or_step x y)
bit_at-bit_or (suc k) x y =
    let half : bit_or x y / 2 ≡ bit_or (x / 2) (y / 2) = omega (arith, bit_or_step x y) in
    bit_at-suc k (bit_or x y)
    ∙ ap (bit_at k) half
    ∙ bit_at-bit_or k (x / 2) (y / 2)
    ∙ sym (ap₂ max (bit_at-suc k x) (bit_at-suc k y))

pub bit_at-bit_and : (k x y : ℕ) → bit_at k (bit_and x y) ≡ min (bit_at k x) (bit_at k y)
bit_at-bit_and zero x y = omega (arith, bit_and_step x y)
bit_at-bit_and (suc k) x y =
    let half : bit_and x y / 2 ≡ bit_and (x / 2) (y / 2) = omega (arith, bit_and_step x y) in
    bit_at-suc k (bit_and x y)
    ∙ ap (bit_at k) half
    ∙ bit_at-bit_and k (x / 2) (y / 2)
    ∙ sym (ap₂ min (bit_at-suc k x) (bit_at-suc k y))

-- A mask of high digits.
bit_and_shifted : (k x y : ℕ) → bit_and x (y * 2 ^ k) ≡ bit_and (x / 2 ^ k) y * 2 ^ k
bit_and_shifted zero x y =
    let whole : x ≡ x / 2 ^ 0 = omega arith in
    let mask : y * 2 ^ 0 ≡ y = omega arith in
    let same : bit_and x (y * 2 ^ 0) ≡ bit_and (x / 2 ^ 0) y = ap₂ bit_and whole mask in
    omega (arith, same)
bit_and_shifted (suc k) x y =
    let wide = twice_as_wide k y in
    let halves : bit_and (x / 2) (y * 2 ^ suc k / 2) ≡ bit_and (x / 2 ^ suc k) y * 2 ^ k =
      ap (bit_and (x / 2)) {y = y * 2 ^ k} (omega (arith, wide))
      ∙ bit_and_shifted k (x / 2) y
      ∙ ap (λ n. bit_and n y * 2 ^ k) (sym (shift_more k x)) in
    omega (
      arith,
      bit_and_step x (y * 2 ^ suc k),
      halves,
      wide,
      twice_as_wide k (bit_and (x / 2 ^ suc k) y),
    )

pub bit_and_high_byte : (x : ℕ) → bit_and x 0xff00 ≡ x / 2 ^ 8 % 2 ^ 8 * 2 ^ 8
bit_and_high_byte x = bit_and_shifted 8 x 255 ∙ ap (λ n. n * 2 ^ 8) (bit_and_mask 8 (x / 2 ^ 8))
