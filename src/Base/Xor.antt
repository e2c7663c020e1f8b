-- ===== src/Base/Xor.antt =====
-- The exclusive or of C by its lowest digit, and its laws.
use Prim.Native.Nat.{
  ℕ, zero, suc, ◌+◌, ◌*◌, ◌/◌, ◌%◌, ◌^◌, ◌≤◌, ◌<◌, bit_and, bit_xor, differ, bit_xor-bitwise,
}
use mathlib.Core.Path.{◌≡◌, refl, sym, ap, ap₂, ◌∙◌}
use native.Mathlib.Nat.{pow-suc, pow-succ', div-div-eq-div-mul, div-add-mod'}
use native.Mathlib.Omega.{arith}
use xbeepocs.Base.Halving.{half_fuel}
use xbeepocs.Base.Digits.{bit_and_step, bit_and_mask}

-- Two digits differ if their sum is odd.
differ_digits : (a b : ℕ) → a < 2 → b < 2 → differ a b ≡ (a + b) % 2
differ_digits zero zero la lb = refl
differ_digits zero (suc zero) la lb = refl
differ_digits (suc zero) zero la lb = refl
differ_digits (suc zero) (suc zero) la lb = refl
differ_digits zero (suc (suc b)) la lb = absurd (omega arith)
differ_digits (suc zero) (suc (suc b)) la lb = absurd (omega arith)
differ_digits (suc (suc a)) b la lb = absurd (omega arith)

pub bit_xor_step : (x y : ℕ) → bit_xor x y ≡ bit_xor (x / 2) (y / 2) * 2 + (x + y) % 2
bit_xor_step zero y = simp bit_xor-bitwise (omega arith)
bit_xor_step (suc x) y =
    let digit = differ_digits (suc x % 2) (y % 2) (omega arith) (omega arith) in
    simp bit_xor-bitwise (omega (arith, half_fuel (λ rest. rest) differ x y, digit))

pub bit_xor-half : (x y : ℕ) → bit_xor x y / 2 ≡ bit_xor (x / 2) (y / 2)
bit_xor-half x y = omega (arith, bit_xor_step x y)

bit_xor_odd : (x y : ℕ) → bit_xor x y % 2 ≡ (x + y) % 2
bit_xor_odd x y = omega (arith, bit_xor_step x y)

-- Each law goes down by halves, with a bound in place of the numbers.
halving_assoc :
    (bound x y z : ℕ) → x + y + z ≤ bound → bit_xor (bit_xor x y) z ≡ bit_xor x (bit_xor y z)
halving_assoc bound zero zero zero le = refl
halving_assoc zero (suc x) y z le = absurd (omega arith)
halving_assoc zero zero (suc y) z le = absurd (omega arith)
halving_assoc zero zero zero (suc z) le = absurd (omega arith)
halving_assoc (suc bound) x y z le =
    let left = ap (λ h. bit_xor h (z / 2)) (bit_xor-half x y) in
    let right = ap (λ h. bit_xor (x / 2) h) (bit_xor-half y z) in
    let ih = halving_assoc bound (x / 2) (y / 2) (z / 2) (omega arith) in
    omega (
      arith,
      bit_xor_step (bit_xor x y) z,
      bit_xor_step x (bit_xor y z),
      bit_xor_odd x y,
      bit_xor_odd y z,
      left,
      right,
      ih,
    )

pub bit_xor_assoc : (x y z : ℕ) → bit_xor (bit_xor x y) z ≡ bit_xor x (bit_xor y z)
bit_xor_assoc x y z = halving_assoc (x + y + z) x y z (omega arith)

halving_comm : (bound x y : ℕ) → x + y ≤ bound → bit_xor x y ≡ bit_xor y x
halving_comm bound zero zero le = refl
halving_comm zero (suc x) y le = absurd (omega arith)
halving_comm zero zero (suc y) le = absurd (omega arith)
halving_comm (suc bound) x y le =
    omega
      (arith, bit_xor_step x y, bit_xor_step y x, halving_comm bound (x / 2) (y / 2) (omega arith))

pub bit_xor_comm : (x y : ℕ) → bit_xor x y ≡ bit_xor y x
bit_xor_comm x y = halving_comm (x + y) x y (omega arith)

halving_self : (bound x : ℕ) → x ≤ bound → bit_xor x x ≡ 0
halving_self bound zero le = refl
halving_self zero (suc x) le = absurd (omega arith)
halving_self (suc bound) (suc x) le =
    omega (arith, bit_xor_step (suc x) (suc x), halving_self bound (suc x / 2) (omega arith))

pub bit_xor_self : (x : ℕ) → bit_xor x x ≡ 0
bit_xor_self x = halving_self x x (omega arith)

pub zero-bit_xor : (x : ℕ) → bit_xor 0 x ≡ x
zero-bit_xor x = simp bit_xor-bitwise refl

-- Shifting by one digit more, and keeping one more.
pub shift_more : (k x : ℕ) → x / 2 ^ suc k ≡ x / 2 / 2 ^ k
shift_more k x = ap (λ p. x / p) (pow-succ' 2 k) ∙ sym (div-div-eq-div-mul x 2 (2 ^ k))

pub twice_as_wide : (k q : ℕ) → q * 2 ^ suc k ≡ 2 * (q * 2 ^ k)
twice_as_wide k q = omega (arith, ap (λ (p : ℕ). q * p) (pow-suc 2 k))

keep_more : (k x : ℕ) → x % 2 ^ suc k ≡ x / 2 % 2 ^ k * 2 + x % 2
keep_more k x = omega (
  arith,
  div-add-mod' x (2 ^ suc k),
  div-add-mod' (x / 2) (2 ^ k),
  ap (λ (q : ℕ). q * 2 ^ k) (shift_more k x),
  twice_as_wide k (x / 2 ^ suc k),
)

-- The low digits, and those above them.
pub bit_xor-mod : (k x y : ℕ) → bit_xor x y % 2 ^ k ≡ bit_xor (x % 2 ^ k) (y % 2 ^ k)
bit_xor-mod zero x y =
    let none_left : (n : ℕ) → n % 2 ^ 0 ≡ 0 = λ n. omega arith in
    none_left (bit_xor x y) ∙ sym (ap₂ bit_xor (none_left x) (none_left y))
bit_xor-mod (suc k) x y =
    let halves : bit_xor (x % 2 ^ suc k / 2) (y % 2 ^ suc k / 2)
        ≡ bit_xor (x / 2 % 2 ^ k) (y / 2 % 2 ^ k) =
      ap₂ bit_xor (omega (arith, keep_more k x)) (omega (arith, keep_more k y)) in
    omega (
      arith,
      keep_more k (bit_xor x y),
      keep_more k x,
      keep_more k y,
      ap (λ h. h % 2 ^ k) (bit_xor-half x y),
      bit_xor_odd x y,
      bit_xor-mod k (x / 2) (y / 2),
      bit_xor_step (x % 2 ^ suc k) (y % 2 ^ suc k),
      halves,
    )

pub bit_xor-div : (k x y : ℕ) → bit_xor x y / 2 ^ k ≡ bit_xor (x / 2 ^ k) (y / 2 ^ k)
bit_xor-div zero x y =
    let whole : (n : ℕ) → n / 2 ^ 0 ≡ n = λ n. omega arith in
    whole (bit_xor x y) ∙ sym (ap₂ bit_xor (whole x) (whole y))
bit_xor-div (suc k) x y =
    shift_more k (bit_xor x y)
    ∙ ap (λ h. h / 2 ^ k) (bit_xor-half x y)
    ∙ bit_xor-div k (x / 2) (y / 2)
    ∙ sym (ap₂ bit_xor (shift_more k x) (shift_more k y))

-- Fields that do not overlap.
pub bit_xor_fields :
    (k high low : ℕ) → low < 2 ^ k → bit_xor (high * 2 ^ k) low ≡ high * 2 ^ k + low
bit_xor_fields zero high low lt =
    let none_left : low ≡ 0 = omega (arith, lt) in
    ap (bit_xor (high * 2 ^ 0)) none_left
    ∙ bit_xor_comm (high * 2 ^ 0) 0
    ∙ zero-bit_xor (high * 2 ^ 0)
    ∙ omega (arith, none_left)
bit_xor_fields (suc k) high low lt =
    let wide = twice_as_wide k high in
    let halves : bit_xor (high * 2 ^ suc k / 2) (low / 2) ≡ bit_xor (high * 2 ^ k) (low / 2) =
      ap (λ h. bit_xor h (low / 2)) (omega (arith, wide)) in
    omega (
      arith,
      bit_xor_step (high * 2 ^ suc k) low,
      halves,
      wide,
      bit_xor_fields k high (low / 2) (omega (arith, lt, pow-suc 2 k)),
    )

-- A single digit of `bit_and`.
pub bit_and_digit : (k x : ℕ) → bit_and x (2 ^ k) ≡ x / 2 ^ k % 2 * 2 ^ k
bit_and_digit zero x = omega (arith, bit_and_step x 1, bit_and_comm_zero (x / 2))
  where
    bit_and_comm_zero : (n : ℕ) → bit_and n 0 ≡ 0
    bit_and_comm_zero n = bit_and_mask 0 n ∙ omega arith
bit_and_digit (suc k) x =
    let halves : bit_and (x / 2) (2 ^ suc k / 2) ≡ bit_and (x / 2) (2 ^ k) =
      ap (bit_and (x / 2)) (omega (arith, pow-suc 2 k)) in
    omega (
      arith,
      bit_and_step x (2 ^ suc k),
      halves,
      pow-suc 2 k,
      bit_and_digit k (x / 2),
      ap (λ q. q % 2 * 2 ^ suc k) (shift_more k x),
      twice_as_wide k (x / 2 / 2 ^ k % 2),
    )
