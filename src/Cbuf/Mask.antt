-- ===== src/Cbuf/Mask.antt =====
-- The test `datasize & (datasize + 1)` and the masks of xbee_cbuf.c, as arithmetic.
use mathlib.Core.WellFounded
use native.Mathlib.Nat.{pow-suc, zero-add, suc-add, one-le-pow, pow-le-pow_right}
use native.Mathlib.Decide.{dec_le}
use xbeepocs.Base.{
  Bool-cases, ap, arith, bit_and, bit_and_self, bit_and_step, inl, inr, lt_wf, refl, suc, sym, zero,
  ℕ, ◌%◌, ◌*◌, ◌+◌, ◌-◌, ◌/◌, ◌<◌, ◌==◌, ◌^◌, ◌∙◌, ◌≡◌, ◌≤◌,
}

-- `m & (m + 1)` is zero only for a number of ones.
pub ones_of_and_eq_zero : (m : ℕ) → bit_and m (m + 1) ≡ 0 → (k : ℕ) × (m + 1 ≡ 2 ^ k)
ones_of_and_eq_zero m =
    WellFounded.induction lt_wf {C = λ n. bit_and n (n + 1) ≡ 0 → (k : ℕ) × (n + 1 ≡ 2 ^ k)} m digit
  where
    grow : (n : ℕ) → n % 2 ≡ 1 → (k : ℕ) × (n / 2 + 1 ≡ 2 ^ k) → (k : ℕ) × (n + 1 ≡ 2 ^ k)
    grow n odd (k, e) = (suc k, omega (arith, e, pow-suc 2 k))

    digit :
        (n : ℕ)
        → ((j : ℕ) → j < n → bit_and j (j + 1) ≡ 0 → (k : ℕ) × (j + 1 ≡ 2 ^ k))
        → bit_and n (n + 1) ≡ 0
        → (k : ℕ) × (n + 1 ≡ 2 ^ k)
    digit zero ih h = (0, refl)
    digit (suc n) ih h = elim (Bool-cases (suc n % 2 == 1)) [
      | inl o ↦
          let odd : suc n % 2 ≡ 1 = ground arith in
          let next : (suc n + 1) / 2 ≡ suc n / 2 + 1 = omega arith in
          let low : bit_and (suc n / 2) ((suc n + 1) / 2) ≡ 0 =
            omega (arith, bit_and_step (suc n) (suc n + 1)) in
          grow (suc n) odd (ih (suc n / 2) (omega arith) (rw next at low))
      | inr z ↦
          let even : suc n % 2 ≡ 0 = ground arith in
          let same : (suc n + 1) / 2 ≡ suc n / 2 = omega arith in
          let low : bit_and (suc n / 2) ((suc n + 1) / 2) ≡ 0 =
            omega (arith, bit_and_step (suc n) (suc n + 1)) in
          absurd (omega (arith, bit_and_self (suc n / 2), rw same at low))
    ]

-- A number of ones shares no digit with its successor.
pub and-suc_of_ones : (k m : ℕ) → m + 1 ≡ 2 ^ k → bit_and m (m + 1) ≡ 0
and-suc_of_ones zero m e = let z : m ≡ 0 = omega arith in rw z
and-suc_of_ones (suc k) m e =
    let half : m / 2 + 1 ≡ 2 ^ k = omega (arith, pow-suc 2 k) in
    let next : (m + 1) / 2 ≡ m / 2 + 1 = omega (arith, pow-suc 2 k) in
    let low : bit_and (m / 2) ((m + 1) / 2) ≡ 0 = rw next (and-suc_of_ones k (m / 2) half) in
    omega (arith, bit_and_step m (m + 1), pow-suc 2 k, low)

pow-add_two : (a b : ℕ) → 2 ^ (a + b) ≡ 2 ^ a * 2 ^ b
pow-add_two zero b = rw zero-add (omega arith)
pow-add_two (suc a) b =
    rw suc-add
      (omega (arith, pow-suc 2 (a + b), ap (λ (t : ℕ). t * 2 ^ b) (pow-suc 2 a), pow-add_two a b))

-- The range of `unsigned int` is a multiple of the buffer's size.
pub u32_multiple : (k : ℕ) → k ≤ 32 → (q : ℕ) × (2 ^ 32 ≡ 2 ^ k + q * 2 ^ k)
u32_multiple k h = (2 ^ (32 - k) - 1, split)
  where
    whole : 2 ^ (32 - k) * 2 ^ k ≡ 2 ^ 32
    whole = sym (pow-add_two (32 - k) k) ∙ ap (λ e. 2 ^ e) {y = 32} (omega arith)

    split : 2 ^ 32 ≡ 2 ^ k + (2 ^ (32 - k) - 1) * 2 ^ k
    split =
        let above : 1 ≤ 2 ^ (32 - k) = one-le-pow (32 - k) 2 (omega arith) in
        let one_more : 2 ^ (32 - k) ≡ suc (2 ^ (32 - k) - 1) = omega arith in
        omega (arith, whole, ap (λ (t : ℕ). t * 2 ^ k) one_more)

-- A number of ones below 2 ^ 31 has at most 31 of them.
pub bits_bound : (k m : ℕ) → m + 1 ≡ 2 ^ k → m < 2 ^ 31 → k ≤ 31
bits_bound k m e h = elim (dec_le k 31) [
  | yes p ↦ p
  | no p ↦
      let big : 2 ^ 32 ≤ 2 ^ k = pow-le-pow_right {n = 2} (omega arith) {i = 32} (omega arith) in
      absurd (omega arith)
]

pub bits_small : (k m : ℕ) → m + 1 ≡ 2 ^ k → k ≤ 31 → m < 2 ^ 31
bits_small k m e h =
    let big : 2 ^ k ≤ 2 ^ 31 = pow-le-pow_right {n = 2} (omega arith) {j = 31} (omega arith) in
    omega arith
