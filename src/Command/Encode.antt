-- ===== src/Command/Encode.antt =====
-- `_xbee_cmd_encode_param`: the parameter bytes of an AT command.
use xbeepocs.Base.{
  Bool-cases, List, [], arith, inl, inr, length, not, refl, u32, ℕ, ◌*◌, ◌+◌, ◌/◌, ◌<◌, ◌==◌, ◌^◌,
  ◌∷◌, ◌≡◌, ◌≤◌,
}
use xbeepocs.Command.{encode_param}

-- The number that big-endian bytes stand for, after those that gave `n`.
abbrev pub be_value : ℕ → List ℕ → ℕ
be_value n [] = n
be_value n (b ∷ bytes) = be_value (n * 256 + b) bytes

-- A 32-bit value is stored in the fewest of 1, 2 or 4 bytes that hold it, big-endian: read
-- back, the bytes give the value.
pub encode_param_lem :
    (value : ℕ)
    → value < 2 ^ 32
    → (be_value 0 (encode_param value) ≡ value)
      × (value < 2 ^ 8 → length (encode_param value) ≡ 1)
      × (2 ^ 8 ≤ value → value < 2 ^ 16 → length (encode_param value) ≡ 2)
      × (2 ^ 16 ≤ value → length (encode_param value) ≡ 4)
unfolding encode_param
encode_param_lem value h = elim (Bool-cases (not (u32 value / 2 ^ 16 == 0))) [
  | inl big ↦
      let large : 2 ^ 16 ≤ value = ground (arith, big) in
      rw big (omega arith, λ a. absurd (omega arith), λ a b. absurd (omega arith), λ a. refl)
  | inr small ↦
      let under : value < 2 ^ 16 = ground (arith, small) in
      elim (Bool-cases (not (u32 value / 2 ^ 8 == 0))) [
        | inl two ↦
            let over : 2 ^ 8 ≤ value = ground (arith, two) in
            rw (small, two)
              (omega arith, λ a. absurd (omega arith), λ a b. refl, λ a. absurd (omega arith))
        | inr one ↦
            let byte : value < 2 ^ 8 = ground (arith, one) in
            rw (small, one)
              (omega arith, λ a. refl, λ a b. absurd (omega arith), λ a. absurd (omega arith))
      ]
]

-- Whatever the value, there are four bytes at most.
pub length-encode_param : (value : ℕ) → length (encode_param value) ≤ 4
unfolding encode_param
length-encode_param value = ground arith
