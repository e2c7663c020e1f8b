-- ===== src/Cbuf/Index.antt =====
-- The representation invariant of `xbee_cbuf_t`, and what the masked indices come to.
use native.Mathlib.Nat.{mod-eq_of_lt, add-mul-mod_self_right}
use native.Mathlib.Decide.{dec_lt}
use xbeepocs.Base.{
  Bool-cases, ap, arith, bit_and, bit_and_mask, false, inl, inr, length, ltb, none, not, refl, some,
  sub_u32, subst, sym, u32, ℕ, ◌%◌, ◌*◌, ◌+◌, ◌-◌, ◌<◌, ◌==◌, ◌^◌, ◌||◌, ◌∙◌, ◌≡◌, ◌≢◌, ◌≤◌,
}
use xbeepocs.Cbuf.{Cbuf, init, used, free, end_space}
use xbeepocs.Cbuf.Mask.{ones_of_and_eq_zero, and-suc_of_ones, u32_multiple, bits_bound, bits_small}

-- `mask` is a number of ones, both indices are inside the array, and the array has its
-- separator byte.
pub record IsValid (c : Cbuf) : Type 0 where
  pub bits : ℕ
  pub size : c.mask + 1 ≡ 2 ^ bits
  pub bits_le : bits ≤ 31
  pub at_least : 3 ≤ c.mask
  pub head_in : c.head ≤ c.mask
  pub tail_in : c.tail ≤ c.mask
  pub room : c.mask < length c.bytes

pub mask_small : {c : Cbuf} → IsValid c → c.mask < 2 ^ 31
mask_small {c} v = bits_small v.bits c.mask v.size v.bits_le

pub and_mask : {c : Cbuf} → IsValid c → (a : ℕ) → bit_and a c.mask ≡ a % (c.mask + 1)
and_mask {c} v a =
    let ones : c.mask ≡ 2 ^ v.bits - 1 = omega (arith, v.size) in
    subst (λ m. bit_and a m ≡ a % (c.mask + 1)) (sym ones)
      (bit_and_mask v.bits a ∙ ap (λ m. a % m) (sym v.size))

module _ {c : Cbuf} (v : IsValid c) where
  -- What a subtraction below zero wraps to, under the mask.
  pub and_mask_neg :
      (x d : ℕ) → 0 < d → d ≤ c.mask + 1 → x ≡ 2 ^ 32 - d → bit_and x c.mask ≡ c.mask + 1 - d
  and_mask_neg x d above h e =
      let (q, m) = u32_multiple v.bits (omega (arith, v.bits_le)) in
      let split : x ≡ c.mask + 1 - d + q * (c.mask + 1) =
        omega (arith, m, ap (λ (t : ℕ). q * t) v.size, v.size) in
      and_mask v x
      ∙ ap (λ t. t % (c.mask + 1)) split
      ∙ add-mul-mod_self_right (c.mask + 1 - d) q (c.mask + 1)
      ∙ mod-eq_of_lt (omega arith)

  and_mask_lt : (x : ℕ) → x ≤ c.mask → bit_and x c.mask ≡ x
  and_mask_lt x h = and_mask v x ∙ mod-eq_of_lt (omega arith)

  -- The index after the last of the array is the first.
  pub next_index_wrap : (i : ℕ) → i ≡ c.mask → bit_and (u32 (i + 1)) c.mask ≡ 0
  next_index_wrap i e =
      let small : u32 (i + 1) ≡ c.mask + 1 = omega (arith, mask_small v) in
      and_mask v (u32 (i + 1)) ∙ ap (λ t. t % (c.mask + 1)) small ∙ grind arith

  pub next_index_lt : (i : ℕ) → i < c.mask → bit_and (u32 (i + 1)) c.mask ≡ i + 1
  next_index_lt i h =
      let small : u32 (i + 1) ≡ i + 1 = omega (arith, mask_small v) in
      ap (λ t. bit_and t c.mask) small ∙ and_mask_lt (i + 1) (omega arith)

  -- The used bytes: from the head to the tail, round the end of the array.
  pub used_le : c.head ≤ c.tail → used c ≡ c.tail - c.head
  unfolding used
  used_le h =
      let plain : sub_u32 c.tail c.head ≡ c.tail - c.head = omega (arith, mask_small v, v) in
      ap (λ t. bit_and t c.mask) plain ∙ and_mask_lt (c.tail - c.head) (omega (arith, v.tail_in))

  pub used_lt : c.tail < c.head → used c ≡ c.tail + (c.mask + 1) - c.head
  unfolding used
  used_lt h =
      and_mask_neg (sub_u32 c.tail c.head) (c.head - c.tail) (omega arith)
        (omega (arith, v.head_in)) (omega (arith, mask_small v, v.head_in))
      ∙ omega (arith, v.head_in)

  free_lt : c.tail < c.head → free c ≡ c.head - c.tail - 1
  unfolding free
  free_lt h =
      let plain : sub_u32 (sub_u32 c.head c.tail) 1 ≡ c.head - c.tail - 1 =
        omega (arith, mask_small v, v.head_in) in
      ap (λ t. bit_and t c.mask) plain
      ∙ and_mask_lt (c.head - c.tail - 1) (omega (arith, v.head_in))

  free_le : c.head ≤ c.tail → free c ≡ c.mask - (c.tail - c.head)
  unfolding free
  free_le h =
      and_mask_neg (sub_u32 (sub_u32 c.head c.tail) 1) (c.tail - c.head + 1) (omega arith)
        (omega (arith, v.tail_in)) (omega (arith, mask_small v, v.tail_in))
      ∙ omega (arith, v.tail_in)

  -- Used and free bytes of a valid buffer make up its capacity, `mask`: one byte of the array
  -- is always left as the separator.
  pub used-add-free : used c + free c ≡ c.mask
  used-add-free = elim (dec_lt c.tail c.head) [
    | yes p ↦ omega (arith, used_lt p, free_lt p, v.head_in)
    | no p ↦ omega (arith, used_le (omega arith), free_le (omega arith), v.tail_in)
  ]

  pub end_space_lem : (i : ℕ) → i ≤ c.mask → end_space c.mask i ≡ c.mask + 1 - i
  end_space_lem i h = omega (arith, mask_small v)

test_bounds :
    (n : ℕ)
    → n < 2 ^ 31
    → (ltb n 3 || not (bit_and n (u32 (n + 1)) == 0)) ≡ false
    → (3 ≤ n) × (bit_and n (n + 1) ≡ 0)
test_bounds n small e =
    let plain : u32 (n + 1) ≡ n + 1 = omega arith in
    let e' : (ltb n 3 || not (bit_and n (n + 1) == 0)) ≡ false = rw plain at e in ground arith

-- A size that passes the test gives a valid, empty buffer of that capacity.
init_fresh :
    (c : Cbuf) (n : ℕ)
    → n < length c.bytes
    → n < 2 ^ 31
    → 3 ≤ n
    → (k : ℕ) × (n + 1 ≡ 2 ^ k)
    → IsValid (record c { mask = n; head = 0; tail = 0 })
init_fresh c n room small three (k, e) = record {
  bits = k;
  size = e;
  bits_le = bits_bound k n e small;
  at_least = three;
  head_in = omega arith;
  tail_in = omega arith;
  room = room;
}

-- For a size below 2 ^ 31 and an array with room for the separator, `xbee_cbuf_init` accepts
-- exactly the sizes that are at least 3 and a power of 2 less 1; what it then sets up is valid,
-- empty, and has that capacity.
pub init-IsValid :
    (c : Cbuf) (n : ℕ)
    → n < length c.bytes
    → n < 2 ^ 31
    → ((d : Cbuf) → init (some c) n ≡ some d → IsValid d × (used d ≡ 0) × (d.mask ≡ n))
      × ((k : ℕ) → 3 ≤ n → n + 1 ≡ 2 ^ k → init (some c) n ≢ none)
unfolding init
init-IsValid c n room small = (accepts, λ k three e. refuses k three e)
  where
    fresh : Cbuf
    fresh = record c { mask = n; head = 0; tail = 0 }

    fresh-IsEmpty : IsValid fresh → IsValid fresh × (used fresh ≡ 0) × (fresh.mask ≡ n)
    fresh-IsEmpty v = (v, used_le v (omega arith), refl)

    accepts : (d : Cbuf) → init (some c) n ≡ some d → IsValid d × (used d ≡ 0) × (d.mask ≡ n)
    accepts d e = elim (Bool-cases (ltb n 3 || not (bit_and n (u32 (n + 1)) == 0))) [
      | inl bad ↦ absurd (cc (rw bad at e))
      | inr good ↦
          let (three, ones) = test_bounds n small good in
          let same : fresh ≡ d = cc (rw good at e) in
          subst (λ d. IsValid d × (used d ≡ 0) × (d.mask ≡ n)) same
            (fresh-IsEmpty (init_fresh c n room small three (ones_of_and_eq_zero n ones)))
    ]

    refuses : (k : ℕ) → 3 ≤ n → n + 1 ≡ 2 ^ k → init (some c) n ≢ none
    refuses k three e h =
        let plain : u32 (n + 1) ≡ n + 1 = omega arith in
        let ones : bit_and n (u32 (n + 1)) ≡ 0 = rw plain (and-suc_of_ones k n e) in ground arith
