-- ===== src/Time/Ranges.antt =====
-- xbee_time.c: the `int` values on the way through `xbee_mktime`, for fields that are not too large.
use native.Mathlib.Nat.{div-le_self}
use xbeepocs.Base.{
  Bool, Bool-cases, arith, false, get_or, holds_below, inl, inr, leb, ltb, ltb_ℤ, negsuc, pos, refl,
  sub_ℕ, suc, to_ℕ, true, zero, ℕ, ℤ, ◌%◌, ◌+ℤ◌, ◌+◌, ◌-◌, ◌/◌, ◌<◌, ◌==◌, ◌^◌, ◌≡◌, ◌≤◌,
}
use xbeepocs.Time.{
  dom, is_leap, normalize, prev_month, next_month, days_in_month, roll_back, roll_on,
}

abbrev pub magnitude : ℤ → ℕ
magnitude (pos n) = n
magnitude (negsuc n) = n + 1

-- The value fits in an `int`.
abbrev pub IsInt : ℤ → Type 0
IsInt z = magnitude z < 2 ^ 31

sub_ℕ_size : (a b : ℕ) → magnitude (sub_ℕ a b) ≤ a + b
sub_ℕ_size a b = elim (Bool-cases (ltb a b)) [
  | inl less ↦ let lt : a < b = ground (arith, less) in rw less (omega (arith, lt))
  | inr more ↦ rw more (omega arith)
]

pub add_size : (a b : ℤ) → magnitude (a +ℤ b) ≤ magnitude a + magnitude b
add_size (pos a) (pos b) = omega arith
add_size (pos a) (negsuc b) = sub_ℕ_size a (b + 1)
add_size (negsuc a) (pos b) = omega (arith, sub_ℕ_size b (a + 1))
add_size (negsuc a) (negsuc b) = omega arith

pub normalize_size :
    (major minor : ℤ) (count : ℕ)
    → magnitude (normalize major minor count).0 ≤ magnitude major + magnitude minor + 1
unfolding normalize
normalize_size major (pos n) count =
    omega (arith, add_size major (pos (n / count)), div-le_self n count)
normalize_size major (negsuc n) count = elim (Bool-cases ((n + 1) % count == 0)) [
  | inl even ↦
      rw (even, normalize)
        (omega (
          arith,
          add_size major (sub_ℕ 0 ((n + 1) / count)),
          sub_ℕ_size 0 ((n + 1) / count),
          div-le_self (n + 1) count,
        ))
  | inr odd ↦
      rw (odd, normalize)
        (omega (
          arith,
          add_size major (sub_ℕ 0 ((n + 1) / count + 1)),
          sub_ℕ_size 0 ((n + 1) / count + 1),
          div-le_self (n + 1) count,
        ))
]

prev_size : (year : ℤ) (mon : ℕ) → magnitude (prev_month year mon).0 ≤ magnitude year + 1
prev_size year zero = add_size year (negsuc 0)
prev_size year (suc mon) = omega arith

next_size : (year : ℤ) (mon : ℕ) → magnitude (next_month year mon).0 ≤ magnitude year + 1
next_size year mon = elim (Bool-cases (mon == 11)) [
  | inl last ↦ rw last (add_size year (pos 1))
  | inr other ↦ rw other (omega arith)
]

pub roll_back_size :
    (fuel : ℕ) (year : ℤ) (mon : ℕ) (mday : ℤ)
    → magnitude (roll_back fuel year mon mday).0 ≤ magnitude year + fuel
unfolding roll_back
roll_back_size zero year mon mday = omega arith
roll_back_size (suc fuel) year mon mday = elim (Bool-cases (ltb_ℤ mday 1)) [
  | inr inside ↦ rw (inside, roll_back) (omega arith)
  | inl before ↦
      let y = (prev_month year mon).0 in
      let m = (prev_month year mon).1 in
      rw (before, roll_back)
        (omega
          (arith, prev_size year mon, roll_back_size fuel y m (mday +ℤ pos (days_in_month y m))))
]

pub roll_on_size :
    (fuel : ℕ) (year : ℤ) (mon mday : ℕ)
    → magnitude (roll_on fuel year mon mday).0 ≤ magnitude year + fuel
unfolding roll_on
roll_on_size zero year mon mday = omega arith
roll_on_size (suc fuel) year mon mday = elim (Bool-cases (ltb (days_in_month year mon) mday)) [
  | inr inside ↦ rw (inside, roll_on) (omega arith)
  | inl past ↦
      rw (past, roll_on)
        (omega (
          arith,
          next_size year mon,
          roll_on_size fuel (next_month year mon).0 (next_month year mon).1
              (mday - days_in_month year mon),
        ))
]

-- A day before the first of a month comes at most to the end of the month before.
add_over : (mday : ℤ) (days : ℕ) → ltb_ℤ mday 1 ≡ true → to_ℕ (mday +ℤ pos days) ≤ days
add_over (pos n) days h = let small : n < 1 = ground (arith, h) in omega (arith, small)
add_over (negsuc n) days h = elim (Bool-cases (ltb days (n + 1))) [
  | inl under ↦ rw under (omega arith)
  | inr over ↦ rw over (omega arith)
]

pub month_size :
    (year : ℤ) (mon : ℕ) → mon < 12 → (28 ≤ days_in_month year mon) × (days_in_month year mon ≤ 31)
month_size year mon lt = go (is_leap year)
  where
    go : (leap : Bool) → (28 ≤ get_or (dom leap) mon 0) × (get_or (dom leap) mon 0 ≤ 31)
    go true =
        let lo = holds_below 12 (λ m. leb 28 (get_or (dom true) m 0)) mon refl lt in
        let hi = holds_below 12 (λ m. leb (get_or (dom true) m 0) 31) mon refl lt in
        (ground (arith, lo), ground (arith, hi))
    go false =
        let lo = holds_below 12 (λ m. leb 28 (get_or (dom false) m 0)) mon refl lt in
        let hi = holds_below 12 (λ m. leb (get_or (dom false) m 0) 31) mon refl lt in
        (ground (arith, lo), ground (arith, hi))

pub prev_month_bound : (year : ℤ) (mon : ℕ) → mon < 12 → (prev_month year mon).1 < 12
prev_month_bound year zero lt = omega arith
prev_month_bound year (suc mon) lt = omega arith

pub roll_back_day :
    (fuel bound : ℕ) (year : ℤ) (mon : ℕ) (mday : ℤ)
    → mon < 12
    → 31 ≤ bound
    → to_ℕ mday ≤ bound
    → to_ℕ (roll_back fuel year mon mday).2 ≤ bound
unfolding roll_back
roll_back_day zero bound year mon mday lt le small = small
roll_back_day (suc fuel) bound year mon mday lt le small = elim (Bool-cases (ltb_ℤ mday 1)) [
  | inr inside ↦ rw (inside, roll_back) small
  | inl before ↦
      let y = (prev_month year mon).0 in
      let m = (prev_month year mon).1 in
      rw (before, roll_back)
        (roll_back_day fuel bound y m (mday +ℤ pos (days_in_month y m))
          (prev_month_bound year mon lt) le
          (omega (
            arith,
            le,
            add_over mday (days_in_month y m) before,
            (month_size y m (prev_month_bound year mon lt)).1,
          )))
]
