-- ===== src/Time/Moments.antt =====
-- xbee_time.c: when two broken-down times, fields out of range among them, are the same moment.
use native.Mathlib.Nat.{mod-lt, div-add-mod', add-mul, one-mul}
use xbeepocs.Base.{
  ==_iff, Bool, Bool-cases, ap, arith, false, get_or, inl, inr, ltb, ltb_ℤ, negsuc, pos, refl,
  sub_ℕ, subst, suc, sym, true, zero, ℕ, ℤ, ◌%◌, ◌*◌, ◌+ℤ◌, ◌+◌, ◌-◌, ◌/◌, ◌<◌, ◌==◌, ◌∙◌, ◌≡◌, ◌≤◌,
}
use xbeepocs.Time.{dom, is_leap, normalize, next_month, days_in_month, roll_back, roll_on}

-- A number of units is carried: `c` units of `count`, over or, if it is negative, short.
pub data IsCarried (major minor : ℤ) (count : ℕ) (major' : ℤ) (minor' : ℕ) : Type 0 where
  over :
      (c : ℕ)
      → major' ≡ major +ℤ pos c
      → minor ≡ pos (c * count + minor')
      → IsCarried major minor count major' minor'
  short :
      (c : ℕ)
      → major' ≡ major +ℤ sub_ℕ 0 c
      → minor +ℤ pos (c * count) ≡ pos minor'
      → IsCarried major minor count major' minor'

sub_ℕ_over : (a b k : ℕ) → a ≡ b + k → sub_ℕ a b ≡ pos k
sub_ℕ_over a b k e =
    let test : ltb a b ≡ false = ground (arith, e) in
    let left : a - b ≡ k = omega (arith, e) in rw test (ap pos left)

pub normalize-IsCarried :
    (major minor : ℤ) (count : ℕ)
    → 0 < count
    → IsCarried major minor count (normalize major minor count).0 (normalize major minor count).1
unfolding normalize
normalize-IsCarried major (pos n) count some_count =
    over (n / count) refl (ap pos (sym (div-add-mod' n count)))
normalize-IsCarried major (negsuc n) count some_count =
    let whole = div-add-mod' (n + 1) count in
    elim (Bool-cases ((n + 1) % count == 0)) [
      | inl even ↦
          let none_left : (n + 1) % count ≡ 0 = ground (arith, even) in
          let all : (n + 1) / count * count ≡ n + 1 = omega (arith, whole, none_left) in
          rw (even, normalize)
            (short ((n + 1) / count) refl
              (sub_ℕ_over ((n + 1) / count * count) (n + 1) 0 (omega (arith, all))))
      | inr odd ↦
          let rest : 0 < (n + 1) % count = ground (arith, odd) in
          let below : (n + 1) % count < count = mod-lt (n + 1) some_count in
          let one_more = add-mul ((n + 1) / count) 1 count in
          let one : 1 * count ≡ count = one-mul count in
          let more : ((n + 1) / count + 1) * count ≡ (n + 1) / count * count + count =
            omega (arith, one_more, one) in
          rw (odd, normalize)
            (short ((n + 1) / count + 1) refl (
              sub_ℕ_over (((n + 1) / count + 1) * count) (n + 1) (count - (n + 1) % count)
                (omega (arith, whole, below, more))))
    ]

-- A date is the same day as another: the month before has its days more, the month after fewer,
-- and December is next to January of the next year. A day may be out of its month.
pub data IsSameDay (year' : ℤ) (mon' : ℕ) (mday' : ℤ) : ℤ → ℕ → ℤ → Type 0 where
  same : IsSameDay year' mon' mday' year' mon' mday'
  month_back :
      {year mday : ℤ} {mon : ℕ}
      → IsSameDay year' mon' mday' year mon (mday +ℤ pos (days_in_month year mon))
      → IsSameDay year' mon' mday' year (suc mon) mday
  year_back :
      {year mday : ℤ}
      → IsSameDay year' mon' mday' (year +ℤ negsuc 0) 11 (mday +ℤ pos 31)
      → IsSameDay year' mon' mday' year 0 mday
  month_on :
      {year mday : ℤ} {mon : ℕ}
      → mon < 11
      → IsSameDay year' mon' mday' year (suc mon) mday
      → IsSameDay year' mon' mday' year mon (mday +ℤ pos (days_in_month year mon))
  year_on :
      {year mday : ℤ}
      → IsSameDay year' mon' mday' (year +ℤ pos 1) 0 mday
      → IsSameDay year' mon' mday' year 11 (mday +ℤ pos 31)

december : (year : ℤ) → days_in_month year 11 ≡ 31
december year = go (is_leap year)
  where
    go : (leap : Bool) → get_or (dom leap) 11 0 ≡ 31
    go true = refl
    go false = refl

pub IsSameDay_trans :
    {y y' : ℤ} {m m' : ℕ} {d d' : ℤ} {year mday : ℤ} {mon : ℕ}
    → IsSameDay y m d year mon mday
    → IsSameDay y' m' d' y m d
    → IsSameDay y' m' d' year mon mday
IsSameDay_trans same next = next
IsSameDay_trans (month_back r) next = month_back (IsSameDay_trans r next)
IsSameDay_trans (year_back r) next = year_back (IsSameDay_trans r next)
IsSameDay_trans (month_on lt r) next = month_on lt (IsSameDay_trans r next)
IsSameDay_trans (year_on r) next = year_on (IsSameDay_trans r next)

abbrev Lands : ℤ → ℕ → ℤ → ℤ × ℕ × ℤ → Type 0
Lands year mon mday p = IsSameDay p.0 p.1 p.2 year mon mday

pub roll_back-IsSameDay :
    (fuel : ℕ) (year : ℤ) (mon : ℕ) (mday : ℤ) → Lands year mon mday (roll_back fuel year mon mday)
unfolding roll_back
roll_back-IsSameDay zero year mon mday = same
roll_back-IsSameDay (suc fuel) year zero mday = elim (Bool-cases (ltb_ℤ mday 1)) [
  | inl before ↦
      rw (before, roll_back)
        (year_back (
          subst
            (λ n. Lands (year +ℤ negsuc 0) 11 (mday +ℤ pos n) (
              roll_back fuel (year +ℤ negsuc 0) 11
                (mday +ℤ pos (days_in_month (year +ℤ negsuc 0) 11))))
            (december (year +ℤ negsuc 0))
            (roll_back-IsSameDay fuel (year +ℤ negsuc 0) 11
              (mday +ℤ pos (days_in_month (year +ℤ negsuc 0) 11)))))
  | inr inside ↦ rw (inside, roll_back) same
]
roll_back-IsSameDay (suc fuel) year (suc mon) mday = elim (Bool-cases (ltb_ℤ mday 1)) [
  | inl before ↦
      rw (before, roll_back)
        (month_back (roll_back-IsSameDay fuel year mon (mday +ℤ pos (days_in_month year mon))))
  | inr inside ↦ rw (inside, roll_back) same
]

pub next_month_bound : (year : ℤ) (mon : ℕ) → mon < 12 → (next_month year mon).1 < 12
next_month_bound year mon lt = ground arith

month_after :
    {year' mday' : ℤ} {mon' : ℕ} (year : ℤ) (mon mday : ℕ)
    → mon < 12
    → days_in_month year mon ≤ mday
    → IsSameDay year' mon' mday'
        (next_month year mon).0
        (next_month year mon).1
        (pos (mday - days_in_month year mon))
    → IsSameDay year' mon' mday' year mon (pos mday)
month_after {year'} {mday'} {mon'} year mon mday lt le h = elim (Bool-cases (mon == 11)) [
  | inl last ↦
      let eq : mon ≡ 11 = (==_iff mon 11).0 last in
      let long : days_in_month year mon ≡ 31 = ap (days_in_month year) eq ∙ december year in
      let exact : mday - days_in_month year mon + 31 ≡ mday = omega (arith, long) in
      subst (λ m. IsSameDay year' mon' mday' year m (pos mday)) (sym eq)
        (subst (λ d. IsSameDay year' mon' mday' year 11 (pos d)) exact (year_on (rw last at h)))
  | inr other ↦
      let exact : mday - days_in_month year mon + days_in_month year mon ≡ mday = omega arith in
      let next : mon + 1 ≡ suc mon = omega arith in
      let before : mon < 11 = ground (arith, other) in
      subst (λ d. IsSameDay year' mon' mday' year mon (pos d)) exact
        (month_on before (
          subst (λ m. IsSameDay year' mon' mday' year m (pos (mday - days_in_month year mon))) next
            (rw other at h)))
]

pub roll_on-IsSameDay :
    (fuel : ℕ) (year : ℤ) (mon mday : ℕ)
    → mon < 12
    → let p = roll_on fuel year mon mday in IsSameDay p.0 p.1 (pos p.2) year mon (pos mday)
unfolding roll_on
roll_on-IsSameDay zero year mon mday lt = same
roll_on-IsSameDay (suc fuel) year mon mday lt =
    let size = days_in_month year mon in
    elim (Bool-cases (ltb size mday)) [
      | inr inside ↦ rw (inside, roll_on) same
      | inl past ↦
          rw (past, roll_on)
            (month_after year mon mday lt (ground (arith, past)) (
              roll_on-IsSameDay fuel (next_month year mon).0 (next_month year mon).1 (mday - size)
                (next_month_bound year mon lt)))
    ]
