-- ===== src/Time/Years.antt =====
-- The years of `xbee_gmtime` and the leap days of `xbee_mktime`: both count the same days.
use xbeepocs.Base.{
  Bool, Bool-cases, ap, arith, bit_and_mask, false, if◌then◌else◌, inl, inr, ltb, not, pos, refl,
  suc, true, zero, ℕ, ◌%◌, ◌&&◌, ◌*◌, ◌+◌, ◌-◌, ◌/◌, ◌<◌, ◌==◌, ◌^◌, ◌∙◌, ◌≡◌, ◌≤◌,
}
use xbeepocs.Time.{is_leap, diy, year_loop, past_leap_days}

-- The days between 2000 and the start of a year, counted since 2000.
abbrev pub days_before : ℕ → ℕ
days_before years = years * 365 + (years + 3) / 4 - (if ltb 100 years then 1 else 0)

-- The test on the low bits is one on the remainder.
is_leap-pos : (year : ℕ) → is_leap (pos year) ≡ ((year % 4 == 0) && not (year == 2100 - 1900))
unfolding is_leap
is_leap-pos year = rw (bit_and_mask 2 year) refl

-- Each year is as long as the loop takes it to be.
days_before-suc :
    (years : ℕ) → days_before (years + 1) ≡ days_before years + diy (is_leap (pos (years + 100)))
days_before-suc years = rw (is_leap-pos (years + 100)) (ground arith)

-- What the loop finds: a year from `from` on, a day in it, and as many days as at the start.
pub record IsYear (from days : ℕ) (p : ℕ × ℕ) : Type 0 where
  pub later : from ≤ p.0
  pub inside : p.1 < diy (is_leap (pos p.0))
  pub same : days_before (p.0 - 100) + p.1 ≡ days_before (from - 100) + days

pub diy_bounds : (leap : Bool) → (365 ≤ diy leap) × (diy leap ≤ 366)
diy_bounds true = (omega arith, omega arith)
diy_bounds false = (omega arith, omega arith)

pub year_loop-IsYear :
    (fuel year days : ℕ)
    → 100 ≤ year
    → days < fuel * 365
    → IsYear year days (year_loop fuel year days)
unfolding year_loop
year_loop-IsYear zero year days from lt = absurd (omega arith)
year_loop-IsYear (suc fuel) year days from lt =
    let long = diy (is_leap (pos year)) in
    let bounds = diy_bounds (is_leap (pos year)) in
    elim (Bool-cases (ltb days long)) [
      | inl here ↦
          rw here (record { later = omega arith; inside = ground (arith, here); same = refl })
      | inr past ↦
          let enough : long ≤ days = ground (arith, past) in
          let ih =
            year_loop-IsYear fuel (year + 1) (days - long) (omega arith)
              (omega (arith, bounds, enough)) in
          let next : days_before (year + 1 - 100) ≡ days_before (year - 100) + long =
            ap days_before (omega arith)
            ∙ days_before-suc (year - 100)
            ∙ ap (λ y. days_before (year - 100) + diy (is_leap (pos y))) (omega arith) in
          rw past (record {
            later = omega (arith, ih.later);
            inside = ih.inside;
            same = omega (arith, ih.same, next, enough);
          })
    ]

-- The leap days that `xbee_mktime` adds are those of `days_before`.
pub past_leap_days_lem :
    (years : ℕ) → years < 2 ^ 8 → years * 365 + past_leap_days years ≡ days_before years
unfolding past_leap_days
past_leap_days_lem years small = rw (bit_and_mask 2 years) (ground arith)
