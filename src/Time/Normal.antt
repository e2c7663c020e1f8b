-- ===== src/Time/Normal.antt =====
-- `xbee_mktime` on fields out of range: its loops end, and it leaves a date.
use native.Mathlib.Nat.{mod-lt}
use xbeepocs.Base.{
  Bool-cases, ap, arith, false, inl, inr, ltb, ltb_ℤ, min, negsuc, pos, refl, subst, suc, sym, to_ℕ,
  true, zero, ℕ, ℤ, ◌%◌, ◌*◌, ◌+ℤ◌, ◌+◌, ◌-◌, ◌/◌, ◌<◌, ◌==◌, ◌^◌, ◌∙◌, ◌≡◌, ◌≤◌, ◌⊎◌,
}
use xbeepocs.Time.{
  Tm, normalize, prev_month, next_month, days_in_month, roll_back, roll_on, utctime_invalid, utc,
  back_fuel, mktime,
}
use xbeepocs.Time.RoundTrip.{IsNormal}
use xbeepocs.Time.Moments.{
  next_month_bound, IsCarried, normalize-IsCarried, IsSameDay, IsSameDay_trans, roll_back-IsSameDay,
  roll_on-IsSameDay,
}
use xbeepocs.Time.Ranges.{
  magnitude, IsInt, month_size, prev_month_bound, normalize_size, roll_back_size, roll_on_size,
  roll_back_day,
}

normalize_bound :
    (major minor : ℤ) (count : ℕ) → 0 < count → (normalize major minor count).1 < count
unfolding normalize
normalize_bound major (pos n) count some_count = mod-lt n some_count
normalize_bound major (negsuc n) count some_count = elim (Bool-cases ((n + 1) % count == 0)) [
  | inl even ↦ rw even some_count
  | inr odd ↦ let rest : 0 < (n + 1) % count = ground (arith, odd) in rw odd (omega (arith, rest))
]

-- How far a day is before the first of the month.
abbrev deficit : ℤ → ℕ
deficit (pos zero) = 1
deficit (pos (suc n)) = 0
deficit (negsuc n) = n + 2

-- A month more takes 28 days off the deficit.
deficit_less :
    (mday : ℤ) (days : ℕ)
    → 28 ≤ days
    → ltb_ℤ mday 1 ≡ true
    → deficit (mday +ℤ pos days) ≤ deficit mday - 28
deficit_less (pos zero) days lo h =
    let more : 0 + days ≡ suc (days - 1) = omega arith in
    subst (λ n. deficit (pos n) ≤ 0) (sym more) (omega arith)
deficit_less (pos (suc n)) days lo h = ground (arith, h)
deficit_less (negsuc n) days lo h = elim (Bool-cases (ltb days (n + 1))) [
  | inl under ↦
      let below_it : days < n + 1 = ground (arith, under) in rw under (omega (arith, below_it))
  | inr over ↦
      let reach : n + 1 ≤ days = ground (arith, over) in
      rw over (at_most n days lo reach (days - (n + 1)) refl)
]
  where
    at_most :
        (n days : ℕ)
        → 28 ≤ days
        → n + 1 ≤ days
        → (k : ℕ) → days - (n + 1) ≡ k
        → deficit (pos k) ≤ n + 2 - 28
    at_most n days lo reach zero e = omega (arith, e)
    at_most n days lo reach (suc k) e = omega arith

-- The loops end at a month of the year and a day from the first on.
record IsBack (p : ℤ × ℕ × ℤ) : Type 0 where
  day : ℕ
  is_day : p.2 ≡ pos (suc day)
  month : p.1 < 12

roll_back-IsBack :
    (fuel : ℕ) (year : ℤ) (mon : ℕ) (mday : ℤ)
    → mon < 12
    → deficit mday ≤ 28 * fuel
    → IsBack (roll_back fuel year mon mday)
unfolding roll_back
roll_back-IsBack fuel year mon (pos (suc n)) lt enough = stays fuel
  where
    stays : (fuel : ℕ) → IsBack (roll_back fuel year mon (pos (suc n)))
    stays zero = record { day = n; is_day = refl; month = lt }
    stays (suc fuel) =
        let test : ltb (suc n) 1 ≡ false = ground arith in
        rw test (record { day = n; is_day = refl; month = lt })
roll_back-IsBack zero year mon (pos zero) lt enough = absurd (omega arith)
roll_back-IsBack zero year mon (negsuc n) lt enough = absurd (omega arith)
roll_back-IsBack (suc fuel) year mon (pos zero) lt enough =
    let (year', mon') = prev_month year mon in
    let lt' = prev_month_bound year mon lt in
    let less =
      deficit_less (pos zero) (days_in_month year' mon') (month_size year' mon' lt').0 refl in
    roll_back-IsBack fuel year' mon' (pos zero +ℤ pos (days_in_month year' mon')) lt'
      (omega (arith, less))
roll_back-IsBack (suc fuel) year mon (negsuc n) lt enough =
    let (year', mon') = prev_month year mon in
    let lt' = prev_month_bound year mon lt in
    let less =
      deficit_less (negsuc n) (days_in_month year' mon') (month_size year' mon' lt').0 refl in
    roll_back-IsBack fuel year' mon' (negsuc n +ℤ pos (days_in_month year' mon')) lt'
      (omega (arith, less))

record IsOn (p : ℤ × ℕ × ℕ) : Type 0 where
  day : ℕ
  is_day : p.2 ≡ suc day
  month : p.1 < 12
  inside : day < days_in_month p.0 p.1

roll_on-IsOn :
    (fuel : ℕ) (year : ℤ) (mon day : ℕ)
    → mon < 12
    → day < 28 * fuel
    → IsOn (roll_on fuel year mon (suc day))
unfolding roll_on
roll_on-IsOn zero year mon day lt enough = absurd (omega arith)
roll_on-IsOn (suc fuel) year mon day lt enough =
    let size = days_in_month year mon in
    let bounds = month_size year mon lt in
    elim (Bool-cases (ltb size (suc day))) [
      | inr here ↦
          rw here (record { day = day; is_day = refl; month = lt; inside = ground (arith, here) })
      | inl past ↦
          let over : size < suc day = ground (arith, past) in
          let (year', mon') = next_month year mon in
          let back : suc (day - size) ≡ suc day - size = omega (arith, over) in
          rw past (
            subst (λ d. IsOn (roll_on fuel year' mon' d)) back
              (roll_on-IsOn fuel year' mon' (day - size) (next_month_bound year mon lt)
                (omega (arith, over, bounds))))
    ]

enough_back : (mday : ℤ) → deficit mday ≤ 28 * back_fuel mday
enough_back (pos zero) = omega arith
enough_back (pos (suc n)) = omega arith
enough_back (negsuc n) = omega arith

from_2000 : (year : ℤ) → ltb_ℤ year 100 ≡ false → (n : ℕ) × (year ≡ pos n) × (100 ≤ n)
from_2000 (pos n) h = (n, refl, ground (arith, h))
from_2000 (negsuc n) h = cc

utc-IsNormal :
    (t : Tm) (year : ℤ) (mon mday hour min sec : ℕ) (on : IsOn (year, mon, mday)) (y : ℕ)
    → year ≡ pos y
    → hour < 24
    → min < 60
    → sec < 60
    → IsNormal (utc t year mon mday hour min sec).1 y mon on.day hour min sec
unfolding utc
utc-IsNormal t year mon mday hour min sec on y is_y h m s = record {
  is_sec = refl;
  is_min = refl;
  is_hour = refl;
  is_mday = ap pos on.is_day;
  is_mon = refl;
  is_year = is_y;
  sec_bound = s;
  min_bound = m;
  hour_bound = h;
  mon_bound = on.month;
  mday_bound = subst (λ z. on.day < days_in_month z mon) is_y on.inside;
}

back_fuel_size : (mday : ℤ) → back_fuel mday ≤ magnitude mday / 28 + 2
back_fuel_size (pos n) = omega arith
back_fuel_size (negsuc n) = omega arith

to_ℕ_size : (z : ℤ) → to_ℕ z ≤ magnitude z
to_ℕ_size (pos n) = omega arith
to_ℕ_size (negsuc n) = omega arith

-- Fields of a size that no sum on the way overflows.
abbrev pub AreSmall : Tm → Type 0
AreSmall t =
    (magnitude t.tm_sec ≤ 2 ^ 28)
    × (magnitude t.tm_min ≤ 2 ^ 28)
    × (magnitude t.tm_hour ≤ 2 ^ 28)
    × (magnitude t.tm_mday ≤ 2 ^ 28)
    × (magnitude t.tm_mon ≤ 2 ^ 28)
    × (magnitude t.tm_year ≤ 2 ^ 28)

-- A date and a time of day are the moment of a broken-down time: seconds carried into minutes,
-- these into hours, these into days, the months into years, and then the same day. What the fields
-- become on the way fits in an `int`.
pub record IsMoment (t : Tm) (year : ℤ) (mon mday hour min sec : ℕ) : Type 0 where
  pub min1 : ℤ
  pub hour1 : ℤ
  pub mday1 : ℤ
  pub year1 : ℤ
  pub mon1 : ℕ
  pub minutes : IsCarried t.tm_min t.tm_sec 60 min1 sec
  pub hours : IsCarried t.tm_hour min1 60 hour1 min
  pub days : IsCarried t.tm_mday hour1 24 mday1 hour
  pub years : IsCarried t.tm_year t.tm_mon 12 year1 mon1
  pub day : IsSameDay year mon (pos mday) year1 mon1 mday1
  pub ints : IsInt min1 × IsInt hour1 × IsInt mday1 × IsInt year1 × IsInt year

mktime-IsMoment :
    (t : Tm)
    → AreSmall t
    → let n1 = normalize t.tm_min t.tm_sec 60 in
      let n2 = normalize t.tm_hour n1.0 60 in
      let n3 = normalize t.tm_mday n2.0 24 in
      let n4 = normalize t.tm_year t.tm_mon 12 in
      let b = roll_back (back_fuel n3.0) n4.0 n4.1 n3.0 in
      let o = roll_on (suc (to_ℕ b.2 / 28)) b.0 b.1 (to_ℕ b.2) in
      IsBack b → IsMoment t o.0 o.1 o.2 n3.1 n2.1 n1.1
mktime-IsMoment t (s, m, h, d, o, y) back =
    let n1 = normalize t.tm_min t.tm_sec 60 in
    let n2 = normalize t.tm_hour n1.0 60 in
    let n3 = normalize t.tm_mday n2.0 24 in
    let n4 = normalize t.tm_year t.tm_mon 12 in
    let b = roll_back (back_fuel n3.0) n4.0 n4.1 n3.0 in
    let fuel = suc (to_ℕ b.2 / 28) in
    let size1 = normalize_size t.tm_min t.tm_sec 60 in
    let size2 = normalize_size t.tm_hour n1.0 60 in
    let size3 = normalize_size t.tm_mday n2.0 24 in
    let size4 = normalize_size t.tm_year t.tm_mon 12 in
    let mon_lt = normalize_bound t.tm_year t.tm_mon 12 (omega arith) in
    let day_size : magnitude n3.0 ≤ 2 ^ 30 + 3 = omega (arith, size1, size2, size3) in
    let last_day =
      roll_back_day (back_fuel n3.0) (2 ^ 30 + 3) n4.0 n4.1 n3.0 mon_lt (omega arith)
        (omega (arith, to_ℕ_size n3.0, day_size)) in
    let same_mday : pos (to_ℕ b.2) ≡ b.2 =
      ap (λ z. pos (to_ℕ z)) (back.is_day) ∙ sym (back.is_day) in
    record {
      min1 = n1.0;
      hour1 = n2.0;
      mday1 = n3.0;
      year1 = n4.0;
      mon1 = n4.1;
      minutes = normalize-IsCarried t.tm_min t.tm_sec 60 (omega arith);
      hours = normalize-IsCarried t.tm_hour n1.0 60 (omega arith);
      days = normalize-IsCarried t.tm_mday n2.0 24 (omega arith);
      years = normalize-IsCarried t.tm_year t.tm_mon 12 (omega arith);
      day = IsSameDay_trans (roll_back-IsSameDay (back_fuel n3.0) n4.0 n4.1 n3.0) (
          subst
            (λ z.
              IsSameDay (roll_on fuel b.0 b.1 (to_ℕ b.2)).0 (roll_on fuel b.0 b.1 (to_ℕ b.2)).1
                (pos (roll_on fuel b.0 b.1 (to_ℕ b.2)).2) b.0 b.1 z)
            same_mday (roll_on-IsSameDay fuel b.0 b.1 (to_ℕ b.2) (back.month)));
      ints = (
        omega (arith, size1),
        omega (arith, size1, size2),
        omega (arith, day_size),
        omega (arith, size4),
        omega (
          arith,
          size4,
          roll_back_size (back_fuel n3.0) n4.0 n4.1 n3.0,
          roll_on_size fuel b.0 b.1 (to_ℕ b.2),
          back_fuel_size n3.0,
          day_size,
          last_day,
        ),
      );
    }

-- For fields of at most 2 ^ 28 in size, negative ones included, the loops of `xbee_mktime` end, at
-- the date and the time of day that are the moment of the fields, with seconds, minutes, hours and
-- months carried and the days counted by months, over the end of the year too; the sums of the
-- carries and the year fit in an `int`. If that year is before 2000, it returns
-- XBEE_UTCTIME_INVALID and leaves the fields as they are; otherwise it leaves that date and time in
-- them, all in range.
pub mktime-normalizes :
    (t : Tm)
    → AreSmall t
    → (year : ℤ) × (mon mday hour min sec : ℕ) × IsMoment t year mon (suc mday) hour min sec
      × (((ltb_ℤ year 100 ≡ true) × (mktime t ≡ (utctime_invalid, t)))
          ⊎ ((y : ℕ) × (year ≡ pos y) × (100 ≤ y) × IsNormal (mktime t).1 y mon mday hour min sec))
mktime-normalizes t small =
    let n1 = normalize t.tm_min t.tm_sec 60 in
    let n2 = normalize t.tm_hour n1.0 60 in
    let n3 = normalize t.tm_mday n2.0 24 in
    let n4 = normalize t.tm_year t.tm_mon 12 in
    let b = roll_back (back_fuel n3.0) n4.0 n4.1 n3.0 in
    let o = roll_on (suc (to_ℕ b.2 / 28)) b.0 b.1 (to_ℕ b.2) in
    let back =
      roll_back-IsBack (back_fuel n3.0) n4.0 n4.1 n3.0
        (normalize_bound t.tm_year t.tm_mon 12 (omega arith)) (enough_back n3.0) in
    let on : IsOn o =
      subst (λ d. IsOn (roll_on (suc (to_ℕ d / 28)) b.0 b.1 (to_ℕ d))) (sym back.is_day)
        (roll_on-IsOn (suc (suc back.day / 28)) b.0 b.1 back.day back.month (omega arith)) in
    let moment : IsMoment t o.0 o.1 (suc on.day) n3.1 n2.1 n1.1 =
      subst (λ d. IsMoment t o.0 o.1 d n3.1 n2.1 n1.1) (on.is_day) (mktime-IsMoment t small back) in
    (
      o.0,
      o.1,
      on.day,
      n3.1,
      n2.1,
      n1.1,
      moment,
      elim (Bool-cases (ltb_ℤ o.0 100)) [
        | inl early ↦ inl (early, unfold mktime in rw early refl)
        | inr late ↦
            let (y, is_y, from) = from_2000 o.0 late in
            let normal =
              utc-IsNormal t o.0 o.1 o.2 n3.1 n2.1 n1.1 on y is_y
                (normalize_bound t.tm_mday n2.0 24 (omega arith))
                (normalize_bound t.tm_hour n1.0 60 (omega arith))
                (normalize_bound t.tm_min t.tm_sec 60 (omega arith)) in
            inr (y, is_y, from, (unfold mktime in rw late normal))
      ],
    )
