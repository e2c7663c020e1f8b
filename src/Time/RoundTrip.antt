-- ===== src/Time/RoundTrip.antt =====
-- `xbee_mktime` after `xbee_gmtime`.
use native.Mathlib.Nat.{div-eq_of_lt, mod-eq_of_lt}
use xbeepocs.Base.{
  Bool, ap, ap₂, arith, false, get_or, ltb, ltb_ℤ, min, pos, refl, subst, suc, sym, true, u16, u32,
  u8, ℕ, ◌%◌, ◌*◌, ◌+◌, ◌-◌, ◌/◌, ◌<◌, ◌^◌, ◌∙◌, ◌≡◌, ◌≤◌,
}
use xbeepocs.Time.{
  Tm, jom, diy, is_leap, year_loop, month_loop, max_years, gmtime, normalize, roll_back, roll_on,
  days_in_month, past_leap_days, utc, mktime,
}
use xbeepocs.Time.Years.{diy_bounds, IsYear, year_loop-IsYear, past_leap_days_lem}
use xbeepocs.Time.Months.{IsMonth, month_loop-IsMonth}

-- A field in range stays.
normalize_small :
    (major n count : ℕ) → n < count → normalize (pos major) (pos n) count ≡ (pos major, n)
unfolding normalize
normalize_small major n count lt =
    let none_over : n / count ≡ 0 = div-eq_of_lt lt in
    let same : n % count ≡ n = mod-eq_of_lt lt in
    rw (none_over, same) (ap (λ m. (pos m, n)) (omega arith))

-- A broken-down time whose fields are in range.
pub record IsNormal (t : Tm) (year mon mday hour min sec : ℕ) : Type 0 where
  pub is_sec : t.tm_sec ≡ pos sec
  pub is_min : t.tm_min ≡ pos min
  pub is_hour : t.tm_hour ≡ pos hour
  pub is_mday : t.tm_mday ≡ pos (suc mday)
  pub is_mon : t.tm_mon ≡ pos mon
  pub is_year : t.tm_year ≡ pos year
  pub sec_bound : sec < 60
  pub min_bound : min < 60
  pub hour_bound : hour < 24
  pub mon_bound : mon < 12
  pub mday_bound : mday < days_in_month (pos year) mon

stays :
    (year mon mday : ℕ)
    → mday < days_in_month (pos year) mon
    → (roll_back 1 (pos year) mon (pos (suc mday)) ≡ (pos year, mon, pos (suc mday)))
      × ((fuel : ℕ) → roll_on (suc fuel) (pos year) mon (suc mday) ≡ (pos year, mon, suc mday))
unfolding roll_back roll_on
stays year mon mday lt =
    let test : ltb (days_in_month (pos year) mon) (suc mday) ≡ false = ground (arith, lt) in
    (ground arith, λ fuel. rw test refl)

pub mktime-IsNormal :
    (t : Tm) (year mon mday hour min sec : ℕ)
    → IsNormal t year mon mday hour min sec
    → 100 ≤ year
    → mktime t ≡ utc t (pos year) mon (suc mday) hour min sec
mktime-IsNormal t year mon mday hour min sec n from =
    let mins : normalize t.tm_min t.tm_sec 60 ≡ (pos min, sec) =
      ap₂ (λ a b. normalize a b 60) n.is_min n.is_sec ∙ normalize_small min sec 60 n.sec_bound in
    let hours : normalize t.tm_hour (pos min) 60 ≡ (pos hour, min) =
      ap (λ a. normalize a (pos min) 60) n.is_hour ∙ normalize_small hour min 60 n.min_bound in
    let days : normalize t.tm_mday (pos hour) 24 ≡ (pos (suc mday), hour) =
      ap (λ a. normalize a (pos hour) 24) n.is_mday
      ∙ normalize_small (suc mday) hour 24 n.hour_bound in
    let months : normalize t.tm_year t.tm_mon 12 ≡ (pos year, mon) =
      ap₂ (λ a b. normalize a b 12) n.is_year n.is_mon ∙ normalize_small year mon 12 n.mon_bound in
    let (back, on) = stays year mon mday n.mday_bound in
    let since : ltb_ℤ (pos year) 100 ≡ false = ground (arith, from) in
    unfold mktime in rw (mktime, mins, hours, days, months, back, on (suc mday / 28), since) refl

-- The days of a 32-bit time.
abbrev all_days : ℕ → ℕ
all_days timestamp = u16 (timestamp / 86400)

-- The year of a time, and the day in it.
abbrev year_of : ℕ → ℕ × ℕ
year_of timestamp = year_loop max_years 100 (all_days timestamp)

-- The month of a time, and the day in it.
abbrev month_of : ℕ → ℕ × ℕ
month_of timestamp = month_loop (is_leap (pos (year_of timestamp).0)) 12 0 (year_of timestamp).1

year_of-IsYear : (timestamp : ℕ) → IsYear 100 (all_days timestamp) (year_of timestamp)
year_of-IsYear timestamp =
    year_loop-IsYear max_years 100 (all_days timestamp) (omega arith) (omega arith)

month_of-IsMonth :
    (timestamp : ℕ)
    → IsMonth (is_leap (pos (year_of timestamp).0)) (year_of timestamp).1 (month_of timestamp)
month_of-IsMonth timestamp =
    let leap = is_leap (pos (year_of timestamp).0) in
    let y = year_of-IsYear timestamp in
    subst (λ d. IsMonth leap d (month_of timestamp)) (starts leap (year_of timestamp).1)
      (month_loop-IsMonth leap 12 0 (year_of timestamp).1 refl
        (subst (λ d. d < diy leap) (sym (starts leap (year_of timestamp).1)) y.inside)
        (omega arith))
  where
    starts : (leap : Bool) (d : ℕ) → get_or (jom leap) 0 0 + d ≡ d
    starts true d = omega arith
    starts false d = omega arith

pub gmtime-IsNormal :
    (timestamp : ℕ)
    → let seconds = timestamp % 86400 in
      IsNormal
        (gmtime timestamp)
        (year_of timestamp).0
        (month_of timestamp).0
        (month_of timestamp).1
        (seconds / 60 / 60)
        (seconds / 60 % 60)
        (seconds % 60)
unfolding gmtime
gmtime-IsNormal timestamp =
    let m = month_of-IsMonth timestamp in
    record {
      is_sec = refl;
      is_min = refl;
      is_hour = refl;
      is_mday = ap pos (omega arith);
      is_mon = refl;
      is_year = refl;
      sec_bound = omega arith;
      min_bound = omega arith;
      hour_bound = omega arith;
      mon_bound = m.month;
      mday_bound = m.inside;
    }

-- The day of the year and the days since 2000 that `xbee_mktime` computes from the date.
days_again :
    (timestamp : ℕ)
    → let (year, yday) = year_of timestamp in
      let (mon, mday) = month_of timestamp in
      (u16 (get_or (jom (is_leap (pos year))) mon 0 + suc mday - 1) ≡ yday)
      × (u16 (u8 (year - 100) * 365 + past_leap_days (u8 (year - 100)) + yday) ≡ all_days timestamp)
days_again timestamp =
    let y = year_of-IsYear timestamp in
    let m = month_of-IsMonth timestamp in
    let long = diy_bounds (is_leap (pos (year_of timestamp).0)) in
    let years = (year_of timestamp).0 - 100 in
    let fits : u8 years ≡ years = ground (arith, y.same) in
    let leap = past_leap_days_lem years (omega (arith, fits)) in
    (omega (arith, m.same, y.inside, long), rw fits (omega (arith, leap, y.same)))

-- `xbee_mktime` turns what `xbee_gmtime` makes of any 32-bit number of seconds back into that
-- number, and finds nothing to correct in the fields.
pub mktime-gmtime :
    (timestamp : ℕ) → timestamp < 2 ^ 32 → mktime (gmtime timestamp) ≡ (timestamp, gmtime timestamp)
mktime-gmtime timestamp small =
    mktime-IsNormal (gmtime timestamp) _ _ _ _ _ _ (gmtime-IsNormal timestamp)
      (year_of-IsYear timestamp).later
    ∙ (let (day, days) = days_again timestamp in
        let total : u32 (
              all_days timestamp * 86400
              + timestamp % 86400 / 60 / 60 * 3600
              + timestamp % 86400 / 60 % 60 * 60
              + timestamp % 86400 % 60)
            ≡ timestamp =
          omega arith in
        let next : suc (month_of timestamp).1 ≡ (month_of timestamp).1 + 1 = omega arith in
        unfold utc gmtime in
        rw (day, days) (ap₂ (λ n m. (n, record (gmtime timestamp) { tm_mday = pos m })) total next))
