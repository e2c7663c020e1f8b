-- ===== src/Time.antt =====
-- libraries/xbee_ansic_library/src/xbee/xbee_time.c: seconds since 2000 and broken-down time.
pub mod Years
pub mod Months
pub mod RoundTrip
pub mod Moments
pub mod Ranges
pub mod Normal
mod Tests
use xbeepocs.Base.{
  Bool, List, [], bit_and, false, get_or, if◌then◌else◌, leb, ltb, ltb_ℤ, min, negsuc, not, pos,
  sub_u8, sub_ℕ, suc, to_ℕ, true, u16, u32, u8, zero, ℕ, ℤ, ◌%◌, ◌&&◌, ◌*◌, ◌+ℤ◌, ◌+◌, ◌-◌, ◌/◌,
  ◌==◌, ◌∷◌,
}

-- `_xbee_time_jom`: the days of the year before the first of each month.
abbrev pub jom : Bool → List ℕ
jom false = 0 ∷ 31 ∷ 59 ∷ 90 ∷ 120 ∷ 151 ∷ 181 ∷ 212 ∷ 243 ∷ 273 ∷ 304 ∷ 334 ∷ []
jom true = 0 ∷ 31 ∷ 60 ∷ 91 ∷ 121 ∷ 152 ∷ 182 ∷ 213 ∷ 244 ∷ 274 ∷ 305 ∷ 335 ∷ []

-- `_xbee_time_dom`: the days of each month.
abbrev pub dom : Bool → List ℕ
dom false = 31 ∷ 28 ∷ 31 ∷ 30 ∷ 31 ∷ 30 ∷ 31 ∷ 31 ∷ 30 ∷ 31 ∷ 30 ∷ 31 ∷ []
dom true = 31 ∷ 29 ∷ 31 ∷ 30 ∷ 31 ∷ 30 ∷ 31 ∷ 31 ∷ 30 ∷ 31 ∷ 30 ∷ 31 ∷ []

-- `struct tm`, with years since 1900.
pub record Tm : Type 0 where
  pub tm_sec : ℤ
  pub tm_min : ℤ
  pub tm_hour : ℤ
  pub tm_mday : ℤ
  pub tm_mon : ℤ
  pub tm_year : ℤ
  pub tm_wday : ℤ
  pub tm_yday : ℤ
  pub tm_isdst : ℤ

-- Leap years are divisible by 4, except for 2100. The low bits of a negative number are those of
-- its two's complement.
unfoldable pub is_leap : ℤ → Bool
is_leap (pos year) = (bit_and year 3 == 0) && not (year == 2100 - 1900)
is_leap (negsuc n) = bit_and (3 - n % 4) 3 == 0

-- The length of a year.
abbrev pub diy : Bool → ℕ
diy leap = 365 + (if leap then 1 else 0)

-- The loop of `xbee_gmtime` over the years, on fuel: the year and the day in it.
unfoldable pub year_loop : ℕ → ℕ → ℕ → ℕ × ℕ
year_loop zero year days = (year, days)
year_loop (suc fuel) year days =
    let rest = year_loop fuel (year + 1) (days - diy (is_leap (pos year))) in
    if ltb days (diy (is_leap (pos year))) then (year, days) else rest

-- The loop of `xbee_gmtime` over the months, on fuel: the month and the day in it.
unfoldable pub month_loop : Bool → ℕ → ℕ → ℕ → ℕ × ℕ
month_loop leap zero mon days = (mon, days)
month_loop leap (suc fuel) mon days =
    let rest = month_loop leap fuel (mon + 1) (days - get_or (dom leap) mon 0) in
    if leb (get_or (dom leap) mon 0) days then rest else (mon, days)

-- More years than a 16-bit number of days has.
abbrev pub max_years : ℕ
max_years = 180

unfoldable pub gmtime : ℕ → Tm
gmtime timestamp =
    let seconds = timestamp % 86400 in
    let all_days = u16 (timestamp / 86400) in
    let (year, yday) = year_loop max_years 100 all_days in
    let (mon, mday) = month_loop (is_leap (pos year)) 12 0 yday in
    record {
      tm_sec = pos (seconds % 60);
      tm_min = pos (seconds / 60 % 60);
      tm_hour = pos (seconds / 60 / 60);
      tm_mday = pos (mday + 1);
      tm_mon = pos mon;
      tm_year = pos year;
      tm_wday = pos ((all_days + 6) % 7);
      tm_yday = pos yday;
      tm_isdst = pos 0;
    }

-- `_xbee_mktime_normalize`: `minor` brought into `[0, count)`, and what `major` becomes. C's `div`
-- rounds to zero, and a negative remainder moves one `count` over.
unfoldable pub normalize : ℤ → ℤ → ℕ → ℤ × ℕ
normalize major (pos n) count = (major +ℤ pos (n / count), n % count)
normalize major (negsuc n) count =
    if (n + 1) % count == 0
    then (major +ℤ sub_ℕ 0 ((n + 1) / count), 0)
    else (major +ℤ sub_ℕ 0 ((n + 1) / count + 1), count - (n + 1) % count)

-- The month before, with its year.
abbrev pub prev_month : ℤ → ℕ → ℤ × ℕ
prev_month year zero = (year +ℤ negsuc 0, 11)
prev_month year (suc mon) = (year, mon)

-- The month after, with its year.
abbrev pub next_month : ℤ → ℕ → ℤ × ℕ
next_month year mon = if mon == 11 then (year +ℤ pos 1, 0) else (year, mon + 1)

-- The days of a month of a year.
abbrev pub days_in_month : ℤ → ℕ → ℕ
days_in_month year mon = get_or (dom (is_leap year)) mon 0

-- The loop while the day is before the first of the month, on fuel.
unfoldable pub roll_back : ℕ → ℤ → ℕ → ℤ → ℤ × ℕ × ℤ
roll_back zero year mon mday = (year, mon, mday)
roll_back (suc fuel) year mon mday =
    let (year', mon') = prev_month year mon in
    let rest = roll_back fuel year' mon' (mday +ℤ pos (days_in_month year' mon')) in
    if ltb_ℤ mday 1 then rest else (year, mon, mday)

-- The loop while the day is after the last of the month, on fuel.
unfoldable pub roll_on : ℕ → ℤ → ℕ → ℕ → ℤ × ℕ × ℕ
roll_on zero year mon mday = (year, mon, mday)
roll_on (suc fuel) year mon mday =
    let (year', mon') = next_month year mon in
    let rest = roll_on fuel year' mon' (mday - days_in_month year mon) in
    if ltb (days_in_month year mon) mday then rest else (year, mon, mday)

-- XBEE_UTCTIME_INVALID
abbrev pub utctime_invalid : ℕ
utctime_invalid = 0xFFFFFFFF

-- The leap days before a year, counted since 2000, in 8 bits.
unfoldable pub past_leap_days : ℕ → ℕ
past_leap_days years =
    let days = u8 (years / 4 + (if bit_and years 3 == 0 then 0 else 1)) in
    if ltb 100 years then sub_u8 days 1 else days

-- The part of `xbee_mktime` after the date is normalized: the time, and the fields written back.
unfoldable pub utc : Tm → ℤ → ℕ → ℕ → ℕ → ℕ → ℕ → ℕ × Tm
unfolding past_leap_days
utc t year mon mday hour min sec =
    let years = u8 (to_ℕ year - 100) in
    let yday = u16 (get_or (jom (is_leap year)) mon 0 + mday - 1) in
    let days = u16 (years * 365 + past_leap_days years + yday) in
    (
      u32 (days * 86400 + hour * 3600 + min * 60 + sec),
      record t {
        tm_sec = pos sec;
        tm_min = pos min;
        tm_hour = pos hour;
        tm_mday = pos mday;
        tm_mon = pos mon;
        tm_year = year;
        tm_wday = pos ((days + 6) % 7);
        tm_yday = pos yday;
      },
    )

-- Enough fuel for the loops: each turn moves the day by 28 or more.
abbrev pub back_fuel : ℤ → ℕ
back_fuel (pos n) = 1
back_fuel (negsuc n) = suc (suc (n / 28))

unfoldable pub mktime : Tm → ℕ × Tm
mktime t =
    let (min1, sec) = normalize t.tm_min t.tm_sec 60 in
    let (hour1, min) = normalize t.tm_hour min1 60 in
    let (mday1, hour) = normalize t.tm_mday hour1 24 in
    let (year1, mon1) = normalize t.tm_year t.tm_mon 12 in
    let (year2, mon2, mday2) = roll_back (back_fuel mday1) year1 mon1 mday1 in
    let (year, mon, mday) = roll_on (suc (to_ℕ mday2 / 28)) year2 mon2 (to_ℕ mday2) in
    if ltb_ℤ year 100 then (utctime_invalid, t) else utc t year mon mday hour min sec
