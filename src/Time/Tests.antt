-- ===== src/Time/Tests.antt =====
-- xbee_time.c at 29 February 2024, 12:34:56, a Thursday.
use xbeepocs.Base.{arith, ltb_ℤ, negsuc, pos, refl, suc, true, ℕ, ℤ, ◌≡◌, ◌≤◌, ◌⊎◌}
use xbeepocs.Time.{
  Tm, is_leap, year_loop, month_loop, gmtime, utctime_invalid, normalize, roll_back, roll_on, utc,
  past_leap_days, mktime,
}
use xbeepocs.Time.RoundTrip.{IsNormal, mktime-gmtime}
use xbeepocs.Time.Normal.{IsMoment, mktime-normalizes}

abbrev moment : ℕ
moment = 762525296

abbrev leap_day : Tm
leap_day = record {
  tm_sec = pos 56;
  tm_min = pos 34;
  tm_hour = pos 12;
  tm_mday = pos 29;
  tm_mon = pos 1;
  tm_year = pos 124;
  tm_wday = pos 4;
  tm_yday = pos 59;
  tm_isdst = pos 0;
}

-- The same moment: 1 March, 12 hours before midnight, and 116 seconds after 12:33.
abbrev sloppy : Tm
sloppy = record leap_day {
  tm_sec = pos 116;
  tm_min = pos 33;
  tm_hour = negsuc 11;
  tm_mday = pos 1;
  tm_mon = pos 2;
}

gmtime_of_moment : gmtime moment ≡ leap_day
unfolding gmtime year_loop month_loop is_leap
gmtime_of_moment = refl

mktime_of_sloppy : mktime sloppy ≡ (moment, leap_day)
unfolding mktime normalize roll_back roll_on is_leap utc past_leap_days
mktime_of_sloppy = refl

mktime-gmtime_example : mktime (gmtime 762525296) ≡ (762525296, gmtime 762525296)
mktime-gmtime_example = mktime-gmtime 762525296 (omega arith)

mktime-normalizes_example :
    (year : ℤ) × (mon mday hour minute sec : ℕ) × IsMoment sloppy year mon
      (suc mday)
      hour
      minute
      sec
    × (((ltb_ℤ year 100 ≡ true) × (mktime sloppy ≡ (utctime_invalid, sloppy)))
        ⊎ ((y : ℕ) × (year ≡ pos y)
            × (100 ≤ y)
            × IsNormal (mktime sloppy).1 y mon mday hour minute sec))
mktime-normalizes_example =
    mktime-normalizes sloppy
      (omega arith, omega arith, omega arith, omega arith, omega arith, omega arith)
