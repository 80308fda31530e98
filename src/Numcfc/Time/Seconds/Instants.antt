-- ===== src/Numcfc/Time/Seconds/Instants.antt =====
-- Times against the seconds since 1970.
use numcore_messaging_librar.Common.{ℕ, ◌+◌, ◌*◌, ◌-◌, ◌/◌, ◌^◌, ◌≤◌, ◌<◌, ◌≡◌, arith, pos}
use numcore_messaging_librar.Numcfc.Time.{thousandths}
use numcore_messaging_librar.Numcfc.Time.RoundTrip.{Stamp}
use numcore_messaging_librar.Numcfc.Time.Seconds.{Tm}

-- The broken-down form of a time.
abbrev pub tm_of : Stamp → Tm
tm_of s = record {
  tm_year = pos (s.year - 1900);
  tm_mon = pos (s.month - 1);
  tm_mday = pos s.day;
  tm_hour = pos s.hour;
  tm_min = pos s.minute;
  tm_sec = pos s.second;
}

-- A time after 1900, with its milliseconds.
pub record IsCivil (s : Stamp) (n : ℕ) : Type 0 where
  pub year_from : 1900 ≤ s.year
  pub month_from : 1 ≤ s.month
  pub thousandth : n < 1000
  pub fraction_is : s.fraction ≡ thousandths n

module _ (s : Stamp) (n : ℕ) (civil : IsCivil s n) where
  -- A fraction that is printed as the thousandth.
  abbrev printable : Stamp
  printable = record s {
    fraction = (n * 2 ^ 33 + 999) / 1000;
    fraction_fits = omega (arith, civil.thousandth);
  }
