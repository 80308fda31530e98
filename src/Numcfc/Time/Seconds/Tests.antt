-- ===== src/Numcfc/Time/Seconds/Tests.antt =====
-- Runs of the operations on seconds, and their theorems at concrete inputs.
use numcore_messaging_librar.Common.{ℕ, ◌+◌, ◌*◌, ◌%◌, ◌^◌, ◌≡◌, refl, some, ℤ, pos, negsuc, arith}
use numcore_messaging_librar.Outcome.{done, aborts, ◌>>=◌}
use numcore_messaging_librar.Numcfc.Time.{Time, universal, local, thousandths}
use numcore_messaging_librar.Numcfc.Time.Fractions.{thousandths-lt}
use numcore_messaging_librar.Numcfc.Time.RoundTrip.{Stamp, with_fields}
use numcore_messaging_librar.Numcfc.Time.Seconds.{
  Calendar, add_secs, subtract, get_time, reset_to_past,
}
use numcore_messaging_librar.Numcfc.Time.Seconds.Instants.{tm_of}

-- 2011-03-09T17:05:40.250, and five seconds later.
abbrev stamp : ℕ → Stamp
stamp n = record {
  year = 2011;
  month = 3;
  day = 9;
  hour = 17;
  minute = 5;
  second = n % 60;
  fraction = thousandths 250;
  year_fits = omega arith;
  month_fits = omega arith;
  day_fits = omega arith;
  hour_fits = omega arith;
  minute_fits = omega arith;
  second_fits = omega arith;
  fraction_fits = thousandths-lt 250 (omega arith);
}

abbrev second_of : ℤ → ℕ
second_of (pos n) = n
second_of (negsuc n) = 0

-- A calendar that is right for the one minute from 2011-03-09T17:05 on.
abbrev one_minute : Calendar
one_minute = record {
  timegm = λ tm. pos (1299690300 + second_of tm.tm_sec);
  mktime = λ tm. pos (1299690300 + second_of tm.tm_sec);
  gmtime = λ t. some (tm_of (stamp t));
  localtime = λ t. some (tm_of (stamp t));
}

abbrev at_40 : Time
at_40 = with_fields (stamp 40) (pos (thousandths 250)) universal

abbrev at_45 : Time
at_45 = with_fields (stamp 45) (pos (thousandths 250)) universal

-- Nothing that is not a whole number of milliseconds survives: a tenth of one is lost.
tenth_lost :
    (add_secs one_minute at_40 (pos (858993 + 2 ^ 33)) >>= λ t. done t.fraction_of_second)
    ≡ done (pos (thousandths 250))
unfolding add_secs thousandths
tenth_lost = refl

mixed : subtract one_minute at_40 (record at_40 { type = local }) ≡ aborts
unfolding subtract
mixed = refl

-- The time that `ResetToPast` sets.
abbrev past : Calendar
past = record one_minute {
  timegm = λ tm. pos 2;
  gmtime = λ t. some (record {
    tm_year = pos 70;
    tm_mon = pos 0;
    tm_mday = pos 1;
    tm_hour = pos 0;
    tm_min = pos 0;
    tm_sec = pos t;
  });
}

two_seconds : (reset_to_past past >>= λ t. get_time past t) ≡ done (pos (2 * 2 ^ 63))
unfolding reset_to_past get_time
two_seconds = refl
