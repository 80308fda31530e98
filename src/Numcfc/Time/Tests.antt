-- ===== src/Numcfc/Time/Tests.antt =====
-- Runs of the time's operations, and their theorems at concrete inputs.
use numcore_messaging_librar.Common.{
  ℕ, ◌+◌, ◌*◌, ◌/◌, ◌^◌, ◌≡◌, ◌⊎◌, refl, true, false, Bytes, codes, length, arith, pos,
}
use numcore_messaging_librar.Outcome.{done, aborts, undefined}
use numcore_messaging_librar.Numcfc.Time.{
  Time, universal, local, unknown, comparable, is_before, to_extended_iso, from_extended_iso,
  get_extended_iso_length,
}
use numcore_messaging_librar.Numcfc.Time.Fractions.{printed_again}
use numcore_messaging_librar.Numcfc.Time.Ordered.{keys, precedes, Verdict, Verdict-cases}
use numcore_messaging_librar.Numcfc.Time.RoundTrip.{Stamp, with_fields, from-to_extended_iso}

-- A quarter of a second.
abbrev stamp : Stamp
stamp = record {
  year = 2011;
  month = 3;
  day = 9;
  hour = 17;
  minute = 5;
  second = 40;
  fraction = 2147483648;
  year_fits = omega arith;
  month_fits = omega arith;
  day_fits = omega arith;
  hour_fits = omega arith;
  minute_fits = omega arith;
  second_fits = omega arith;
  fraction_fits = omega arith;
}

abbrev noon : Time
noon = with_fields stamp (pos 2147483648) universal

abbrev earlier : Time
earlier = record noon { year = pos 2010; type = unknown }

abbrev later : Time
later = record noon { minute = pos 6 }

printed : to_extended_iso noon ≡ done (codes "2011-03-09T17:05:40.250")
unfolding to_extended_iso
printed = refl

-- A year of five digits does not fit the buffer.
overflows : to_extended_iso (record noon { year = pos 20110 }) ≡ undefined
unfolding to_extended_iso
overflows = refl

-- Nine milliseconds come back as eight.
one_lost : printed_again 9 ≡ 8
unfolding printed_again
one_lost = refl

differing_types : is_before noon (record noon { type = local }) ≡ aborts
unfolding is_before
differing_types = refl

from-to_extended_iso_example :
    (text : Bytes) × (f : ℕ) × (to_extended_iso (with_fields stamp (pos 2147483648) universal)
      ≡ done text)
    × (length text ≡ get_extended_iso_length)
    × (from_extended_iso text later ≡ done (true, with_fields stamp (pos f) universal))
    × ((f * 1000 / 2 ^ 33 ≡ 250) ⊎ (f * 1000 / 2 ^ 33 + 1 ≡ 250))
from-to_extended_iso_example = from-to_extended_iso stamp universal later

Verdict-cases_example :
    ((precedes (keys earlier) (keys later) ≡ true) × Verdict earlier later true false false)
    ⊎ ((keys earlier ≡ keys later) × Verdict earlier later false true false)
    ⊎ ((precedes (keys later) (keys earlier) ≡ true) × Verdict earlier later false false true)
unfolding comparable
Verdict-cases_example = Verdict-cases earlier later refl
