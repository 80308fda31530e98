-- ===== src/Numcfc/Time/Seconds.antt =====
-- numcfc/Time.cpp, off Windows: times as seconds since 1970, and TimeElapsed. The calendars of the
-- system are a parameter. A `double` is a signed count of units of 2^-63 seconds, as fine as that of
-- the constant 0.0005; a number of seconds to add is a count of units of 2^-33 seconds.
pub mod Rounding
pub mod Near
pub mod Instants
mod Tests
use numcore_messaging_librar.Common.{
  ℕ, zero, suc, ◌+◌, ◌*◌, ◌-◌, ◌/◌, ◌%◌, ◌^◌, Bool, true, false, not, ◌&&◌, ◌∷◌, ◌++◌, Option, none,
  some, Bytes, ltb, leb, if◌then◌else◌, ℤ, pos, negsuc, neg_of_ℕ, ◌+ℤ◌, negate, scale,
}
use numcore_messaging_librar.Outcome.{
  Outcome, done, throws, aborts, undefined, runtime_error, ◌>>=◌,
}
use numcore_messaging_librar.Numcfc.Time.{
  TimeType, universal, local, unknown, Time, less, half_even, padded, is_fraction, to_extended_iso,
  from_extended_iso,
}

-- The rounding of `double`, to 53 binary digits.
abbrev pub double_shift : ℕ → ℕ → ℕ → ℕ
double_shift zero num s = s
double_shift (suc fuel) num s = elim (ltb num (2 ^ (53 + s))) [
  | true ↦ s
  | false ↦ double_shift fuel num (s + 1)
]

unfoldable pub round_double : ℕ → ℕ
round_double num = let d : ℕ = 2 ^ double_shift 128 num 0 in half_even d (num / d) (num % d) * d

unfoldable pub round_signed : ℤ → ℤ
unfolding round_double
round_signed (pos n) = pos (round_double n)
round_signed (negsuc n) = neg_of_ℕ (round_double (n + 1))

-- `struct tm`
pub record Tm : Type 0 where
  pub tm_year : ℤ
  pub tm_mon : ℤ
  pub tm_mday : ℤ
  pub tm_hour : ℤ
  pub tm_min : ℤ
  pub tm_sec : ℤ

-- `mktime` is asked with `tm_isdst = -1`; `none` is a null pointer.
pub record Calendar : Type 0 where
  pub timegm : Tm → ℤ
  pub mktime : Tm → ℤ
  pub gmtime : ℕ → Option Tm
  pub localtime : ℕ → Option Tm

-- `strftime` with "%Y-%m-%dT%H:%M:%S"
unfoldable pub strftime : Tm → Bytes
unfolding padded ◌+ℤ◌
strftime tm =
    padded 1 (tm.tm_year +ℤ pos 1900)
    ++ (b'-'
        ∷ (padded 2 (tm.tm_mon +ℤ pos 1)
            ++ (b'-'
                ∷ (padded 2 tm.tm_mday
                    ++ (b'T'
                        ∷ (padded 2 tm.tm_hour
                            ++ (b':' ∷ (padded 2 tm.tm_min ++ (b':' ∷ padded 2 tm.tm_sec)))))))))

-- What the fields of a time hold before they are read is not looked at.
abbrev pub unread : TimeType → Time
unread type = record {
  year = pos 0;
  month = pos 0;
  day = pos 0;
  hour = pos 0;
  minute = pos 0;
  second = pos 0;
  fraction_of_second = pos 0;
  type = type;
}

-- `frac`: `floor` of a `double` is one, but both products and their difference are rounded. The
-- first product is not the smaller one, and rounding keeps that.
unfoldable pub fraction_in_thousandths : ℕ → ℕ
unfolding round_double
fraction_in_thousandths f =
    round_double (round_double (1000 * f) - round_double (1000 * (f / 2 ^ 63 * 2 ^ 63)))

unfoldable pub from_broken_down : TimeType → ℕ → Option Tm → Outcome Time
unfolding strftime padded from_extended_iso
from_broken_down type frac none = undefined
from_broken_down type frac (some tm) =
    if ltb frac (1000 * 2 ^ 63)
    then (from_extended_iso (strftime tm ++ (b'.' ∷ padded 3 (pos (frac / 2 ^ 63)))) (unread type)
        >>= λ r. done r.1)
    else aborts

unfoldable pub to_tm : Time → Tm
unfolding ◌+ℤ◌
to_tm t = record {
  tm_year = t.year +ℤ negsuc 1899;
  tm_mon = t.month +ℤ negsuc 0;
  tm_mday = t.day;
  tm_hour = t.hour;
  tm_min = t.minute;
  tm_sec = t.second;
}

-- The least number of seconds that is not refused.
abbrev pub smallest : TimeType → ℕ
smallest local = 0
smallest universal = 2
smallest unknown = 2

abbrev pub with_checked_fraction : Time → Outcome Time
with_checked_fraction t = if is_fraction t.fraction_of_second then done t else aborts

module _ (c : Calendar) where
  abbrev pub broken_down : TimeType → ℕ → Option Tm
  broken_down local t = c.localtime t
  broken_down universal t = c.gmtime t
  broken_down unknown t = c.gmtime t

  -- `f` is what the seconds and 0.0005 add up to; one that `time_t` does not hold is converted to it.
  unfoldable pub at_instant : TimeType → ℤ → Outcome Time
  unfolding from_broken_down fraction_in_thousandths
  at_instant type (negsuc n) = throws runtime_error
  at_instant type (pos f) =
      if ltb f (2 * 2 ^ 63)
      then throws runtime_error
      else if leb (2 ^ 63 * 2 ^ 63) f
      then undefined
      else from_broken_down type (fraction_in_thousandths f) (broken_down type (f / 2 ^ 63))

  -- `Time(double, TimeType)`; 4611686018427388 is 0.0005.
  unfoldable pub new_time : ℤ → TimeType → Outcome Time
  unfolding at_instant round_signed ◌+ℤ◌
  new_time secs type = at_instant type (round_signed (secs +ℤ pos 4611686018427388))

  abbrev pub since_1970 : TimeType → Tm → ℤ
  since_1970 local tm = c.mktime tm
  since_1970 universal tm = c.timegm tm
  since_1970 unknown tm = c.timegm tm

  unfoldable pub get_time : Time → Outcome ℤ
  unfolding to_tm to_extended_iso less round_signed ◌+ℤ◌
  get_time t =
      let tt = since_1970 t.type (to_tm t) in
      if less tt (pos (smallest t.type))
      then (to_extended_iso t >>= λ text. throws runtime_error)
      else done
          (round_signed (round_signed (scale (2 ^ 63) tt) +ℤ scale (2 ^ 30) t.fraction_of_second))

  -- `operator+`
  unfoldable pub add_secs : Time → ℤ → Outcome Time
  unfolding get_time new_time is_fraction less round_signed ◌+ℤ◌
  add_secs t seconds =
      let sum = t.fraction_of_second +ℤ seconds in
      if not (less sum (pos 0)) && is_fraction sum
      then with_checked_fraction (record t { fraction_of_second = sum })
      else get_time t >>= λ d.
          new_time (round_signed (d +ℤ scale (2 ^ 30) seconds)) t.type >>= with_checked_fraction

  unfoldable pub difference_of : Time → Time → Outcome ℤ
  unfolding get_time round_signed ◌+ℤ◌
  difference_of a b =
      get_time a >>= λ d1. get_time b >>= λ d2. done (round_signed (d1 +ℤ negate d2))

  -- `operator-`
  unfoldable pub subtract : Time → Time → Outcome ℤ
  unfolding difference_of
  subtract a b = elim a.type [
    | unknown ↦ aborts
    | universal ↦ elim b.type [ universal ↦ difference_of a b | local ↦ aborts | unknown ↦ aborts ]
    | local ↦ elim b.type [ universal ↦ aborts | local ↦ difference_of a b | unknown ↦ aborts ]
  ]

  unfoldable pub secs_to : Time → Time → Outcome ℤ
  unfolding subtract
  secs_to t other = subtract other t

  -- `ResetToPast`
  unfoldable pub reset_to_past : Outcome Time
  unfolding new_time
  reset_to_past = new_time (pos (2 * 2 ^ 63)) universal

  -- With the current time.
  unfoldable pub get_elapsed_seconds : Time → Time → Outcome ℤ
  unfolding get_time round_signed ◌+ℤ◌
  get_elapsed_seconds t0 now =
      get_time t0 >>= λ d0. get_time now >>= λ d1. done (round_signed (d1 +ℤ negate d0))
