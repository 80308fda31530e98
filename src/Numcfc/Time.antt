-- ===== src/Numcfc/Time.antt =====
-- numcfc/Time.cpp: the extended ISO form, and the comparisons. `int` is a signed integer. The fraction
-- of a second is counted in units of 2^-33 seconds, of which every fraction that is read from a text
-- is a multiple. Numcfc/Time/Seconds has what counts seconds.
pub mod Ordered
pub mod Fractions
pub mod Fields
pub mod RoundTrip
pub mod Seconds
pub mod Clock
mod Tests
use numcore_messaging_librar.Common.{
  ℕ, zero, suc, ◌+◌, ◌*◌, ◌-◌, ◌/◌, ◌%◌, ◌^◌, Bool, true, false, not, ◌&&◌, ◌||◌, List, [], ◌∷◌,
  ◌++◌, Option, none, some, Bytes, ltb, leb, ◌==◌, if◌then◌else◌, length, take, drop, replicate, ℤ,
  pos, negsuc, neg_of_ℕ,
}
use numcore_messaging_librar.Decimal.{decimal, atoi}
use numcore_messaging_librar.Outcome.{Outcome, done, aborts, undefined, ◌>>=◌}

pub data TimeType : Type 0 where
  universal local unknown : TimeType

pub record Time : Type 0 where
  pub year : ℤ
  pub month : ℤ
  pub day : ℤ
  pub hour : ℤ
  pub minute : ℤ
  pub second : ℤ
  pub fraction_of_second : ℤ
  pub type : TimeType

-- `<` on `int`, and on the fractions
unfoldable pub less : ℤ → ℤ → Bool
less (pos m) (pos n) = ltb m n
less (pos m) (negsuc n) = false
less (negsuc m) (pos n) = true
less (negsuc m) (negsuc n) = ltb n m

-- The nearest number of 24 binary digits, ties to the even one: the rounding of `float`.
abbrev pub half_even : ℕ → ℕ → ℕ → ℕ
half_even d q r = if ltb (2 * r) d then q else if ltb d (2 * r) then q + 1 else q + q % 2

abbrev shift : ℕ → ℕ → ℕ → ℕ → ℕ
shift zero num den s = s
shift (suc fuel) num den s = elim (ltb num (den * 2 ^ (24 + s))) [
  | true ↦ s
  | false ↦ shift fuel num den (s + 1)
]

unfoldable pub round_float : ℕ → ℕ → ℕ
round_float num den =
    let d : ℕ = den * 2 ^ shift 64 num den 0 in
    half_even d (num / d) (num % d) * 2 ^ shift 64 num den 0

-- `n / 1000.f`
unfoldable pub thousandths : ℕ → ℕ
unfolding round_float
thousandths n = round_float (round_float n 1 * 2 ^ 33) 1000

unfoldable pub thousandths_of_int : ℤ → ℤ
unfolding thousandths
thousandths_of_int (pos n) = pos (thousandths n)
thousandths_of_int (negsuc n) = neg_of_ℕ (thousandths (n + 1))

-- `(int) (f * 1000)`; the product has fewer digits than a `double`.
unfoldable pub in_thousandths : ℤ → ℤ
in_thousandths (pos f) = pos (f * 1000 / 2 ^ 33)
in_thousandths (negsuc f) = neg_of_ℕ ((f + 1) * 1000 / 2 ^ 33)

unfoldable pub is_fraction : ℤ → Bool
unfolding less
is_fraction f = less f (pos (2 ^ 33))

-- `%0wd`
unfoldable pub padded : ℕ → ℤ → Bytes
unfolding decimal
padded w (pos n) = replicate (w - length (decimal n)) b'0' ++ decimal n
padded w (negsuc n) = b'-' ∷ (replicate (w - 1 - length (decimal (n + 1))) b'0' ++ decimal (n + 1))

abbrev pub get_extended_iso_length : ℕ
get_extended_iso_length = 4 + 1 + 2 + 1 + 2 + 1 + 2 + 1 + 2 + 1 + 2 + 1 + 3

unfoldable pub print_time : Time → Bytes
unfolding padded in_thousandths
print_time t =
    padded 4 t.year
    ++ (b'-'
        ∷ (padded 2 t.month
            ++ (b'-'
                ∷ (padded 2 t.day
                    ++ (b'T'
                        ∷ (padded 2 t.hour
                            ++ (b':'
                                ∷ (padded 2 t.minute
                                    ++ (b':'
                                        ∷ (padded 2 t.second
                                            ++ (b'.'
                                                ∷ padded 3
                                                    (in_thousandths t.fraction_of_second))))))))))))

-- A text that does not fit the buffer of `sprintf` is written past its end.
unfoldable pub to_extended_iso : Time → Outcome Bytes
unfolding print_time is_fraction
to_extended_iso t =
    if is_fraction t.fraction_of_second
    then (if leb (length (print_time t)) get_extended_iso_length
        then done (print_time t)
        else undefined)
    else aborts

abbrev or_undefined {ℓ} : {A : Type ℓ} → Option A → Outcome A
or_undefined none = undefined
or_undefined (some a) = done a

-- `strncpy(temp, szTime, n)` and `atoi(temp)`, with `temp` terminated behind them.
unfoldable pub read_field : ℕ → Bytes → Outcome ℤ
unfolding atoi
read_field n s = or_undefined (atoi (take n s ++ (0 ∷ [])))

unfoldable pub read_field_if : Bool → Bytes → Outcome ℤ
unfolding read_field
read_field_if true s = read_field 2 s
read_field_if false s = done (pos 0)

unfoldable pub read_fraction : Bool → Bytes → Outcome ℤ
unfolding atoi thousandths_of_int is_fraction
read_fraction false s = done (pos 0)
read_fraction true s = or_undefined (atoi (s ++ (0 ∷ []))) >>= λ n.
    if is_fraction (thousandths_of_int n) then done (thousandths_of_int n) else aborts

unfoldable pub read_time : Bytes → Time → Outcome (Bool × Time)
unfolding read_field read_field_if read_fraction
read_time s t =
    let n = length s in
    read_field 4 s >>= λ year. read_field 2 (drop 5 s) >>= λ month.
    read_field 2 (drop 8 s) >>= λ day. read_field_if (leb 13 n) (drop 11 s) >>= λ hour.
    read_field_if (leb 16 n) (drop 14 s) >>= λ minute.
    read_field_if (leb 19 n) (drop 17 s) >>= λ second.
    read_fraction (leb get_extended_iso_length n) (drop 20 s) >>= λ fraction. done (
      true,
      record t {
        year = year;
        month = month;
        day = day;
        hour = hour;
        minute = minute;
        second = second;
        fraction_of_second = fraction;
      },
    )

-- `s` is the text up to its terminating zero.
unfoldable pub from_extended_iso : Bytes → Time → Outcome (Bool × Time)
unfolding read_time
from_extended_iso s t = if ltb (length s) 10 then done (false, t) else read_time s t

unfoldable pub is_universal_time : Time → Bool
is_universal_time t = elim t.type [ universal ↦ true | _ ↦ false ]

unfoldable pub is_local_time : Time → Bool
is_local_time t = elim t.type [ local ↦ true | _ ↦ false ]

-- The assert of the comparisons.
unfoldable pub comparable : TimeType → TimeType → Bool
comparable unknown b = true
comparable universal universal = true
comparable universal unknown = true
comparable universal local = false
comparable local local = true
comparable local unknown = true
comparable local universal = false

-- What the two chains of tests have in common: `last` compares the fractions.
unfoldable pub compare_times : Bool → Time → Time → Bool
unfolding less
compare_times last a b =
    if less a.year b.year
    then true
    else if less b.year a.year
    then false
    else if less a.month b.month
    then true
    else if less b.month a.month
    then false
    else if less a.day b.day
    then true
    else if less b.day a.day
    then false
    else if less a.hour b.hour
    then true
    else if less b.hour a.hour
    then false
    else if less a.minute b.minute
    then true
    else if less b.minute a.minute
    then false
    else if less a.second b.second
    then true
    else if less b.second a.second
    then false
    else last

unfoldable pub is_before : Time → Time → Outcome Bool
unfolding comparable compare_times less
is_before a b =
    if comparable a.type b.type
    then done (compare_times (less a.fraction_of_second b.fraction_of_second) a b)
    else aborts

unfoldable pub is_at_most : Time → Time → Outcome Bool
unfolding comparable compare_times less
is_at_most a b =
    if comparable a.type b.type
    then done (compare_times (not (less b.fraction_of_second a.fraction_of_second)) a b)
    else aborts

unfoldable pub is_after : Time → Time → Outcome Bool
unfolding is_at_most
is_after a b = is_at_most a b >>= λ r. done (not r)

unfoldable pub is_at_least : Time → Time → Outcome Bool
unfolding is_before
is_at_least a b = is_before a b >>= λ r. done (not r)

-- The second operand is evaluated only if the first does not decide.
unfoldable pub is_same : Time → Time → Outcome Bool
unfolding is_at_most
is_same a b = let other = is_at_most b a in is_at_most a b >>= λ r. if r then other else done false

unfoldable pub differs : Time → Time → Outcome Bool
unfolding is_before
differs a b = let other = is_before b a in is_before a b >>= λ r. if r then done true else other
