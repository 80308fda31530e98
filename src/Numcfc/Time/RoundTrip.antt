-- ===== src/Numcfc/Time/RoundTrip.antt =====
-- Printing a time and reading the text.
use numcore_messaging_librar.Common.{
  ℕ, ◌+◌, ◌*◌, ◌/◌, ◌^◌, ◌<◌, ◌≡◌, ◌⊎◌, refl, ap, ◌∙◌, true, false, [], ◌∷◌, ◌++◌, Bytes, length,
  length-append, drop, arith, ℤ, pos, ltb, lt→ltb,
}
use numcore_messaging_librar.Outcome.{done}
use numcore_messaging_librar.Numcfc.Time.{
  Time, TimeType, padded, print_time, to_extended_iso, from_extended_iso, read_time, read_field,
  read_field_if, read_fraction, in_thousandths, thousandths, thousandths_of_int, is_fraction, less,
  get_extended_iso_length,
}
use numcore_messaging_librar.Numcfc.Time.Fractions.{
  thousandths-lt, printed_again, printed_again-cases,
}
use numcore_messaging_librar.Numcfc.Time.Fields.{
  length-padded, atoi-padded, read_field-padded, drop_field,
}

-- A time whose fields fit their places.
pub record Stamp : Type 0 where
  pub year : ℕ
  pub month : ℕ
  pub day : ℕ
  pub hour : ℕ
  pub minute : ℕ
  pub second : ℕ
  pub fraction : ℕ
  pub year_fits : year < 10000
  pub month_fits : month < 100
  pub day_fits : day < 100
  pub hour_fits : hour < 100
  pub minute_fits : minute < 100
  pub second_fits : second < 100
  pub fraction_fits : fraction < 2 ^ 33

-- The time with these fields; the fraction and the type are given.
abbrev pub with_fields : Stamp → ℤ → TimeType → Time
with_fields s fraction type = record {
  year = pos s.year;
  month = pos s.month;
  day = pos s.day;
  hour = pos s.hour;
  minute = pos s.minute;
  second = pos s.second;
  fraction_of_second = fraction;
  type = type;
}

abbrev pub milliseconds : Stamp → ℕ
milliseconds s = s.fraction * 1000 / 2 ^ 33

module _ (s : Stamp) where
  abbrev milli : Bytes
  milli = padded 3 (pos (milliseconds s))

  abbrev from_second : Bytes
  from_second = padded 2 (pos s.second) ++ (b'.' ∷ milli)

  abbrev from_minute : Bytes
  from_minute = padded 2 (pos s.minute) ++ (b':' ∷ from_second)

  abbrev from_hour : Bytes
  from_hour = padded 2 (pos s.hour) ++ (b':' ∷ from_minute)

  abbrev from_day : Bytes
  from_day = padded 2 (pos s.day) ++ (b'T' ∷ from_hour)

  abbrev from_month : Bytes
  from_month = padded 2 (pos s.month) ++ (b'-' ∷ from_day)

  abbrev pub from_year : Bytes
  from_year = padded 4 (pos s.year) ++ (b'-' ∷ from_month)

  length-field :
      (n : ℕ) (c : ℕ) (rest : Bytes)
      → n < 100
      → length (padded 2 (pos n) ++ (c ∷ rest)) ≡ 3 + length rest
  length-field n c rest h =
      omega (arith, length-append (padded 2 (pos n)) (c ∷ rest), length-padded 1 n h)

  milliseconds_fit : milliseconds s < 1000
  milliseconds_fit = omega (arith, s.fraction_fits)

  length-from_year : length from_year ≡ 23
  length-from_year = omega (
    arith,
    length-append (padded 4 (pos s.year)) (b'-' ∷ from_month),
    length-padded 3 s.year s.year_fits,
    length-field s.month b'-' from_day s.month_fits,
    length-field s.day b'T' from_hour s.day_fits,
    length-field s.hour b':' from_minute s.hour_fits,
    length-field s.minute b':' from_second s.minute_fits,
    length-field s.second b'.' milli s.second_fits,
    length-padded 2 (milliseconds s) milliseconds_fit,
  )

  printed : (type : TimeType) → print_time (with_fields s (pos s.fraction) type) ≡ from_year
  unfolding print_time in_thousandths
  printed type = refl

  -- The text has the length that the format says.
  to_extended_iso-fits :
      (type : TimeType) → to_extended_iso (with_fields s (pos s.fraction) type) ≡ done from_year
  unfolding to_extended_iso is_fraction less
  to_extended_iso-fits type =
      rw (lt→ltb s.fraction (2 ^ 33) s.fraction_fits, printed type, length-from_year) refl

  past :
      (n c : ℕ) (rest : Bytes) (k m : ℕ)
      → n < 100
      → k ≡ 3 + m
      → drop k (padded 2 (pos n) ++ (c ∷ rest)) ≡ drop m rest
  past n c rest k m h e =
      drop_field (padded 2 (pos n)) rest c k m (omega (arith, e, length-padded 1 n h))

  past_year : (k m : ℕ) → k ≡ 5 + m → drop k from_year ≡ drop m from_month
  past_year k m e =
      drop_field (padded 4 (pos s.year)) from_month b'-' k m
        (omega (arith, e, length-padded 3 s.year s.year_fits))

  past_month : (k m : ℕ) → k ≡ 8 + m → drop k from_year ≡ drop m from_day
  past_month k m e =
      past_year k (3 + m) (omega (arith, e))
      ∙ past s.month b'-' from_day (3 + m) m s.month_fits refl

  past_day : (k m : ℕ) → k ≡ 11 + m → drop k from_year ≡ drop m from_hour
  past_day k m e =
      past_month k (3 + m) (omega (arith, e)) ∙ past s.day b'T' from_hour (3 + m) m s.day_fits refl

  past_hour : (k m : ℕ) → k ≡ 14 + m → drop k from_year ≡ drop m from_minute
  past_hour k m e =
      past_day k (3 + m) (omega (arith, e))
      ∙ past s.hour b':' from_minute (3 + m) m s.hour_fits refl

  past_minute : (k m : ℕ) → k ≡ 17 + m → drop k from_year ≡ drop m from_second
  past_minute k m e =
      past_hour k (3 + m) (omega (arith, e))
      ∙ past s.minute b':' from_second (3 + m) m s.minute_fits refl

  past_second : drop 20 from_year ≡ milli
  past_second = past_minute 20 3 refl ∙ past s.second b'.' milli 3 0 s.second_fits refl

  read_two :
      (n : ℕ) (rest : Bytes) → n < 100 → read_field 2 (padded 2 (pos n) ++ rest) ≡ done (pos n)
  read_two n rest h = read_field-padded 1 n rest h (omega (arith, h))

  read_milli : read_fraction true milli ≡ done (thousandths_of_int (pos (milliseconds s)))
  unfolding read_fraction is_fraction less thousandths_of_int
  read_milli =
      rw
        (
          atoi-padded 3 (milliseconds s) 0 [] (omega (arith, milliseconds_fit)) refl,
          lt→ltb _ _ (thousandths-lt (milliseconds s) milliseconds_fit),
        )
        refl

  read_time-from_year :
      (t : Time)
      → read_time from_year t
        ≡ done (true, with_fields s (thousandths_of_int (pos (milliseconds s))) t.type)
  unfolding read_time read_field_if
  read_time-from_year t =
      rw
        (
          length-from_year,
          read_field-padded 3 s.year (b'-' ∷ from_month) s.year_fits (omega (arith, s.year_fits)),
          past_year 5 0 refl,
          read_two s.month (b'-' ∷ from_day) s.month_fits,
          past_month 8 0 refl,
          read_two s.day (b'T' ∷ from_hour) s.day_fits,
          past_day 11 0 refl,
          read_two s.hour (b':' ∷ from_minute) s.hour_fits,
          past_hour 14 0 refl,
          read_two s.minute (b':' ∷ from_second) s.minute_fits,
          past_minute 17 0 refl,
          read_two s.second (b'.' ∷ milli) s.second_fits,
          past_second,
          read_milli,
        )
        refl

  pub from_extended_iso-from_year :
      (t : Time)
      → from_extended_iso from_year t
        ≡ done (true, with_fields s (pos (thousandths (milliseconds s))) t.type)
  unfolding from_extended_iso thousandths_of_int
  from_extended_iso-from_year t =
      let long : ltb (length from_year) 10 ≡ false = ap (λ n. ltb n 10) length-from_year in
      rw long (read_time-from_year t)

  -- A time whose fields fit their places is printed, with a text of exactly the length of the
  -- format; and the text is read as a time with the same year, month, day, hour, minute and second,
  -- whose thousandths are printed as they were, or one less.
  pub from-to_extended_iso :
      (type : TimeType) (t : Time)
      → (text : Bytes) × (f : ℕ) × (to_extended_iso (with_fields s (pos s.fraction) type)
          ≡ done text)
        × (length text ≡ get_extended_iso_length)
        × (from_extended_iso text t ≡ done (true, with_fields s (pos f) t.type))
        × ((f * 1000 / 2 ^ 33 ≡ milliseconds s) ⊎ (f * 1000 / 2 ^ 33 + 1 ≡ milliseconds s))
  unfolding printed_again
  from-to_extended_iso type t = (
    from_year,
    thousandths (milliseconds s),
    to_extended_iso-fits type,
    length-from_year,
    from_extended_iso-from_year t,
    printed_again-cases (milliseconds s) milliseconds_fit,
  )
