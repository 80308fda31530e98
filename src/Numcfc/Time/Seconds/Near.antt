-- ===== src/Numcfc/Time/Seconds/Near.antt =====
-- Roundings that leave a time its seconds and milliseconds.
use numcore_messaging_librar.Common.{
  ℕ, zero, suc, ap, ◌+◌, ◌*◌, ◌-◌, ◌/◌, ◌^◌, ◌≤◌, ◌<◌, ◌≡◌, refl, arith, pos, le→ltb, ◌+ℤ◌,
  difference, negate,
}
use numcore_messaging_librar.Numcfc.Time.{thousandths}
use numcore_messaging_librar.Numcfc.Time.Fractions.{thousandths-near}
use numcore_messaging_librar.Numcfc.Time.Seconds.{round_double, round_signed}
use numcore_messaging_librar.Numcfc.Time.Seconds.Rounding.{round_double-near}

-- `d` is about `tt` seconds and `n` thousandths; 2^63 stands for one thousandth.
pub record IsNear (error d tt n : ℕ) : Type 0 where
  pub above : 1000 * d ≤ (1000 * tt + n) * 2 ^ 63 + error
  pub below : (1000 * tt + n) * 2 ^ 63 ≤ 1000 * d + error

module _ (d tt n : ℕ) (near : IsNear (2 ^ 59) d tt n) (least : 2 ≤ tt) (most : tt < 2 ^ 38)
    (thousandth : n < 1000) where
  abbrev pub f : ℕ
  f = round_double (d + 4611686018427388)

  f-near :
      (2 * f ≤ 2 * (d + 4611686018427388) + 2 ^ 48) × (2 * (d + 4611686018427388) ≤ 2 * f + 2 ^ 48)
  f-near =
      round_double-near 48 (d + 4611686018427388)
        (omega (arith, near.above, near.below, most, thousandth))

  pub seconds : f / 2 ^ 63 ≡ tt
  seconds = omega (arith, f-near, near.above, near.below, most, thousandth)

  product-near :
      (2 * round_double (1000 * f) ≤ 2 * (1000 * f) + 2 ^ 58)
      × (2 * (1000 * f) ≤ 2 * round_double (1000 * f) + 2 ^ 58)
  product-near =
      round_double-near 58 (1000 * f)
        (omega (arith, f-near, near.above, near.below, most, thousandth))

  whole-near :
      (2 * round_double (1000 * (tt * 2 ^ 63)) ≤ 2 * (1000 * (tt * 2 ^ 63)) + 2 ^ 58)
      × (2 * (1000 * (tt * 2 ^ 63)) ≤ 2 * round_double (1000 * (tt * 2 ^ 63)) + 2 ^ 58)
  whole-near = round_double-near 58 (1000 * (tt * 2 ^ 63)) (omega (arith, most))

  -- Half a thousandth more than `n`, and less than a quarter off that.
  rest-near :
      let rest = round_double (1000 * f) - round_double (1000 * (tt * 2 ^ 63)) in
      (rest < n * 2 ^ 63 + 2 ^ 62 + 2 ^ 61) × (n * 2 ^ 63 + 2 ^ 61 < rest)
  rest-near = (
    omega (arith, product-near, whole-near, f-near, near.above, near.below, most, thousandth),
    omega (arith, product-near, whole-near, f-near, near.above, near.below, most, thousandth),
  )

  pub milliseconds_again :
      let frac = round_double (round_double (1000 * f) - round_double (1000 * (tt * 2 ^ 63))) in
      (frac < 1000 * 2 ^ 63) × (frac / 2 ^ 63 ≡ n)
  milliseconds_again =
      let rounded =
        round_double-near 21 (round_double (1000 * f) - round_double (1000 * (tt * 2 ^ 63)))
          (omega (arith, rest-near, thousandth)) in
      (omega (arith, rounded, rest-near, thousandth), omega (arith, rounded, rest-near, thousandth))

-- Two roundings, and what is read of `n` milliseconds.
pub sum-IsNear :
    (tt n : ℕ)
    → tt < 2 ^ 38
    → n < 1000
    → IsNear (2 ^ 58) (round_double (round_double (2 ^ 63 * tt) + 2 ^ 30 * thousandths n)) tt n
sum-IsNear tt n most few =
    let part = thousandths-near n few in
    let whole = round_double-near 48 (2 ^ 63 * tt) (omega (arith, most)) in
    let sum =
      round_double-near 48 (round_double (2 ^ 63 * tt) + 2 ^ 30 * thousandths n)
        (omega (arith, most, few, part, whole)) in
    record { above = omega (arith, part, whole, sum); below = omega (arith, part, whole, sum) }

pub IsNear-later :
    (d k tt n : ℕ)
    → IsNear (2 ^ 58) d tt n
    → n < 1000
    → tt + k < 2 ^ 38
    → IsNear (2 ^ 59) (round_double (d + 2 ^ 30 * (k * 2 ^ 33))) (tt + k) n
IsNear-later d k tt n near few most =
    let sum =
      round_double-near 48 (d + 2 ^ 30 * (k * 2 ^ 33)) (omega (arith, near.above, most, few)) in
    record {
      above = omega (arith, near.above, near.below, sum);
      below = omega (arith, near.above, near.below, sum);
    }

pos-negate : (m d : ℕ) → d ≤ m → pos m +ℤ negate (pos d) ≡ pos (m - d)
unfolding ◌+ℤ◌ difference
pos-negate m zero h = ap pos (omega arith)
pos-negate m (suc d) h = rw (le→ltb m (d + 1) (omega (arith, h))) (ap pos (omega arith))

pub difference_of-near :
    (d d' k tt n : ℕ)
    → IsNear (2 ^ 58) d tt n
    → IsNear (2 ^ 58) d' (tt + k) n
    → 1 ≤ k
    → k < 2 ^ 38
    → (x : ℕ) × (round_signed (pos d' +ℤ negate (pos d)) ≡ pos x)
      × (1000 * x < (1000 * k + 1) * 2 ^ 63)
      × (1000 * k * 2 ^ 63 < 1000 * x + 2 ^ 63)
unfolding round_signed
difference_of-near d d' k tt n near near' one most =
    let few =
      round_double-near 48 (d' - d)
        (omega (arith, near.above, near'.above, near.below, near'.below, most)) in
    (
      round_double (d' - d),
      rw (pos-negate d' d (omega (arith, near.above, near'.below, one))) refl,
      omega (arith, near.above, near'.above, near.below, near'.below, few),
      omega (arith, near.above, near'.above, near.below, near'.below, few),
    )
