-- ===== src/Numcfc/Time/Seconds/Rounding.antt =====
-- How far the rounding of `double` goes.
use native.Mathlib.Nat.{pow-le-pow_right, div-add-mod', add-mul, mod-lt}
use numcore_messaging_librar.Common.{
  ℕ, zero, suc, ◌+◌, ◌*◌, ◌/◌, ◌%◌, ◌^◌, ◌≤◌, ◌<◌, ◌≡◌, ◌⊎◌, true, false, ltb, arith, Bool-cases,
  inl, inr, ltb→lt, lt→ltb,
}
use numcore_messaging_librar.Numcfc.Time.{half_even}
use numcore_messaging_librar.Numcfc.Time.Seconds.{double_shift, round_double}

below_bound : (num s k : ℕ) → s ≤ k → num < 2 ^ (53 + k) → ltb num (2 ^ (53 + s)) ≡ false → s < k
below_bound num s k h b large = elim (Bool-cases (ltb s k)) [
  | inl less ↦ ltb→lt s k less
  | inr least ↦
      let same : k ≡ s = ground (arith, least) in
      let small : ltb num (2 ^ (53 + s)) ≡ true = lt→ltb num _ (rw same at b) in
      absurd (cc (small, large))
]

double_shift-le : (fuel num s k : ℕ) → s ≤ k → num < 2 ^ (53 + k) → double_shift fuel num s ≤ k
double_shift-le zero num s k h b = h
double_shift-le (suc fuel) num s k h b = elim (Bool-cases (ltb num (2 ^ (53 + s)))) [
  | inl small ↦ rw (double_shift, small) h
  | inr large ↦
      let less = below_bound num s k h b large in
      rw (double_shift, large) (double_shift-le fuel num (s + 1) k (omega (arith, less)) b)
]

half_even-cases :
    (d q r : ℕ) → ((half_even d q r ≡ q) × (2 * r ≤ d)) ⊎ ((half_even d q r ≡ q + 1) × (d ≤ 2 * r))
half_even-cases d q r = ground arith

-- Rounding goes half a unit of the last digit at most.
pub round_double-near :
    (k num : ℕ)
    → num < 2 ^ (53 + k)
    → (2 * round_double num ≤ 2 * num + 2 ^ k) × (2 * num ≤ 2 * round_double num + 2 ^ k)
unfolding round_double
round_double-near k num h =
    let s = double_shift 128 num 0 in
    let d : ℕ = 2 ^ s in
    let most : d ≤ 2 ^ k =
      pow-le-pow_right (ground arith) (double_shift-le 128 num 0 k (omega arith) h) in
    let some : 2 ^ 0 ≤ d = pow-le-pow_right (ground arith) {i = 0} (omega arith) in
    let rest = mod-lt num {m = d} (omega (arith, some)) in
    let parts = div-add-mod' num d in
    elim (half_even-cases d (num / d) (num % d)) [
      | inl (e, b) ↦ rw e (omega (arith, parts, most, b), omega (arith, parts, most, b))
      | inr (e, b) ↦
          rw (e, add-mul (num / d) 1 d)
            (omega (arith, parts, most, b), omega (arith, parts, most, rest))
    ]
