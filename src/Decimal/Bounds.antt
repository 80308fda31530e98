-- ===== src/Decimal/Bounds.antt =====
-- How long a printed number is.
use native.Mathlib.Nat.{pow-le-pow_right}
use numcore_messaging_librar.Common.{
  ltb, le→ltb, ◌≡◌, false, ℕ, zero, suc, ◌+◌, ◌/◌, ◌%◌, ◌^◌, ◌≤◌, ◌<◌, Bytes, [], ◌∷◌, length,
  arith,
}
use numcore_messaging_librar.Decimal.{digits, decimal}

length-digits :
    (f k n : ℕ) (out : Bytes) → n < 10 ^ suc k → length (digits f n out) ≤ suc k + length out
unfolding digits
length-digits zero k n out h = omega arith
length-digits (suc f) zero n out h = ground arith
length-digits (suc f) (suc k) n out h =
    let smaller : n / 10 < 10 ^ suc k = omega arith in
    ground (arith, length-digits f k (n / 10) ((b'0' + n % 10) ∷ out) smaller)

-- A number below a power of ten has at most as many digits as the exponent says.
pub length-decimal : (k n : ℕ) → n < 10 ^ suc k → length (decimal n) ≤ suc k
unfolding decimal
length-decimal k n h = omega (arith, length-digits (suc n) k n [] h)

length-digits-ge :
    (f k n : ℕ) (out : Bytes) → n < f → 10 ^ k ≤ n → suc k + length out ≤ length (digits f n out)
unfolding digits
length-digits-ge zero k n out b h = absurd (omega (arith, b))
length-digits-ge (suc f) zero n out b h =
    ground (arith, length-digits-ge f 0 (n / 10) ((b'0' + n % 10) ∷ out))
length-digits-ge (suc f) (suc k) n out b h =
    let some : 10 ^ 0 ≤ 10 ^ k = pow-le-pow_right (ground arith) {i = 0} (omega arith) in
    let large : ltb n 10 ≡ false = le→ltb n 10 (omega (arith, h, some)) in
    let more =
      length-digits-ge f k (n / 10) ((b'0' + n % 10) ∷ out) (omega (arith, b, h, some))
        (omega (arith, h)) in
    rw (digits, large) (omega (arith, more))

-- And more digits than the exponent of a power of ten that it is not below.
pub length-decimal-ge : (k n : ℕ) → 10 ^ k ≤ n → suc k ≤ length (decimal n)
unfolding decimal
length-decimal-ge k n h = omega (arith, length-digits-ge (suc n) k n [] (omega arith) h)
