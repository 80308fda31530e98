-- ===== src/Decimal/RoundTrip.antt =====
-- What `decimal` prints, `atoi` reads back.
use mathlib.Core.Option
use numcore_messaging_librar.Common.{
  ℕ, zero, suc, ◌+◌, ◌/◌, ◌%◌, ◌^◌, ◌≤◌, ◌<◌, false, [], ◌∷◌, ◌++◌, some, ◌≡◌, refl, ◌≢◌, arith,
  Bytes, Lacks, All, lt→ltb, pos,
}
use numcore_messaging_librar.Decimal.{digits, decimal, is_digit, scan_digits, in_int, atoi}

abbrev pub IsDigit : ℕ → Type 0
IsDigit c = (b'0' ≤ c) × (c ≤ b'9')

digits-append : (f n : ℕ) (out rest : Bytes) → digits f n (out ++ rest) ≡ digits f n out ++ rest
unfolding digits
digits-append zero n out rest = refl
digits-append (suc f) n out rest =
    ground (arith, digits-append f (n / 10) ((b'0' + n % 10) ∷ out) rest)

digits-IsDigit : (f n : ℕ) (out : Bytes) → All IsDigit out → All IsDigit (digits f n out)
unfolding digits
digits-IsDigit zero n out h = h
digits-IsDigit (suc f) n out h = ground (arith, digits-IsDigit f (n / 10) ((b'0' + n % 10) ∷ out))

-- Reading the printed digits and then `out` is reading `out` behind the number.
scan_digits-digits :
    (f n : ℕ) (out : Bytes) → n < f → scan_digits (digits f n out) 0 ≡ scan_digits out n
unfolding digits scan_digits
scan_digits-digits zero n out h = elim h [ ]
scan_digits-digits (suc f) n out h =
    ground (arith, scan_digits-digits f (n / 10) ((b'0' + n % 10) ∷ out))

pub decimal-IsDigit : (n : ℕ) → All IsDigit (decimal n)
unfolding decimal
decimal-IsDigit n = digits-IsDigit (suc n) n [] tt

pub scan_digits-decimal :
    (n : ℕ) (rest : Bytes) → scan_digits (decimal n ++ rest) 0 ≡ scan_digits rest n
unfolding decimal
scan_digits-decimal n rest =
    ground (arith, digits-append (suc n) n [] rest, scan_digits-digits (suc n) n rest)

-- Digits hold no byte below b'0' or above b'9'.
pub IsDigit-Lacks : (c : ℕ) (s : Bytes) → c < b'0' → All IsDigit s → Lacks c s
IsDigit-Lacks c [] h d = tt
IsDigit-Lacks c (x ∷ s) h d = (omega arith, IsDigit-Lacks c s h d.1)

pub atoi_of_digits :
    (s rest : Bytes)
    → s ≢ []
    → All IsDigit s
    → atoi (s ++ rest) ≡ Option.bind (Option.map pos (scan_digits (s ++ rest) 0)) in_int
unfolding atoi
atoi_of_digits [] rest h d = absurd (h refl)
atoi_of_digits (c ∷ s) rest h d = ground arith

digits-ne-nil : (f n : ℕ) (out : Bytes) → out ≢ [] → digits f n out ≢ []
unfolding digits
digits-ne-nil zero n out h = h
digits-ne-nil (suc f) n out h = ground (arith, digits-ne-nil f (n / 10) ((b'0' + n % 10) ∷ out))

pub decimal-ne-nil : (n : ℕ) → decimal n ≢ []
unfolding decimal digits
decimal-ne-nil n = ground (arith, digits-ne-nil n (n / 10) ((b'0' + n % 10) ∷ []))

-- A number that fits `int` is read back, whatever stands behind it, if that is not a digit.
pub atoi-decimal :
    (n : ℕ) (c : ℕ) (rest : Bytes)
    → n < 2 ^ 31
    → is_digit c ≡ false
    → atoi (decimal n ++ (c ∷ rest)) ≡ some (pos n)
unfolding in_int scan_digits Option.bind
atoi-decimal n c rest h e =
    rw
      (
        atoi_of_digits (decimal n) (c ∷ rest) (decimal-ne-nil n) (decimal-IsDigit n),
        scan_digits-decimal n (c ∷ rest),
      )
      (rw e (rw (lt→ltb n (2 ^ 31) h)))
