-- ===== src/Numcfc/Time/Fields.antt =====
-- A field of a printed time, and how it is read.
use mathlib.Core.Option
use numcore_messaging_librar.Common.{
  ℕ, zero, suc, ◌+◌, ◌-◌, ◌^◌, ◌<◌, ◌≡◌, ◌≢◌, refl, sym, ap, ◌∙◌, false, List, [], ◌∷◌, ◌++◌,
  append_assoc, some, Bytes, All, All-append, length, length-append, length-replicate, take-append,
  drop, replicate, arith, pos, lt→ltb,
}
use numcore_messaging_librar.Decimal.{decimal, is_digit, scan_digits, in_int, atoi}
use numcore_messaging_librar.Decimal.RoundTrip.{
  IsDigit, decimal-IsDigit, decimal-ne-nil, scan_digits-decimal, atoi_of_digits,
}
use numcore_messaging_librar.Decimal.Bounds.{length-decimal}
use numcore_messaging_librar.Outcome.{done}
use numcore_messaging_librar.Numcfc.Time.{padded, read_field}

replicate-IsDigit : (k : ℕ) → All IsDigit (replicate k b'0')
replicate-IsDigit zero = tt
replicate-IsDigit (suc k) = ((omega arith, omega arith), replicate-IsDigit k)

scan_digits-replicate :
    (k : ℕ) (s : Bytes) → scan_digits (replicate k b'0' ++ s) 0 ≡ scan_digits s 0
unfolding scan_digits is_digit
scan_digits-replicate zero s = refl
scan_digits-replicate (suc k) s = scan_digits-replicate k s

append-ne-nil : (p s : Bytes) → s ≢ [] → (p ++ s) ≢ []
append-ne-nil [] s h = h
append-ne-nil (x ∷ p) s h = λ e. cc

-- A padded number is as long as its field.
pub length-padded : (k n : ℕ) → n < 10 ^ suc k → length (padded (suc k) (pos n)) ≡ suc k
unfolding padded
length-padded k n h = omega (
  arith,
  length-append (replicate (suc k - length (decimal n)) b'0') (decimal n),
  length-replicate {A = ℕ} (suc k - length (decimal n)) b'0',
  length-decimal k n h,
)

-- It is read back, whatever follows that is not a digit.
pub atoi-padded :
    (w n c : ℕ) (rest : Bytes)
    → n < 2 ^ 31
    → is_digit c ≡ false
    → atoi (padded w (pos n) ++ (c ∷ rest)) ≡ some (pos n)
unfolding padded in_int scan_digits Option.bind
atoi-padded w n c rest h e =
    let p : Bytes = replicate (w - length (decimal n)) b'0' in
    rw
      (
        atoi_of_digits (p ++ decimal n) (c ∷ rest) (append-ne-nil p (decimal n) (decimal-ne-nil n))
            (All-append IsDigit p (decimal n) (replicate-IsDigit _) (decimal-IsDigit n)),
        append_assoc p (decimal n) (c ∷ rest),
        scan_digits-replicate (w - length (decimal n)) (decimal n ++ (c ∷ rest)),
        scan_digits-decimal n (c ∷ rest),
      )
      (rw e (rw (lt→ltb n (2 ^ 31) h)))

pub read_field-padded :
    (k n : ℕ) (rest : Bytes)
    → n < 10 ^ suc k
    → n < 2 ^ 31
    → read_field (suc k) (padded (suc k) (pos n) ++ rest) ≡ done (pos n)
unfolding read_field is_digit
read_field-padded k n rest h small =
    rw
      (
        take-append (suc k) (padded (suc k) (pos n)) rest (sym (length-padded k n h)),
        atoi-padded (suc k) n 0 [] small refl,
      )
      refl

-- Past a field, and the character behind it.
pub drop_field {ℓ} :
    {A : Type ℓ} (p rest : List A) (c : A) (n m : ℕ)
    → n ≡ suc (length p + m)
    → drop n (p ++ (c ∷ rest)) ≡ drop m rest
drop_field [] rest c n m e =
    let at_suc : n ≡ suc m = omega (arith, e) in ap (λ k. drop k (c ∷ rest)) at_suc
drop_field (x ∷ p) rest c n m e =
    let at_suc : n ≡ suc (suc (length p + m)) = omega (arith, e) in
    ap (λ k. drop k (x ∷ (p ++ (c ∷ rest)))) at_suc
    ∙ drop_field p rest c (suc (length p + m)) m refl
