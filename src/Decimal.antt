-- ===== src/Decimal.antt =====
-- Numbers in decimal: `ostream << n` for an unsigned n, and `atoi`. A buffer is the list of the
-- bytes that may be read, and `none` is undefined behaviour: a read past its end, or a value that
-- does not fit `int`.
pub mod RoundTrip
pub mod Bounds
use mathlib.Core.Option
use numcore_messaging_librar.Common.{
  ℕ, zero, suc, ◌+◌, ◌-◌, ◌*◌, ◌/◌, ◌%◌, ◌^◌, Bool, true, false, ◌&&◌, ◌||◌, [], ◌∷◌, Option, none,
  some, Bytes, ltb, leb, ◌==◌, if◌then◌else◌, ℤ, pos, negsuc, neg_of_ℕ,
}

-- The last digits stand in `out`; a number below the fuel needs no more rounds than that.
pub digits : ℕ → ℕ → Bytes → Bytes
digits zero n out = out
digits (suc fuel) n out = elim (ltb n 10) [
  | true ↦ (b'0' + n) ∷ out
  | false ↦ digits fuel (n / 10) ((b'0' + n % 10) ∷ out)
]

unfoldable pub decimal : ℕ → Bytes
unfolding digits
decimal n = digits (suc n) n []

unfoldable pub is_digit : ℕ → Bool
is_digit c = leb b'0' c && leb c b'9'

-- `isspace`: space, and \t \n \v \f \r
unfoldable pub is_space : ℕ → Bool
is_space c = c == b' ' || leb 9 c && leb c 13

unfoldable pub scan_digits : Bytes → ℕ → Option ℕ
unfolding is_digit
scan_digits [] n = none
scan_digits (c ∷ s) n = if is_digit c then scan_digits s (n * 10 + (c - b'0')) else some n

unfoldable pub in_int : ℤ → Option ℤ
in_int (pos n) = if ltb n (2 ^ 31) then some (pos n) else none
in_int (negsuc n) = if ltb n (2 ^ 31) then some (negsuc n) else none

-- An optional sign, then digits.
signed : ℕ → Bytes → Option ℤ
unfolding scan_digits
signed c s =
    if c == b'-'
    then Option.map neg_of_ℕ (scan_digits s 0)
    else Option.map pos (if c == b'+' then scan_digits s 0 else scan_digits (c ∷ s) 0)

unfoldable pub atoi : Bytes → Option ℤ
unfolding is_space signed in_int Option.bind
atoi [] = none
atoi (c ∷ s) = if is_space c then atoi s else Option.bind (signed c s) in_int

-- The conversion of an `int` to `unsigned int`.
unfoldable pub to_unsigned : ℤ → ℕ
to_unsigned (pos n) = n
to_unsigned (negsuc n) = 2 ^ 32 - (n + 1)
