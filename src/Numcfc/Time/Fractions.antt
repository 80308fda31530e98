-- ===== src/Numcfc/Time/Fractions.antt =====
-- The milliseconds of a text, as a fraction and back.
use numcore_messaging_librar.Common.{
  ℕ, zero, suc, ◌+◌, ◌*◌, ◌/◌, ◌^◌, ◌<◌, ◌≡◌, ◌⊎◌, refl, Bool, true, ◌&&◌, ◌||◌, ◌==◌, ltb, leb,
  ◌≤◌, arith,
}
use numcore_messaging_librar.Numcfc.Time.{thousandths}

-- What is printed of the fraction that the thousandth `n` is read as.
unfoldable pub printed_again : ℕ → ℕ
unfolding thousandths
printed_again n = thousandths n * 1000 / 2 ^ 33

unfoldable comes_back : ℕ → Bool
unfolding printed_again
comes_back n = (printed_again n == n || printed_again n + 1 == n) && ltb (thousandths n) (2 ^ 33)

all_below : ℕ → (ℕ → Bool) → Bool
all_below zero test = true
all_below (suc n) test = test n && all_below n test

all_below-lt : (n : ℕ) (test : ℕ → Bool) (i : ℕ) → all_below n test ≡ true → i < n → test i ≡ true
unfolding all_below
all_below-lt zero test i h k = absurd (omega arith)
all_below-lt (suc n) test i h k = ground (arith, all_below-lt n test i)

all_come_back : all_below 1000 comes_back ≡ true
unfolding all_below comes_back
all_come_back = refl

comes_back_lem : (i : ℕ) → i < 1000 → comes_back i ≡ true
comes_back_lem i h = all_below-lt 1000 comes_back i all_come_back h

-- A thousandth below 1000 is read as less than a second.
pub thousandths-lt : (i : ℕ) → i < 1000 → thousandths i < 2 ^ 33
unfolding comes_back
thousandths-lt i h = ground (arith, comes_back_lem i h)

-- It is printed as it was, or as the one before it.
pub printed_again-cases : (i : ℕ) → i < 1000 → (printed_again i ≡ i) ⊎ (printed_again i + 1 ≡ i)
unfolding comes_back
printed_again-cases i h = ground (arith, comes_back_lem i h)

unfoldable is_close : ℕ → Bool
unfolding thousandths
is_close n =
    leb (1000 * thousandths n) (n * 2 ^ 33 + 2 ^ 18)
    && leb (n * 2 ^ 33) (1000 * thousandths n + 2 ^ 18)

all_close : all_below 1000 is_close ≡ true
unfolding all_below is_close
all_close = refl

-- It is read as nearly that part of a second.
pub thousandths-near :
    (i : ℕ)
    → i < 1000
    → (1000 * thousandths i ≤ i * 2 ^ 33 + 2 ^ 18) × (i * 2 ^ 33 ≤ 1000 * thousandths i + 2 ^ 18)
unfolding is_close
thousandths-near i h = ground (arith, all_below-lt 1000 is_close i all_close h)
