-- ===== src/Common/Text.antt =====
-- `std::string` and `char*` buffers as lists of bytes, with the C and C++ library calls that the
-- sources make on them: `==`, `memchr`, decimal printing and `atoi`.
use Prim.Native.Nat.{ℕ, suc, ◌<◌}
use Prim.Native.Char.{code}
use Prim.Native.String.{String}
use mathlib.Core.Path.{◌≡◌, refl}
use mathlib.Core.Logic.{◌≢◌, ◌↔◌, inl, inr}
use mathlib.Core.Bool.{Bool, true, false, ◌&&◌}
use mathlib.Core.List.{List, [], ◌∷◌, ◌++◌}
use mathlib.Core.Option
use mathlib.Core.Option.{Option, none, some}
use native.Mathlib.Omega.{arith}
use numcore_messaging_librar.Common.Tests.{◌==◌, if◌then◌else◌, Option-cases}
use numcore_messaging_librar.Common.Lists.{length}

abbrev pub Bytes : Type 0
Bytes = List ℕ

-- The code points of a literal: its bytes, if it is ASCII.
abbrev pub codes : String → Bytes
codes String.[] = []
codes (String.◌∷◌ c s) = code c ∷ codes s

-- `operator==` of `std::string`
unfoldable pub bytes_eq : Bytes → Bytes → Bool
bytes_eq [] [] = true
bytes_eq (x ∷ xs) (y ∷ ys) = x == y && bytes_eq xs ys
bytes_eq _ _ = false

pub bytes_eq_iff : (a b : Bytes) → (bytes_eq a b ≡ true) ↔ (a ≡ b)
unfolding bytes_eq
bytes_eq_iff (x ∷ a) (y ∷ b) = ground (arith, bytes_eq_iff a b)
bytes_eq_iff _ _ = ground arith

pub bytes_eq_of_ne : (a b : Bytes) → a ≢ b → bytes_eq a b ≡ false
bytes_eq_of_ne a b h = ground (arith, bytes_eq_iff a b)

pub bytes_eq_refl : (a : Bytes) → bytes_eq a a ≡ true
bytes_eq_refl a = (bytes_eq_iff a a).1 refl

-- The position of the first `c`, as `memchr` and `std::string::find` report it.
unfoldable pub memchr : Bytes → ℕ → Option ℕ
memchr [] c = none
memchr (x ∷ s) c = if x == c then some 0 else Option.map suc (memchr s c)

-- No byte of the text is `c`.
abbrev pub Lacks : ℕ → Bytes → Type 0
Lacks c [] = Unit {0}
Lacks c (x ∷ s) = (x ≢ c) × Lacks c s

-- The first occurrence stands right behind a text that lacks the byte.
pub memchr-append :
    (p rest : Bytes) (c : ℕ) → Lacks c p → memchr (p ++ (c ∷ rest)) c ≡ some (length p)
unfolding memchr
memchr-append [] rest c h = ground arith
memchr-append (x ∷ p) rest c h = ground (arith, memchr-append p rest c h.1)

pub Lacks-append : (c : ℕ) (p q : Bytes) → Lacks c p → Lacks c q → Lacks c (p ++ q)
Lacks-append c [] q h k = k
Lacks-append c (x ∷ p) q h k = (h.0, Lacks-append c p q h.1 k)

-- A reported position lies inside the text.
pub memchr-lt-length : (s : Bytes) (c : ℕ) {i : ℕ} → memchr s c ≡ some i → i < length s
unfolding memchr
memchr-lt-length [] c h = cc
memchr-lt-length (x ∷ s) c {i} h = elim (Option-cases (memchr s c)) [
  | inl e ↦ ground arith
  | inr (j, e) ↦ ground (arith, memchr-lt-length s c e)
]
