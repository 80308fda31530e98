-- ===== src/Numcfc/Time/Ordered.antt =====
-- The comparisons, against the lexicographic order of the fields.
use numcore_messaging_librar.Common.{
  ◌≡◌, ◌⊎◌, inl, inr, refl, sym, ap, ◌∙◌, Bool, true, false, not, List, [], ◌∷◌, ℤ, pos, negsuc,
  length, arith, if◌then◌else◌,
}
use numcore_messaging_librar.Outcome.{done}
use numcore_messaging_librar.Numcfc.Time.{
  Time, less, comparable, compare_times, is_before, is_at_most, is_after, is_at_least, is_same,
  differs, TimeType, universal, local, unknown,
}

-- How two numbers, or two lists of numbers, stand to each other.
abbrev Stand : Bool → Bool → Type 0 → Type 0
Stand below above equal =
    ((below ≡ true) × (above ≡ false))
    ⊎ (equal × (below ≡ false) × (above ≡ false))
    ⊎ ((below ≡ false) × (above ≡ true))

less-cases : (x y : ℤ) → Stand (less x y) (less y x) (x ≡ y)
unfolding less
less-cases (pos m) (pos n) = ground arith
less-cases (pos m) (negsuc n) = ground arith
less-cases (negsuc m) (pos n) = ground arith
less-cases (negsuc m) (negsuc n) = ground arith

less_trans : (x y z : ℤ) → less x y ≡ true → less y z ≡ true → less x z ≡ true
unfolding less
less_trans (pos k) (pos m) (pos n) = ground arith
less_trans (pos k) (pos m) (negsuc n) = ground arith
less_trans (pos k) (negsuc m) z = ground arith
less_trans (negsuc k) (pos m) (pos n) = ground arith
less_trans (negsuc k) (pos m) (negsuc n) = ground arith
less_trans (negsuc k) (negsuc m) (pos n) = ground arith
less_trans (negsuc k) (negsuc m) (negsuc n) = ground arith

-- The lexicographic order.
unfoldable pub precedes : List ℤ → List ℤ → Bool
unfolding less
precedes [] ys = false
precedes (x ∷ xs) [] = false
precedes (x ∷ xs) (y ∷ ys) = if less x y then true else if less y x then false else precedes xs ys

-- The fields in the order of their weight.
abbrev pub keys : Time → List ℤ
keys t = t.year ∷ t.month ∷ t.day ∷ t.hour ∷ t.minute ∷ t.second ∷ t.fraction_of_second ∷ []

precedes-cases :
    (xs ys : List ℤ) → length xs ≡ length ys → Stand (precedes xs ys) (precedes ys xs) (xs ≡ ys)
unfolding precedes
precedes-cases [] [] e = inr (inl (refl, refl, refl))
precedes-cases [] (y ∷ ys) e = ground arith
precedes-cases (x ∷ xs) [] e = ground arith
precedes-cases (x ∷ xs) (y ∷ ys) e =
    ground (arith, less-cases x y, precedes-cases xs ys (omega (arith, e)))

precedes_trans :
    (xs ys zs : List ℤ) → precedes xs ys ≡ true → precedes ys zs ≡ true → precedes xs zs ≡ true
unfolding precedes
precedes_trans [] ys zs h k = ground (arith, h)
precedes_trans (x ∷ xs) [] zs h k = ground (arith, h)
precedes_trans (x ∷ xs) (y ∷ ys) [] h k = ground (arith, k)
precedes_trans (x ∷ xs) (y ∷ ys) (z ∷ zs) h k = ground (
  arith,
  less-cases x y,
  less-cases y z,
  less-cases x z,
  less_trans x y z,
  less_trans y z x,
  less_trans z x y,
  precedes_trans xs ys zs,
)

compare_times-precedes :
    (a b : Time)
    → compare_times (less a.fraction_of_second b.fraction_of_second) a b
      ≡ precedes (keys a) (keys b)
unfolding compare_times precedes
compare_times-precedes a b = ground arith

compare_times-not :
    (a b : Time)
    → compare_times (not (less b.fraction_of_second a.fraction_of_second)) a b
      ≡ not (precedes (keys b) (keys a))
unfolding compare_times precedes
compare_times-not a b = ground (
  arith,
  less-cases a.year b.year,
  less-cases a.month b.month,
  less-cases a.day b.day,
  less-cases a.hour b.hour,
  less-cases a.minute b.minute,
  less-cases a.second b.second,
)

comparable_comm : (s t : TimeType) → comparable s t ≡ comparable t s
unfolding comparable
comparable_comm universal universal = refl
comparable_comm universal local = refl
comparable_comm universal unknown = refl
comparable_comm local universal = refl
comparable_comm local local = refl
comparable_comm local unknown = refl
comparable_comm unknown universal = refl
comparable_comm unknown local = refl
comparable_comm unknown unknown = refl

-- What the six comparisons return.
pub record Verdict (a b : Time) (before same after : Bool) : Type 0 where
  pub before_is : is_before a b ≡ done before
  pub after_is : is_after a b ≡ done after
  pub same_is : is_same a b ≡ done same
  pub differs_is : differs a b ≡ done (not same)
  pub at_most_is : is_at_most a b ≡ done (not after)
  pub at_least_is : is_at_least a b ≡ done (not before)

verdict :
    (a b : Time) {before after : Bool}
    → comparable a.type b.type ≡ true
    → precedes (keys a) (keys b) ≡ before
    → precedes (keys b) (keys a) ≡ after
    → Verdict a b before (if before then false else not after) after
unfolding is_before is_at_most is_after is_at_least is_same differs
verdict a b {before} {after} c h k =
    let c' : comparable b.type a.type ≡ true = comparable_comm b.type a.type ∙ c in
    let before_ab = compare_times-precedes a b ∙ h in
    let before_ba = compare_times-precedes b a ∙ k in
    let at_most_ab = compare_times-not a b ∙ ap not k in
    let at_most_ba = compare_times-not b a ∙ ap not h in
    record {
      before_is = rw (c, before_ab) refl;
      after_is = rw (c, at_most_ab) (ground arith);
      same_is = rw (c, c', at_most_ab, at_most_ba) (ground arith);
      differs_is = rw (c, c', before_ab, before_ba) (ground arith);
      at_most_is = rw (c, at_most_ab) refl;
      at_least_is = rw (c, before_ab) refl;
    }

-- Of two times that may be compared, either one is before the other, as the first field in which
-- they differ says, or they are the same in every field; and all six comparisons return what the
-- case says.
pub Verdict-cases :
    (a b : Time)
    → comparable a.type b.type ≡ true
    → ((precedes (keys a) (keys b) ≡ true) × Verdict a b true false false)
      ⊎ ((keys a ≡ keys b) × Verdict a b false true false)
      ⊎ ((precedes (keys b) (keys a) ≡ true) × Verdict a b false false true)
Verdict-cases a b c = elim (precedes-cases (keys a) (keys b) refl) [
  | inl (below, above) ↦ inl (below, verdict a b c below above)
  | inr (inl (e, below, above)) ↦ inr (inl (e, verdict a b c below above))
  | inr (inr (below, above)) ↦ inr (inr (above, verdict a b c below above))
]

-- `<` is transitive, on times that may be compared.
pub is_before_trans :
    (a b c : Time)
    → comparable a.type c.type ≡ true
    → is_before a b ≡ done true
    → is_before b c ≡ done true
    → is_before a c ≡ done true
unfolding is_before
is_before_trans a b c may h k =
    rw
      (
        may,
        compare_times-precedes a c,
        precedes_trans (keys a) (keys b) (keys c)
            (sym (compare_times-precedes a b) ∙ ground (arith, h))
            (sym (compare_times-precedes b c) ∙ ground (arith, k)),
      )
      refl
