-- ===== src/Numcfc/IdGenerator/Distinct.antt =====
-- Identifiers against what they are made of.
use mathlib.Core.Path.{subst}
use numcore_messaging_librar.Common.{
  ℕ, ◌≤◌, ◌≡◌, refl, sym, ap, ◌∙◌, Bool, true, false, List, [], ◌∷◌, ◌++◌, append-nil, Bytes, Lacks,
  Lacks-append, All, length, drop, arith,
}
use numcore_messaging_librar.Numcfc.IdGenerator.{join_addresses, generate_id}

Lacks-ne : (c : ℕ) (p r : Bytes) → Lacks c (p ++ (c ∷ r)) → ⊥
Lacks-ne c [] r h = h.0 refl
Lacks-ne c (x ∷ p) r h = Lacks-ne c p r h.1

-- What stands before the first `c`, and what behind it.
pub split-at :
    (c : ℕ) (p q r s : Bytes)
    → Lacks c p
    → Lacks c q
    → p ++ (c ∷ r) ≡ q ++ (c ∷ s)
    → (p ≡ q) × (r ≡ s)
split-at c [] [] r s h k e = (refl, ap (drop 1) e)
split-at c [] (y ∷ q) r s h k e = ground (arith, e, k)
split-at c (x ∷ p) [] r s h k e = ground (arith, e, h)
split-at c (x ∷ p) (y ∷ q) r s h k e = ground (arith, e, split-at c p q r s h.1 k.1)

-- An address holds something, and no comma or closing bracket.
pub record IsAddress (a : Bytes) : Type 0 where
  pub some_byte : 1 ≤ length a
  pub no_comma : Lacks b',' a
  pub no_bracket : Lacks b']' a

-- An address and those behind it.
first_inj :
    (a b : Bytes) (xs ys : List Bytes)
    → Lacks b',' a
    → Lacks b',' b
    → a ++ join_addresses false xs ≡ b ++ join_addresses false ys
    → (a ≡ b) × (join_addresses false xs ≡ join_addresses false ys)
unfolding join_addresses
first_inj a b [] [] h k e = (sym (append-nil a) ∙ e ∙ append-nil b, refl)
first_inj a b [] (y ∷ ys) h k e =
    absurd (Lacks-ne b',' b _ (subst (Lacks b',') (sym (append-nil a) ∙ e) h))
first_inj a b (x ∷ xs) [] h k e =
    absurd (Lacks-ne b',' a _ (subst (Lacks b',') (sym (append-nil b) ∙ sym e) k))
first_inj a b (x ∷ xs) (y ∷ ys) h k e =
    let (same, rest) = split-at b',' a b _ _ h k e in (same, ap (◌∷◌ b',') rest)

join_false_inj :
    (xs ys : List Bytes)
    → All IsAddress xs
    → All IsAddress ys
    → join_addresses false xs ≡ join_addresses false ys
    → xs ≡ ys
unfolding join_addresses
join_false_inj [] [] h k e = refl
join_false_inj [] (y ∷ ys) h k e = ground (arith, e)
join_false_inj (x ∷ xs) [] h k e = ground (arith, e)
join_false_inj (x ∷ xs) (y ∷ ys) h k e =
    let (same, rest) = first_inj x y xs ys h.0.no_comma k.0.no_comma (ap (drop 1) e) in
    cc (same, join_false_inj xs ys h.1 k.1 rest)

join_addresses_inj :
    (xs ys : List Bytes)
    → All IsAddress xs
    → All IsAddress ys
    → join_addresses true xs ≡ join_addresses true ys
    → xs ≡ ys
unfolding join_addresses
join_addresses_inj [] [] h k e = refl
join_addresses_inj [] ((c ∷ y) ∷ ys) h k e = ground (arith, e)
join_addresses_inj [] ([] ∷ ys) h k e = absurd (omega (arith, k.0.some_byte))
join_addresses_inj ((c ∷ x) ∷ xs) [] h k e = ground (arith, e)
join_addresses_inj ([] ∷ xs) [] h k e = absurd (omega (arith, h.0.some_byte))
join_addresses_inj (x ∷ xs) (y ∷ ys) h k e =
    let (same, rest) = first_inj x y xs ys h.0.no_comma k.0.no_comma e in
    cc (same, join_false_inj xs ys h.1 k.1 rest)

join_addresses-Lacks :
    (b : Bool) (xs : List Bytes) → All IsAddress xs → Lacks b']' (join_addresses b xs)
unfolding join_addresses
join_addresses-Lacks b [] h = tt
join_addresses-Lacks true (x ∷ xs) h =
    Lacks-append b']' x _ h.0.no_bracket (join_addresses-Lacks false xs h.1)
join_addresses-Lacks false (x ∷ xs) h =
    (ground arith, Lacks-append b']' x _ h.0.no_bracket (join_addresses-Lacks false xs h.1))

-- Two hosts, lists of addresses and directories have the same identifier only if they are the same,
-- where no host name holds a comma, and each address holds something, but no comma and no bracket.
pub generate_id_inj :
    (h h' : Bytes) (xs ys : List Bytes) (d d' : Bytes)
    → Lacks b',' h
    → Lacks b',' h'
    → All IsAddress xs
    → All IsAddress ys
    → generate_id h xs d ≡ generate_id h' ys d'
    → (h ≡ h') × (xs ≡ ys) × (d ≡ d')
unfolding generate_id
generate_id_inj h h' xs ys d d' lack lack' all all' e =
    let (host, rest) = split-at b',' h h' _ _ lack lack' (ap (drop 9) e) in
    let (joined, rest') =
      split-at b']' (join_addresses true xs) (join_addresses true ys) _ _
        (join_addresses-Lacks true xs all) (join_addresses-Lacks true ys all')
        (ap (drop 13) rest) in
    (host, join_addresses_inj xs ys all all' joined, ap (drop 18) rest')
