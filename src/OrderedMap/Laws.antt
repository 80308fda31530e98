-- ===== src/OrderedMap/Laws.antt =====
-- The order of the keys, and what an assignment does to a map.
use numcore_messaging_librar.Common.{
  [], ◌∷◌, ◌++◌, ◌≡◌, ◌≢◌, ◌↔◌, refl, ap, some, none, arith, Bytes, All,
}
use numcore_messaging_librar.OrderedMap.{
  less, same, greater, compare_keys, OrderedMap, assign, find, erase,
}

pub compare_keys-same_iff : (a b : Bytes) → (compare_keys a b ≡ same) ↔ (a ≡ b)
unfolding compare_keys
compare_keys-same_iff [] [] = ground arith
compare_keys-same_iff [] (y ∷ b) = ground arith
compare_keys-same_iff (x ∷ a) [] = ground arith
compare_keys-same_iff (x ∷ a) (y ∷ b) = ground (arith, compare_keys-same_iff a b)

pub compare_keys_refl : (a : Bytes) → compare_keys a a ≡ same
compare_keys_refl a = (compare_keys-same_iff a a).1 refl

pub compare_keys-swap : (a b : Bytes) → compare_keys a b ≡ less → compare_keys b a ≡ greater
unfolding compare_keys
compare_keys-swap [] [] = ground arith
compare_keys-swap [] (y ∷ b) = ground arith
compare_keys-swap (x ∷ a) [] = ground arith
compare_keys-swap (x ∷ a) (y ∷ b) = ground (arith, compare_keys-swap a b)

pub compare_keys_trans :
    (a b c : Bytes)
    → compare_keys a b ≡ greater
    → compare_keys b c ≡ greater
    → compare_keys a c ≡ greater
unfolding compare_keys
compare_keys_trans [] b c h k =
    elim b as (λ b. compare_keys [] b ≡ greater → compare_keys [] c ≡ greater) [
      | [] ↦ λ e. cc
      | y ∷ ys ↦ λ e. cc
    ]
      h
compare_keys_trans (x ∷ a) [] [] h k = refl
compare_keys_trans (x ∷ a) [] (z ∷ c) h k = cc
compare_keys_trans (x ∷ a) (y ∷ b) [] h k = refl
compare_keys_trans (x ∷ a) (y ∷ b) (z ∷ c) h k = ground (arith, compare_keys_trans a b c)

module _ {ℓ} {V : Type ℓ} where
  -- Every key of the map is below `key`.
  abbrev pub Below : Bytes → OrderedMap V → Type 0
  Below key = All (λ e. compare_keys key e.0 ≡ greater)

  -- Each key is below all that follow it.
  abbrev pub IsSorted : OrderedMap V → Type 0
  IsSorted [] = Unit {0}
  IsSorted ((k, w) ∷ m) = All (λ (e : Bytes × V). compare_keys e.0 k ≡ greater) m × IsSorted m

  -- A key above all others is put at the end.
  pub assign-Below :
      (key : Bytes) (v : V) (m : OrderedMap V) → Below key m → assign key v m ≡ m ++ ((key, v) ∷ [])
  unfolding assign
  assign-Below key v [] h = refl
  assign-Below key v ((k, w) ∷ m) h = rw (h.0, assign) (ap (◌∷◌ (k, w)) (assign-Below key v m h.1))

  -- What a lookup sees of an assignment.
  pub find-assign :
      (key key' : Bytes) (v : V) (m : OrderedMap V)
      → ((key' ≡ key) → find key' (assign key v m) ≡ some v)
        × ((key' ≢ key) → find key' (assign key v m) ≡ find key' m)
  unfolding find assign
  find-assign key key' v [] = ground (arith, compare_keys-same_iff key' key)
  find-assign key key' v ((k, w) ∷ m) = ground (
    arith,
    compare_keys-same_iff key' key,
    compare_keys-same_iff key' k,
    compare_keys-same_iff key k,
    find-assign key key' v m,
  )

  All-greater-assign :
      (low key : Bytes) (v : V) (m : OrderedMap V)
      → compare_keys key low ≡ greater
      → All (λ (e : Bytes × V). compare_keys e.0 low ≡ greater) m
      → All (λ (e : Bytes × V). compare_keys e.0 low ≡ greater) (assign key v m)
  unfolding assign
  All-greater-assign low key v [] h a = (h, tt)
  All-greater-assign low key v ((k, w) ∷ m) h a =
      ground (arith, All-greater-assign low key v m h a.1)

  All-greater_trans :
      (low mid : Bytes) (m : OrderedMap V)
      → compare_keys mid low ≡ greater
      → All (λ (e : Bytes × V). compare_keys e.0 mid ≡ greater) m
      → All (λ (e : Bytes × V). compare_keys e.0 low ≡ greater) m
  All-greater_trans low mid [] h a = tt
  All-greater_trans low mid ((k, w) ∷ m) h a =
      (compare_keys_trans k mid low a.0 h, All-greater_trans low mid m h a.1)

  -- Assignments keep the keys in order.
  pub assign-IsSorted :
      (key : Bytes) (v : V) (m : OrderedMap V) → IsSorted m → IsSorted (assign key v m)
  unfolding assign
  assign-IsSorted key v [] s = (tt, tt)
  assign-IsSorted key v ((k, w) ∷ m) s = ground (
    arith,
    assign-IsSorted key v m s.1,
    compare_keys-swap key k,
    All-greater_trans key k m,
    All-greater-assign k key v m,
    compare_keys-same_iff key k,
  )

  find-greater :
      (key : Bytes) (m : OrderedMap V)
      → All (λ (e : Bytes × V). compare_keys e.0 key ≡ greater) m
      → find key m ≡ none
  unfolding find
  find-greater key [] a = refl
  find-greater key ((k, w) ∷ m) a =
      ground (arith, a.0, compare_keys-same_iff key k, compare_keys_refl k, find-greater key m a.1)

  -- What a lookup sees of an erasure.
  pub find-erase :
      (key key' : Bytes) (m : OrderedMap V)
      → IsSorted m
      → ((key' ≡ key) → find key' (erase key m) ≡ none)
        × ((key' ≢ key) → find key' (erase key m) ≡ find key' m)
  unfolding find erase
  find-erase key key' [] s = ground arith
  find-erase key key' ((k, w) ∷ m) s = ground (
    arith,
    compare_keys-same_iff key' key,
    compare_keys-same_iff key' k,
    compare_keys-same_iff key k,
    find-greater k m s.0,
    find-erase key key' m s.1,
  )

  All-erase :
      (low key : Bytes) (m : OrderedMap V)
      → All (λ (e : Bytes × V). compare_keys e.0 low ≡ greater) m
      → All (λ (e : Bytes × V). compare_keys e.0 low ≡ greater) (erase key m)
  unfolding erase
  All-erase low key [] a = tt
  All-erase low key ((k, w) ∷ m) a = ground (arith, All-erase low key m a.1)

  pub erase-IsSorted : (key : Bytes) (m : OrderedMap V) → IsSorted m → IsSorted (erase key m)
  unfolding erase
  erase-IsSorted key [] s = tt
  erase-IsSorted key ((k, w) ∷ m) s =
      ground (arith, All-erase k key m s.0, erase-IsSorted key m s.1)
