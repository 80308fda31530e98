-- ===== src/Numrabw/LimitedSizeBuffer/Invariant.antt =====
-- The byte count and the limits of the buffer.
use numcore_messaging_librar.Common.{
  ℕ, ◌+◌, ◌^◌, ◌≤◌, ◌<◌, ◌≡◌, ◌⊎◌, inl, inr, refl, ap, true, false, List, [], ◌∷◌, ◌++◌, some,
  arith, All, length, length-append, ltb, leb, Bool-cases,
}
use numcore_messaging_librar.Outcome.{done, aborts}
use numcore_messaging_librar.Numrabw.LimitedSizeBuffer.{
  LimitedSizeBuffer, push_back, bytes_without, asserts_hold, take_front, try_pop_front,
}

module _ {ℓ} {A : Type ℓ} (size : A → ℕ) where
  abbrev pub total : List A → ℕ
  total [] = 0
  total (x ∷ xs) = size x + total xs

  pub total-append : (xs ys : List A) → total (xs ++ ys) ≡ total xs + total ys
  total-append [] ys = omega arith
  total-append (x ∷ xs) ys = omega (arith, total-append xs ys)

  -- The byte count is that of the items, and no `size_t` is exceeded.
  pub record IsCounted (b : LimitedSizeBuffer A) : Type 0 where
    pub exact : b.current_byte_count ≡ total b.items
    pub small : total b.items < 2 ^ 64

  -- Within the limits; one item alone may exceed the byte limit.
  pub record IsWithin (b : LimitedSizeBuffer A) : Type 0 where
    pub item_limit : length b.items ≤ b.max_item_count
    pub byte_limit : (total b.items < b.max_byte_count) ⊎ (length b.items ≤ 1)

  -- What `push_back` is meant to accept.
  abbrev pub HasRoom : LimitedSizeBuffer A → A → Type 0
  HasRoom b item =
      (length b.items < b.max_item_count)
      × ((total b.items + size item < b.max_byte_count) ⊎ (length b.items ≡ 0))

  abbrev pub pushed : LimitedSizeBuffer A → A → LimitedSizeBuffer A
  pushed b item = record b {
    items = b.items ++ (item ∷ []);
    current_byte_count = total b.items + size item;
    notified = true;
  }

  -- On a buffer that counts its bytes, with a total that stays below 2^64, `push_back` accepts
  -- exactly the items for which there is room, and then appends the item, counts its bytes and
  -- leaves a notice; otherwise it changes nothing.
  pub push_back_lem :
      (b : LimitedSizeBuffer A) (item : A)
      → IsCounted b
      → total b.items + size item < 2 ^ 64
      → (HasRoom b item × (push_back size b item ≡ (true, pushed b item)))
        ⊎ ((¬ HasRoom b item) × (push_back size b item ≡ (false, b)))
  unfolding push_back
  push_back_lem b item v h = elim (Bool-cases (leb b.max_item_count (length b.items))) [
    | inl full ↦ inr (ground arith, ground arith)
    | inr free ↦ elim (Bool-cases (leb b.max_byte_count (total b.items + size item))) [
      | inr fits ↦ inl (ground arith, ground arith)
      | inl over ↦ elim (Bool-cases (ltb 0 (length b.items))) [
        | inl some_item ↦ inr (ground arith, ground arith)
        | inr no_item ↦ inl (ground arith, ground arith)
      ]
    ]
  ]

  -- `push_back` keeps the count exact and the limits kept, accepted or not.
  pub push_back-IsCounted :
      (b : LimitedSizeBuffer A) (item : A)
      → IsCounted b
      → total b.items + size item < 2 ^ 64
      → IsCounted (push_back size b item).1
  push_back-IsCounted b item v h =
      ground (arith, push_back_lem b item v h, total-append b.items (item ∷ []))

  pub push_back-IsWithin :
      (b : LimitedSizeBuffer A) (item : A)
      → IsCounted b
      → IsWithin b
      → total b.items + size item < 2 ^ 64
      → IsWithin (push_back size b item).1
  push_back-IsWithin b item v w h = ground (
    arith,
    push_back_lem b item v h,
    total-append b.items (item ∷ []),
    length-append b.items (item ∷ []),
  )

  abbrev pub front_removed : LimitedSizeBuffer A → List A → LimitedSizeBuffer A
  front_removed b rest = record b { items = rest; current_byte_count = total rest }

  bytes_without-total :
      (b : LimitedSizeBuffer A) (item : A) (rest : List A)
      → IsCounted b
      → b.items ≡ item ∷ rest
      → bytes_without size b item ≡ total rest
  unfolding bytes_without
  bytes_without-total b item rest v e = omega (arith, ap total e)

  -- Every item adds to the byte count.
  abbrev pub ArePositive : List A → Type 0
  ArePositive = All (λ x. 0 < size x)

  asserts_hold-ArePositive :
      (old : ℕ) (rest : List A)
      → total rest ≤ old
      → ArePositive rest
      → asserts_hold size (total rest) old rest ≡ true
  unfolding asserts_hold
  asserts_hold-ArePositive old [] h p = ground arith
  asserts_hold-ArePositive old (x ∷ rest) h p = ground arith

  -- On a buffer that counts its bytes, and whose items behind the oldest all have some, `pop_front`
  -- without waiting returns the oldest item and subtracts its bytes.
  pub try_pop_front_lem :
      (b : LimitedSizeBuffer A) (item : A) (rest : List A)
      → IsCounted b
      → b.items ≡ item ∷ rest
      → ArePositive rest
      → try_pop_front size b ≡ done (some item, front_removed b rest)
  unfolding try_pop_front
  try_pop_front_lem b item rest v e p = rw (
    e,
    take_front,
    bytes_without-total b item rest v e,
    asserts_hold-ArePositive b.current_byte_count rest (omega (arith, v.exact, ap total e)) p,
  )

  -- On a buffer that counts its bytes, an assert fails when there are items behind the oldest and
  -- they have no byte between them.
  pub try_pop_front-aborts :
      (b : LimitedSizeBuffer A) (item next : A) (rest : List A)
      → IsCounted b
      → b.items ≡ item ∷ next ∷ rest
      → total (next ∷ rest) ≡ 0
      → try_pop_front size b ≡ aborts
  unfolding try_pop_front asserts_hold
  try_pop_front-aborts b item next rest v e z =
      rw (e, take_front, bytes_without-total b item (next ∷ rest) v e, z) (ground arith)

  pub front_removed-IsCounted :
      (b : LimitedSizeBuffer A) (item : A) (rest : List A)
      → IsCounted b
      → b.items ≡ item ∷ rest
      → IsCounted (front_removed b rest)
  front_removed-IsCounted b item rest v e = record {
    exact = refl;
    small = omega (arith, v.small, ap total e);
  }

  pub front_removed-IsWithin :
      (b : LimitedSizeBuffer A) (item : A) (rest : List A)
      → IsWithin b
      → b.items ≡ item ∷ rest
      → IsWithin (front_removed b rest)
  front_removed-IsWithin b item rest w e = ground (arith, ap total e, ap length e)
