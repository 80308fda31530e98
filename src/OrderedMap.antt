-- ===== src/OrderedMap.antt =====
-- `std::map<std::string, V>`: the pairs in the order of their keys, which are compared byte by byte.
pub mod Laws
use numcore_messaging_librar.Common.{
  ℕ, List, [], ◌∷◌, Option, none, some, Bytes, compare, Ordering, All,
}

pub data Order : Type 0 where
  less same greater : Order

unfoldable pub compare_keys : Bytes → Bytes → Order
compare_keys [] [] = same
compare_keys [] (y ∷ ys) = less
compare_keys (x ∷ xs) [] = greater
compare_keys (x ∷ xs) (y ∷ ys) = elim (compare x y) [
  | Ordering.lt ↦ less
  | Ordering.eq ↦ compare_keys xs ys
  | Ordering.gt ↦ greater
]

abbrev pub OrderedMap {ℓ} : Type ℓ → Type ℓ
OrderedMap V = List (Bytes × V)

module _ {ℓ} {V : Type ℓ} where
  -- `m[key] = value`
  unfoldable pub assign : Bytes → V → OrderedMap V → OrderedMap V
  assign key v [] = (key, v) ∷ []
  assign key v ((k, w) ∷ m) = elim (compare_keys key k) [
    | less ↦ (key, v) ∷ (k, w) ∷ m
    | same ↦ (key, v) ∷ m
    | greater ↦ (k, w) ∷ assign key v m
  ]

  -- `m.find(key)`
  unfoldable pub find : Bytes → OrderedMap V → Option V
  find key [] = none
  find key ((k, w) ∷ m) = elim (compare_keys key k) [ same ↦ some w | _ ↦ find key m ]

  -- `m.erase(key)`
  unfoldable pub erase : Bytes → OrderedMap V → OrderedMap V
  erase key [] = []
  erase key ((k, w) ∷ m) = elim (compare_keys key k) [ same ↦ m | _ ↦ (k, w) ∷ erase key m ]
