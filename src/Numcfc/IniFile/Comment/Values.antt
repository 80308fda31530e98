-- ===== src/Numcfc/IniFile/Comment/Values.antt =====
-- Reading a value with a default, and what a comment leaves of the values.
use numcore_messaging_librar.Common.{
  ◌⊎◌, ◌≡◌, ◌≢◌, inl, inr, refl, ap, [], ◌∷◌, ◌⊎◌, List, Bytes, Option, none, some, Bool,
  Bool-cases, true, arith, ◌&&◌,
}
use numcore_messaging_librar.Numcfc.IniFile.{
  Record, IniFile, find_record, value_of, get_value, in_section, has_key,
}
use numcore_messaging_librar.Numcfc.IniFile.Comment.{
  prepare_comment, add_default, get_or_add, get_set_value, behind_commented, comment_run,
  comment_record, commented, set_comment,
}
use numcore_messaging_librar.Numcfc.IniFile.Access.{
  KeepsNames, find-edit_record, value-edit_record_other,
}

KeepsNames-write : (v c : Bytes) → KeepsNames (λ r. record r { value = v; comment = c })
KeepsNames-write v c = record { section_kept = λ r. refl; key_kept = λ r. refl }

module _ (f : IniFile) (s k v c : Bytes) (ne : k ≢ []) where
  get_value-get_or_add :
      (o : Option Record)
      → find_record s k f.contents ≡ o
      → get_value (get_or_add f s k v c o).1 s k ≡ (get_or_add f s k v c o).0
  unfolding get_value add_default
  get_value-get_or_add none e =
      ap value_of (find-edit_record s k _ (KeepsNames-write v c) f.contents ne)
  get_value-get_or_add (some r) e = ap value_of e

-- What `GetSetValue` returns under a key that is not empty is what is read there from then on,
-- whether it was there before or is the default.
pub get_value-get_set_value :
    (f : IniFile) (s k v c : Bytes)
    → k ≢ []
    → get_value (get_set_value f s k v c).1 s k ≡ (get_set_value f s k v c).0
unfolding get_set_value
get_value-get_set_value f s k v c ne = get_value-get_or_add f s k v (prepare_comment c) ne _ refl

abbrev recommented : List Record → Option (List Record × Bool) → List Record
recommented rs none = rs
recommented rs (some (rs', changes)) = rs'

recommented_behind :
    (r : Record) (rs : List Record) (o : Option (List Record × Bool))
    → recommented (r ∷ rs) (behind_commented r o) ≡ r ∷ recommented rs o
recommented_behind r rs none = refl
recommented_behind r rs (some p) = refl

contents-commented :
    (f : IniFile) (o : Option (List Record × Bool))
    → (commented f o).1.contents ≡ recommented f.contents o
contents-commented f none = refl
contents-commented f (some p) = refl

module _ (s k p s' k' : Bytes) where
  value_recommented :
      (r : Record) (rs : List Record)
      → value_of (find_record s' k' (record r { comment = p } ∷ rs))
        ≡ value_of (find_record s' k' (r ∷ rs))
  unfolding find_record
  value_recommented r rs = elim (Bool-cases (has_key k' r && in_section s' r)) [
    | inl hit ↦ rw hit
    | inr miss ↦ rw miss
  ]

  value_later :
      (r : Record) (rs rs' : List Record)
      → value_of (find_record s' k' rs) ≡ value_of (find_record s' k' rs')
      → value_of (find_record s' k' (r ∷ rs)) ≡ value_of (find_record s' k' (r ∷ rs'))
  unfolding find_record
  value_later r rs rs' e = ground arith

  value-comment_run :
      (rs : List Record)
      → value_of (find_record s' k' (recommented rs (comment_run s k p rs)))
        ≡ value_of (find_record s' k' rs)
  unfolding comment_run
  value-comment_run [] = refl
  value-comment_run (r ∷ rs) = elim (Bool-cases (in_section s r)) [
    | inr differs ↦ rw differs
    | inl same ↦ rw same (elim (Bool-cases (has_key k r)) [
      | inl hit ↦ rw hit (value_recommented r rs)
      | inr miss ↦
          rw (miss, recommented_behind r rs (comment_run s k p rs))
            (value_later r _ rs (value-comment_run rs))
    ])
  ]

  comment_record_here :
      (r : Record) (rs : List Record)
      → in_section s r ≡ true
      → comment_record s k p (r ∷ rs) ≡ comment_run s k p (r ∷ rs)
  unfolding comment_record
  comment_record_here r rs same = rw same

  value-comment_record :
      (rs : List Record)
      → value_of (find_record s' k' (recommented rs (comment_record s k p rs)))
        ≡ value_of (find_record s' k' rs)
  unfolding comment_record
  value-comment_record [] = refl
  value-comment_record (r ∷ rs) = elim (Bool-cases (in_section s r)) [
    | inl same ↦ rw (comment_record_here r rs same) (value-comment_run (r ∷ rs))
    | inr differs ↦
        rw (differs, recommented_behind r rs (comment_record s k p rs))
          (value_later r _ rs (value-comment_record rs))
  ]

-- Whether the record is found or not, setting a comment changes no value.
pub get_value-set_comment :
    (f : IniFile) (s k c s' k' : Bytes)
    → get_value (set_comment f s k c).1 s' k' ≡ get_value f s' k'
unfolding get_value set_comment
get_value-set_comment f s k c s' k' =
    rw (contents-commented f (comment_record s k (prepare_comment c) f.contents))
      (value-comment_record s k (prepare_comment c) s' k' f.contents)

module _ (s k s' k' : Bytes) (other : (s' ≢ s) ⊎ (k' ≢ k)) where
  get_value-get_or_add_other :
      (f : IniFile) (v c : Bytes) (o : Option Record)
      → get_value (get_or_add f s k v c o).1 s' k' ≡ get_value f s' k'
  unfolding get_value add_default
  get_value-get_or_add_other f v c none =
      value-edit_record_other s k s' k' other _ (KeepsNames-write v c) f.contents
  get_value-get_or_add_other f v c (some r) = refl

-- `GetSetValue` leaves what is read under any other section or key as it was.
pub get_value-get_set_value_other :
    (f : IniFile) (s k s' k' v c : Bytes)
    → (s' ≢ s) ⊎ (k' ≢ k)
    → get_value (get_set_value f s k v c).1 s' k' ≡ get_value f s' k'
unfolding get_set_value
get_value-get_set_value_other f s k s' k' v c other =
    get_value-get_or_add_other s k s' k' other f v (prepare_comment c) _
