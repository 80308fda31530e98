-- ===== src/Numcfc/IniFile/Deletion/Laws.antt =====
-- What a deletion leaves, and that it undoes an addition.
use mathlib.Core.Option
use numcore_messaging_librar.Common.{
  ◌≡◌, ◌≢◌, ◌⊎◌, inl, inr, refl, sym, ap, ◌∙◌, Bool, true, false, List, [], ◌∷◌, Option, none, some,
  arith, Bytes, bytes_eq_iff, bytes_eq_refl, if◌then◌else◌, Bool-cases,
}
use numcore_messaging_librar.Numcfc.IniFile.{
  Record, IniFile, new_record, in_section, has_key, find_record, value_of, get_value, behind,
  edit_run, edit_record, set_value,
}
use numcore_messaging_librar.Numcfc.IniFile.Deletion.{
  erase_run, erase_record, deleted, delete_record,
}
use numcore_messaging_librar.Numcfc.IniFile.Access.{find_passes, find_behind}

-- The records that a deletion leaves.
abbrev pub remaining : List Record → Option (List Record) → List Record
remaining rs none = rs
remaining rs (some rs') = rs'

pub remaining_behind :
    (r : Record) (rs : List Record) (o : Option (List Record))
    → remaining (r ∷ rs) (Option.map (◌∷◌ r) o) ≡ r ∷ remaining rs o
remaining_behind r rs none = refl
remaining_behind r rs (some rs') = refl

pub contents-deleted :
    (f : IniFile) (o : Option (List Record)) → (deleted f o).1.contents ≡ remaining f.contents o
contents-deleted f none = refl
contents-deleted f (some rs) = refl

module _ (s k : Bytes) (r : Record) (rs : List Record) where
  erase_record_here : in_section s r ≡ true → erase_record s k (r ∷ rs) ≡ erase_run s k (r ∷ rs)
  unfolding erase_record
  erase_record_here same = rw same

  erase_record_later :
      in_section s r ≡ false → erase_record s k (r ∷ rs) ≡ Option.map (◌∷◌ r) (erase_record s k rs)
  unfolding erase_record
  erase_record_later differs = rw differs

  erase_run_hit : in_section s r ≡ true → has_key k r ≡ true → erase_run s k (r ∷ rs) ≡ some rs
  unfolding erase_run
  erase_run_hit same hit = rw (same, hit)

  erase_run_miss :
      in_section s r ≡ true
      → has_key k r ≡ false
      → erase_run s k (r ∷ rs) ≡ Option.map (◌∷◌ r) (erase_run s k rs)
  unfolding erase_run
  erase_run_miss same miss = rw (same, miss)

  module _ (write : Record → Record) where
    edit_record_here :
        in_section s r ≡ true → edit_record s k write (r ∷ rs) ≡ edit_run s k write (r ∷ rs)
    unfolding edit_record
    edit_record_here same = rw same

    edit_record_later :
        in_section s r ≡ false
        → edit_record s k write (r ∷ rs) ≡ behind r (edit_record s k write rs)
    unfolding edit_record
    edit_record_later differs = rw differs

    edit_run_miss :
        in_section s r ≡ true
        → has_key k r ≡ false
        → edit_run s k write (r ∷ rs) ≡ behind r (edit_run s k write rs)
    unfolding edit_run
    edit_run_miss same miss = rw (same, miss)

module _ (s k s' k' : Bytes) where
  module _ (other : (s' ≢ s) ⊎ (k' ≢ k)) where
    find-erase_run :
        (rs : List Record)
        → find_record s' k' (remaining rs (erase_run s k rs)) ≡ find_record s' k' rs
    unfolding erase_run
    find-erase_run [] = refl
    find-erase_run (r ∷ rs) = elim (Bool-cases (in_section s r)) [
      | inr differs ↦ rw differs
      | inl same ↦ rw same (elim (Bool-cases (has_key k r)) [
        | inl hit ↦ rw hit (
            sym (
              find_passes s k s' k' other r rs ((bytes_eq_iff r.section_name s).0 same)
                ((bytes_eq_iff r.key_name k).0 hit)))
        | inr miss ↦
            rw (miss, remaining_behind r rs (erase_run s k rs))
              (find_behind s k s' k' other r _ rs (find-erase_run rs))
      ])
    ]

    find-erase_record :
        (rs : List Record)
        → find_record s' k' (remaining rs (erase_record s k rs)) ≡ find_record s' k' rs
    find-erase_record [] = unfold erase_record in refl
    find-erase_record (r ∷ rs) = elim (Bool-cases (in_section s r)) [
      | inl same ↦ rw (erase_record_here s k r rs same) (find-erase_run (r ∷ rs))
      | inr differs ↦
          rw (erase_record_later s k r rs differs, remaining_behind r rs (erase_record s k rs))
            (find_behind s k s' k' other r _ rs (find-erase_record rs))
    ]

-- Deleting a record leaves what is read under any other section or key as it was.
pub get_value-delete_record_other :
    (f : IniFile) (s k s' k' : Bytes)
    → (s' ≢ s) ⊎ (k' ≢ k)
    → get_value (delete_record f s k).1 s' k' ≡ get_value f s' k'
unfolding get_value delete_record
get_value-delete_record_other f s k s' k' other =
    rw (contents-deleted f (erase_record s k f.contents))
      (ap value_of (find-erase_record s k s' k' other f.contents))

-- Whether some record stands in the section.
unfoldable pub has_section : Bytes → List Record → Bool
has_section s [] = false
has_section s (r ∷ rs) = if in_section s r then true else has_section s rs

module _ (s k v : Bytes) where
  abbrev write : Record → Record
  write r = record r { value = v }

  erase_written : (rs : List Record) → erase_run s k (write (new_record s k) ∷ rs) ≡ some rs
  unfolding erase_run
  erase_written rs = rw (bytes_eq_refl s, bytes_eq_refl k)

  map_none : (r : Record) (o : Option (List Record)) → Option.map (◌∷◌ r) o ≡ none → o ≡ none
  map_none r none e = refl
  map_none r (some rs) e = ground (arith, e)

  misses :
      (r : Record) (rs : List Record)
      → in_section s r ≡ true
      → erase_run s k (r ∷ rs) ≡ none
      → (has_key k r ≡ false) × (erase_run s k rs ≡ none)
  misses r rs same e = elim (Bool-cases (has_key k r)) [
    | inl hit ↦ let absurd = sym (erase_run_hit s k r rs same hit) ∙ e in ground (arith, absurd)
    | inr miss ↦ (miss, map_none r _ (sym (erase_run_miss s k r rs same miss) ∙ e))
  ]

  erase-edit_run :
      (rs : List Record)
      → erase_run s k rs ≡ none
      → erase_run s k (edit_run s k write rs).records ≡ some rs
  unfolding edit_run
  erase-edit_run [] e = erase_written []
  erase-edit_run (r ∷ rs) e = elim (Bool-cases (in_section s r)) [
    | inr differs ↦ rw differs (erase_written (r ∷ rs))
    | inl same ↦
        let (miss, e') = misses r rs same e in
        rw (edit_run_miss s k r rs write same miss, erase_run_miss s k r _ same miss)
          (ap (Option.map (◌∷◌ r)) (erase-edit_run rs e'))
  ]

  erase-edit_record :
      (rs : List Record)
      → has_section s rs ≡ true
      → erase_record s k rs ≡ none
      → erase_record s k (edit_record s k write rs).records ≡ some rs
  unfolding has_section
  erase-edit_record [] p e = ground (arith, p)
  erase-edit_record (r ∷ rs) p e = elim (Bool-cases (in_section s r)) [
    | inl same ↦
        let (miss, e') = misses r rs same (sym (erase_record_here s k r rs same) ∙ e) in
        rw (edit_record_here s k r rs write same, edit_run_miss s k r rs write same miss)
          (erase_record_here s k r _ same
            ∙ erase_run_miss s k r _ same miss
            ∙ ap (Option.map (◌∷◌ r)) (erase-edit_run rs e'))
    | inr differs ↦
        let e' = map_none r _ (sym (erase_record_later s k r rs differs) ∙ e) in
        rw (edit_record_later s k r rs write differs) (
          erase_record_later s k r _ differs
          ∙ ap (Option.map (◌∷◌ r)) (erase-edit_record rs (rw differs at p) e'))
  ]

  not_deleted : (f : IniFile) (o : Option (List Record)) → deleted f o ≡ (false, f) → o ≡ none
  not_deleted f none e = refl
  not_deleted f (some rs) e = ground (arith, e)

-- If a section exists and has no record of a key, deleting the record that setting the key's value
-- added succeeds, and restores the records; the file is dirty.
pub delete_record-set_value :
    (f : IniFile) (s k v : Bytes)
    → has_section s f.contents ≡ true
    → delete_record f s k ≡ (false, f)
    → delete_record (set_value f s k v) s k ≡ (true, record f { dirty = true })
unfolding delete_record set_value
delete_record-set_value f s k v p e =
    rw (erase-edit_record s k v f.contents p (not_deleted s k v f _ e))
