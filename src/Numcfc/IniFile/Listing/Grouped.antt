-- ===== src/Numcfc/IniFile/Listing/Grouped.antt =====
-- Files whose sections each stand in one piece: their sections can be listed and deleted.
use numcore_messaging_librar.Common.{
  ◌≡◌, ◌≢◌, inl, inr, refl, sym, ap, ◌∙◌, Bool, true, false, not, ◌&&◌, ◌||◌, List, [], ◌∷◌, none,
  arith, Bytes, bytes_eq_iff, bytes_eq_of_ne, Bool-cases,
}
use numcore_messaging_librar.Numcfc.IniFile.{
  Record, IniFile, in_section, find_record, value_of, get_value,
}
use numcore_messaging_librar.Numcfc.IniFile.Deletion.{drop_run, erase_section, delete_section}
use numcore_messaging_librar.Numcfc.IniFile.Deletion.Laws.{
  has_section, remaining, remaining_behind, contents-deleted,
}
use numcore_messaging_librar.Numcfc.IniFile.Access.{find_other_section, find_behind}

abbrev pub starts_in : Bytes → List Record → Bool
starts_in s [] = false
starts_in s (r ∷ rs) = in_section s r

-- Behind each record stands another one of its section, or none at all.
unfoldable pub is_grouped : List Record → Bool
unfolding has_section
is_grouped [] = true
is_grouped (r ∷ rs) =
    (starts_in r.section_name rs || not (has_section r.section_name rs)) && is_grouped rs

module _ (s k : Bytes) where
  find_absent : (rs : List Record) → has_section s rs ≡ false → find_record s k rs ≡ none
  unfolding has_section find_record
  find_absent [] h = refl
  find_absent (r ∷ rs) h = ground (arith, find_absent rs)

module _ (s : Bytes) where
  grouped_parts :
      (r : Record) (rs : List Record)
      → is_grouped (r ∷ rs) ≡ true
      → (starts_in r.section_name rs || not (has_section r.section_name rs) ≡ true)
        × (is_grouped rs ≡ true)
  unfolding is_grouped
  grouped_parts r rs g = ground (arith, g)

  -- The part behind a record of the section.
  grouped_behind :
      (r : Record) (rs : List Record)
      → in_section s r ≡ true
      → is_grouped (r ∷ rs) ≡ true
      → (starts_in s rs || not (has_section s rs) ≡ true) × (is_grouped rs ≡ true)
  grouped_behind r rs same g =
      rw (sym ((bytes_eq_iff r.section_name s).0 same)) (grouped_parts r rs g)

  -- What is left of a run in one piece has no record of the section.
  has_section-drop_run :
      (rs : List Record)
      → starts_in s rs || not (has_section s rs) ≡ true
      → is_grouped rs ≡ true
      → has_section s (drop_run s rs) ≡ false
  unfolding has_section drop_run
  has_section-drop_run [] h g = refl
  has_section-drop_run (r ∷ rs) h g = elim (Bool-cases (in_section s r)) [
    | inr differs ↦ ground (arith, h, differs)
    | inl same ↦
        let (h', g') = grouped_behind r rs same g in rw same (has_section-drop_run rs h' g')
  ]

  has_section-erase_section :
      (rs : List Record)
      → is_grouped rs ≡ true
      → has_section s (remaining rs (erase_section s rs)) ≡ false
  unfolding has_section erase_section
  has_section-erase_section [] g = refl
  has_section-erase_section (r ∷ rs) g = elim (Bool-cases (in_section s r)) [
    | inl same ↦
        let (h', g') = grouped_behind r rs same g in rw same (has_section-drop_run rs h' g')
    | inr differs ↦
        let rest = has_section-erase_section rs (grouped_parts r rs g).1 in
        rw (differs, remaining_behind r rs (erase_section s rs), differs) rest
  ]

-- Of another section nothing goes.
module _ (s s' k' : Bytes) (other : s' ≢ s) where
  find_past :
      (r : Record) (rs : List Record)
      → in_section s r ≡ true
      → find_record s' k' (r ∷ rs) ≡ find_record s' k' rs
  find_past r rs same = find_other_section s' k' r rs (
      bytes_eq_of_ne r.section_name s'
        (λ p. other (sym p ∙ (bytes_eq_iff r.section_name s).0 same)))

  find-drop_run : (rs : List Record) → find_record s' k' (drop_run s rs) ≡ find_record s' k' rs
  unfolding drop_run
  find-drop_run [] = refl
  find-drop_run (r ∷ rs) = elim (Bool-cases (in_section s r)) [
    | inr differs ↦ rw differs
    | inl same ↦ rw same (find-drop_run rs ∙ sym (find_past r rs same))
  ]

  find-erase_section :
      (rs : List Record)
      → find_record s' k' (remaining rs (erase_section s rs)) ≡ find_record s' k' rs
  unfolding erase_section
  find-erase_section [] = refl
  find-erase_section (r ∷ rs) = elim (Bool-cases (in_section s r)) [
    | inl same ↦ rw same (find-drop_run rs ∙ sym (find_past r rs same))
    | inr differs ↦
        rw (differs, remaining_behind r rs (erase_section s rs))
          (find_behind s k' s' k' (inl other) r _ rs (find-erase_section rs))
  ]

-- Of a file whose sections are each in one piece, deleting a section removes all its records.
pub has_section-delete_section :
    (f : IniFile) (s : Bytes)
    → is_grouped f.contents ≡ true
    → has_section s (delete_section f s).1.contents ≡ false
unfolding delete_section
has_section-delete_section f s g =
    rw (contents-deleted f (erase_section s f.contents)) (has_section-erase_section s f.contents g)

-- Deleting a section leaves what is read in any other section as it was.
pub get_value-delete_section_other :
    (f : IniFile) (s s' k' : Bytes)
    → s' ≢ s
    → get_value (delete_section f s).1 s' k' ≡ get_value f s' k'
unfolding get_value delete_section
get_value-delete_section_other f s s' k' other =
    rw (contents-deleted f (erase_section s f.contents))
      (ap value_of (find-erase_section s s' k' other f.contents))
