-- ===== src/Numcfc/IniFile/Access.antt =====
-- Reading a value back, and what else a write changes.
use numcore_messaging_librar.Common.{
  ◌≡◌, ◌≢◌, ◌⊎◌, inl, inr, refl, sym, ap, ◌∙◌, false, ◌&&◌, List, [], ◌∷◌, none, some, arith, Bytes,
  bytes_eq_iff, bytes_eq_of_ne, if◌then◌else◌, Bool-cases,
}
use numcore_messaging_librar.Numcfc.IniFile.{
  Record, IniFile, new_record, in_section, has_key, find_record, value_of, get_value, edit_run,
  edit_record, run_record, edited_record, set_value,
}

-- A write that leaves the names alone.
pub record KeepsNames (write : Record → Record) : Type 0 where
  pub section_kept : (r : Record) → (write r).section_name ≡ r.section_name
  pub key_kept : (r : Record) → (write r).key_name ≡ r.key_name

module _ (s k : Bytes) where
  pub find_hit :
      (r : Record) (rs : List Record)
      → r.section_name ≡ s
      → r.key_name ≡ k
      → find_record s k (r ∷ rs) ≡ some r
  unfolding find_record
  find_hit r rs e e' = ground (arith, bytes_eq_iff r.key_name k, bytes_eq_iff r.section_name s)

  pub find_other_key :
      (r : Record) (rs : List Record)
      → has_key k r ≡ false
      → find_record s k (r ∷ rs) ≡ find_record s k rs
  unfolding find_record
  find_other_key r rs e = rw e

  pub find_other_section :
      (r : Record) (rs : List Record)
      → in_section s r ≡ false
      → find_record s k (r ∷ rs) ≡ find_record s k rs
  unfolding find_record
  find_other_section r rs e = ground arith

module _ (s k : Bytes) (write : Record → Record) (keeps : KeepsNames write) where
  find_written :
      (r : Record) (rs : List Record)
      → r.section_name ≡ s
      → r.key_name ≡ k
      → find_record s k (write r ∷ rs) ≡ some (write r)
  find_written r rs e e' =
      find_hit s k (write r) rs (keeps.section_kept r ∙ e) (keeps.key_kept r ∙ e')

  -- The written record is the first of its section and key.
  find-edit_run :
      (rs : List Record)
      → find_record s k (edit_run s k write rs).records ≡ some (write (run_record s k rs))
  unfolding edit_run run_record
  find-edit_run [] = find_written (new_record s k) [] refl refl
  find-edit_run (r ∷ rs) = elim (Bool-cases (in_section s r)) [
    | inr other ↦ rw other (find_written (new_record s k) (r ∷ rs) refl refl)
    | inl same ↦ rw same (elim (Bool-cases (has_key k r)) [
      | inl hit ↦ rw hit (
          find_written r rs ((bytes_eq_iff r.section_name s).0 same)
            ((bytes_eq_iff r.key_name k).0 hit))
      | inr miss ↦ rw miss (find_other_key s k r _ miss ∙ find-edit_run rs)
    ])
  ]

  pub find-edit_record :
      (rs : List Record)
      → k ≢ []
      → find_record s k (edit_record s k write rs).records ≡ some (write (edited_record s k rs))
  unfolding edit_record edited_record
  find-edit_record [] ne =
      find_other_key s k (new_record s []) _ (bytes_eq_of_ne [] k (λ e. ne (sym e)))
      ∙ find_written (new_record s k) [] refl refl
  find-edit_record (r ∷ rs) ne = elim (Bool-cases (in_section s r)) [
    | inl same ↦ rw same (find-edit_run (r ∷ rs))
    | inr other ↦ rw other (find_other_section s k r _ other ∙ find-edit_record rs ne)
  ]

-- Another section or key.
module _ (s k s' k' : Bytes) (other : (s' ≢ s) ⊎ (k' ≢ k)) where
  pub find_passes :
      (r : Record) (rs : List Record)
      → r.section_name ≡ s
      → r.key_name ≡ k
      → find_record s' k' (r ∷ rs) ≡ find_record s' k' rs
  find_passes r rs e e' = elim other [
    | inl ne ↦
        find_other_section s' k' r rs (bytes_eq_of_ne r.section_name s' (λ p. ne (sym p ∙ e)))
    | inr ne ↦ find_other_key s' k' r rs (bytes_eq_of_ne r.key_name k' (λ p. ne (sym p ∙ e')))
  ]

  pub find_behind :
      (r : Record) (rs rs' : List Record)
      → find_record s' k' rs ≡ find_record s' k' rs'
      → find_record s' k' (r ∷ rs) ≡ find_record s' k' (r ∷ rs')
  unfolding find_record
  find_behind r rs rs' e = ap (λ o. if has_key k' r && in_section s' r then some r else o) e

  module _ (write : Record → Record) (keeps : KeepsNames write) where
    find_passes_written :
        (r : Record) (rs : List Record)
        → r.section_name ≡ s
        → r.key_name ≡ k
        → find_record s' k' (write r ∷ rs) ≡ find_record s' k' rs
    find_passes_written r rs e e' =
        find_passes (write r) rs (keeps.section_kept r ∙ e) (keeps.key_kept r ∙ e')

    find-edit_run_other :
        (rs : List Record)
        → find_record s' k' (edit_run s k write rs).records ≡ find_record s' k' rs
    unfolding edit_run
    find-edit_run_other [] = find_passes_written (new_record s k) [] refl refl
    find-edit_run_other (r ∷ rs) = elim (Bool-cases (in_section s r)) [
      | inr differs ↦ rw differs (find_passes_written (new_record s k) (r ∷ rs) refl refl)
      | inl same ↦ rw same (elim (Bool-cases (has_key k r)) [
        | inr miss ↦ rw miss (find_behind r _ rs (find-edit_run_other rs))
        | inl hit ↦
            let e = (bytes_eq_iff r.section_name s).0 same in
            let e' = (bytes_eq_iff r.key_name k).0 hit in
            rw hit (find_passes_written r rs e e' ∙ sym (find_passes r rs e e'))
      ])
    ]

    pub value_behind :
        (r : Record) (rs rs' : List Record)
        → value_of (find_record s' k' rs) ≡ value_of (find_record s' k' rs')
        → value_of (find_record s' k' (r ∷ rs)) ≡ value_of (find_record s' k' (r ∷ rs'))
    unfolding find_record
    value_behind r rs rs' e = ground arith

    new_header :
        (rs : List Record)
        → find_record s' k' rs ≡ none
        → value_of (find_record s' k' (new_record s [] ∷ rs)) ≡ []
    unfolding find_record
    new_header rs e = ground arith

    pub value-edit_record_other :
        (rs : List Record)
        → value_of (find_record s' k' (edit_record s k write rs).records)
          ≡ value_of (find_record s' k' rs)
    unfolding edit_record
    value-edit_record_other [] =
        new_header _
          (find_passes_written (new_record s k) [] refl refl ∙ (unfold find_record in refl))
        ∙ (unfold find_record in refl)
    value-edit_record_other (r ∷ rs) = elim (Bool-cases (in_section s r)) [
      | inl same ↦ rw same (ap value_of (find-edit_run_other (r ∷ rs)))
      | inr differs ↦ rw differs (value_behind r _ rs (value-edit_record_other rs))
    ]

pub set_value-KeepsNames : (v : Bytes) → KeepsNames (λ r. record r { value = v })
set_value-KeepsNames v = record { section_kept = λ r. refl; key_kept = λ r. refl }

-- Whatever the file holds, a value that was set under a key that is not empty is the one that is
-- then read under its section and key.
pub get_value-set_value :
    (f : IniFile) (s k v : Bytes) → k ≢ [] → get_value (set_value f s k v) s k ≡ v
unfolding get_value set_value
get_value-set_value f s k v ne =
    ap value_of (find-edit_record s k _ (set_value-KeepsNames v) f.contents ne)

-- Setting a value leaves what is read under any other section or key as it was.
pub get_value-set_value_other :
    (f : IniFile) (s k s' k' v : Bytes)
    → (s' ≢ s) ⊎ (k' ≢ k)
    → get_value (set_value f s k v) s' k' ≡ get_value f s' k'
unfolding get_value set_value
get_value-set_value_other f s k s' k' v other =
    value-edit_record_other s k s' k' other _ (set_value-KeepsNames v) f.contents
