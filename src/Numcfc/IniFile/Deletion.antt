-- ===== src/Numcfc/IniFile/Deletion.antt =====
-- `DeleteRecord` and `DeleteSection` of numcfc/IniFile.cpp.
pub mod Laws
use mathlib.Core.Option
use numcore_messaging_librar.Common.{
  Bool, true, false, List, [], ◌∷◌, Option, none, some, Bytes, if◌then◌else◌,
}
use numcore_messaging_librar.Numcfc.IniFile.{Record, IniFile, in_section, has_key}

-- The records without the first one that has the key, within the section's first run of records.
module _ (section_name key_name : Bytes) where
  unfoldable pub erase_run : List Record → Option (List Record)
  erase_run [] = none
  erase_run (r ∷ rs) =
      if in_section section_name r
      then (if has_key key_name r then some rs else Option.map (◌∷◌ r) (erase_run rs))
      else none

  unfoldable pub erase_record : List Record → Option (List Record)
  unfolding erase_run
  erase_record [] = none
  erase_record (r ∷ rs) =
      if in_section section_name r then erase_run (r ∷ rs) else Option.map (◌∷◌ r) (erase_record rs)

module _ (section_name : Bytes) where
  unfoldable pub drop_run : List Record → List Record
  drop_run [] = []
  drop_run (r ∷ rs) = if in_section section_name r then drop_run rs else r ∷ rs

  -- The run is never empty, as the source asserts.
  unfoldable pub erase_section : List Record → Option (List Record)
  unfolding drop_run
  erase_section [] = none
  erase_section (r ∷ rs) =
      if in_section section_name r
      then some (drop_run rs)
      else Option.map (◌∷◌ r) (erase_section rs)

abbrev pub deleted : IniFile → Option (List Record) → Bool × IniFile
deleted f none = (false, f)
deleted f (some rs) = (true, record f { contents = rs; dirty = true })

unfoldable pub delete_record : IniFile → Bytes → Bytes → Bool × IniFile
unfolding erase_record
delete_record f section_name key_name = deleted f (erase_record section_name key_name f.contents)

unfoldable pub delete_section : IniFile → Bytes → Bool × IniFile
unfolding erase_section
delete_section f section_name = deleted f (erase_section section_name f.contents)
