-- ===== src/Numcfc/IniFile.antt =====
-- numcfc/IniFile.h and numcfc/IniFile.cpp: the records of an ini file, and the operations on them.
-- Reading and writing the text is in IniFile/Text.
pub mod Access
pub mod Comment
pub mod Numbers
pub mod Text
pub mod Deletion
pub mod Listing
pub mod Disk
use numcore_messaging_librar.Common.{
  ℕ, zero, suc, ◌+◌, Bool, true, false, not, ◌&&◌, ◌||◌, List, [], ◌∷◌, ◌++◌, Option, none, some,
  Bytes, bytes_eq, codes, ◌==◌, if◌then◌else◌,
}

pub record Record : Type 0 where
  pub section_name : Bytes
  pub key_name : Bytes
  pub value : Bytes
  pub comment : Bytes

pub record IniFile : Type 0 where
  pub default_filename : Bytes
  pub contents : List Record
  pub dirty : Bool

abbrev pub is_empty : Bytes → Bool
is_empty [] = true
is_empty (c ∷ s) = false

unfoldable pub is_section : Record → Bool
is_section r = is_empty r.key_name

unfoldable pub new_ini_file : IniFile
new_ini_file = record { default_filename = []; contents = []; dirty = false }

unfoldable pub get_filename : IniFile → Bytes
get_filename f = f.default_filename

unfoldable pub is_dirty : IniFile → Bool
is_dirty f = f.dirty

abbrev pub new_record : Bytes → Bytes → Record
new_record section_name key_name = record {
  section_name = section_name;
  key_name = key_name;
  value = [];
  comment = [];
}

abbrev pub in_section : Bytes → Record → Bool
in_section section_name r = bytes_eq r.section_name section_name

abbrev pub has_key : Bytes → Record → Bool
has_key key_name r = bytes_eq r.key_name key_name

-- The first record of the section and the key.
unfoldable pub find_record : Bytes → Bytes → List Record → Option Record
find_record section_name key_name [] = none
find_record section_name key_name (r ∷ rs) =
    if has_key key_name r && in_section section_name r
    then some r
    else find_record section_name key_name rs

abbrev pub value_of : Option Record → Bytes
value_of none = []
value_of (some r) = r.value

unfoldable pub get_value : IniFile → Bytes → Bytes → Bytes
unfolding find_record
get_value f section_name key_name = value_of (find_record section_name key_name f.contents)

-- `EditRecord` returns a reference into the records, which its caller writes through: here it takes
-- what the caller does to the record, and says whether a record was added.
pub record Edited : Type 0 where
  pub records : List Record
  pub added : Bool

abbrev pub behind : Record → Edited → Edited
behind r e = record e { records = r ∷ e.records }

module _ (section_name key_name : Bytes) (write : Record → Record) where
  -- Within the section's first run of records; a missing key goes to the end of the run.
  unfoldable pub edit_run : List Record → Edited
  edit_run [] = record { records = write (new_record section_name key_name) ∷ []; added = true }
  edit_run (r ∷ rs) =
      if in_section section_name r
      then (if has_key key_name r
          then record { records = write r ∷ rs; added = false }
          else behind r (edit_run rs))
      else record { records = write (new_record section_name key_name) ∷ r ∷ rs; added = true }

  -- A missing section is added at the end, with its header.
  unfoldable pub edit_record : List Record → Edited
  edit_record [] = record {
    records = new_record section_name [] ∷ write (new_record section_name key_name) ∷ [];
    added = true;
  }
  edit_record (r ∷ rs) =
      if in_section section_name r then edit_run (r ∷ rs) else behind r (edit_record rs)

-- The record that `EditRecord` finds or makes, before it is written.
module _ (section_name key_name : Bytes) where
  unfoldable pub run_record : List Record → Record
  run_record [] = new_record section_name key_name
  run_record (r ∷ rs) =
      if in_section section_name r
      then (if has_key key_name r then r else run_record rs)
      else new_record section_name key_name

  unfoldable pub edited_record : List Record → Record
  edited_record [] = new_record section_name key_name
  edited_record (r ∷ rs) =
      if in_section section_name r then run_record (r ∷ rs) else edited_record rs

unfoldable pub set_value : IniFile → Bytes → Bytes → Bytes → IniFile
unfolding edit_record edit_run edited_record run_record
set_value f section_name key_name value =
    let e = edit_record section_name key_name (λ r. record r { value = value }) f.contents in
    let old = edited_record section_name key_name f.contents in
    record f {
      contents = e.records;
      dirty = f.dirty || (e.added || not (bytes_eq old.value value));
    }
