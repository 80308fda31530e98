-- ===== src/Numcfc/Tests.antt =====
-- Runs of the numcfc models, and their theorems at concrete inputs.
use numcore_messaging_librar.Common.{
  bytes_eq, refl, inl, true, ◌≡◌, inr, false, [], ◌∷◌, none, Bytes, codes, arith,
}
use numcore_messaging_librar.Numcfc.IniFile.{Record, IniFile, new_ini_file, get_value}
use numcore_messaging_librar.Numcfc.IniFile.Comment.{prepare_comment, get_set_value}
use numcore_messaging_librar.Numcfc.IniFile.Comment.Values.{get_value-get_set_value}
use numcore_messaging_librar.Numcfc.IniFile.Listing.{get_sections, get_keys}
use numcore_messaging_librar.Numcfc.IniFile.Listing.Grouped.{is_grouped}
use numcore_messaging_librar.Numcfc.IniFile.Text.{one_of, read_text, to_string}
use numcore_messaging_librar.Numcfc.IniFile.Text.Trims.{ends_clean}
use numcore_messaging_librar.Numcfc.IniFile.Text.Lines.{IsComment}
use numcore_messaging_librar.Numcfc.IniFile.Text.RoundTrip.{IsPrintable, read_text-to_string}
use numcore_messaging_librar.Numcfc.IniFile.Disk.{DiskIniFile, FileSystem, refresh, save}
use numcore_messaging_librar.Numcfc.IniFile.Disk.Shared.{refresh-save}
use numcore_messaging_librar.Outcome.{done}

abbrev ini_record : Bytes → Bytes → Bytes → Record
ini_record s k v = record { section_name = s; key_name = k; value = v; comment = [] }

-- Two sections, "a" with the keys "k" and "l" and "b" with the key "k".
abbrev two_sections : IniFile
two_sections = record {
  default_filename = codes "x.ini";
  contents =
      ini_record (codes "a") [] []
      ∷ ini_record (codes "a") (codes "k") (codes "1")
      ∷ ini_record (codes "a") (codes "l") (codes "2")
      ∷ ini_record (codes "b") [] []
      ∷ ini_record (codes "b") (codes "k") (codes "3")
      ∷ [];
  dirty = false;
}

two_sections-is_grouped : is_grouped two_sections.contents ≡ true
unfolding is_grouped bytes_eq
two_sections-is_grouped = refl

listed :
    (get_sections two_sections ≡ done (codes "a" ∷ codes "b" ∷ []))
    × (get_keys two_sections (codes "a") ≡ codes "k" ∷ codes "l" ∷ [])
unfolding get_sections get_keys bytes_eq
listed = (refl, refl)

-- A comment that ends with its line gets one more line.
prepared : prepare_comment (codes "x\n#y\n") ≡ codes "# x\n#y\n# \n"
unfolding prepare_comment
prepared = refl

get_value-get_set_value_example :
    get_value
      (get_set_value two_sections (codes "c") (codes "p") (codes "8") (codes "why")).1
      (codes "c")
      (codes "p")
    ≡ (get_set_value two_sections (codes "c") (codes "p") (codes "8") (codes "why")).0
get_value-get_set_value_example =
    get_value-get_set_value two_sections (codes "c") (codes "p") (codes "8") (codes "why")
      (ground arith)

-- A commented section with one key.
abbrev commented_section : IniFile
commented_section = record new_ini_file {
  contents =
      record (ini_record (codes "a") [] []) { comment = codes "# why\n" }
      ∷ ini_record (codes "a") (codes "k") (codes "1 2")
      ∷ [];
}

commented_section-text : to_string commented_section ≡ codes "# why\n[a]\nk = 1 2\n"
unfolding to_string
commented_section-text = refl

why-IsComment : IsComment (codes "# why\n")
unfolding one_of ends_clean
why-IsComment =
    IsComment.more {c = b'#'} {line = codes " why"} {more_lines = []} refl (ground arith)
      (record { start = refl; end = refl }) IsComment.none

commented_section-IsPrintable : IsPrintable [] commented_section.contents
unfolding one_of ends_clean
commented_section-IsPrintable = (
  inl (record {
    no_key = refl;
    no_value = refl;
    name = record { start = refl; end = refl };
    one_line = ground arith;
    comment = why-IsComment;
  }),
  (
    inr (record {
      section = refl;
      key_start = refl;
      key = record { start = refl; end = refl };
      one_line = ground arith;
      no_bracket = ground arith;
      no_equals = ground arith;
      value = record { start = refl; end = refl };
      value_one_line = ground arith;
      comment = IsComment.none;
    }),
    tt,
  ),
)

read_text-to_string_example :
    (read_text two_sections (to_string commented_section)).contents ≡ commented_section.contents
read_text-to_string_example =
    read_text-to_string commented_section two_sections commented_section-IsPrintable

-- Nothing is wrong with the disk.
abbrev disk : FileSystem
disk = record { opens = λ filename. true; takes = λ text. true; cut = λ text. text }

abbrev writer : DiskIniFile
writer = record { ini = commented_section; file_modified = 0 }

abbrev reader : DiskIniFile
reader = record {
  ini = record two_sections { default_filename = commented_section.default_filename };
  file_modified = 3;
}

refresh-save_example :
    let result = save disk 8 9 none [] writer in
    (result.0 ≡ true)
    × ((g' : DiskIniFile) × (refresh result.1.0 reader ≡ (true, g'))
        × (g'.ini.contents ≡ commented_section.contents)
        × (refresh result.1.0 g' ≡ (false, g')))
refresh-save_example =
    refresh-save disk 8 9 [] writer reader refl refl commented_section-IsPrintable refl
      (ground arith)
