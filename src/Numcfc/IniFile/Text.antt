-- ===== src/Numcfc/IniFile/Text.antt =====
-- The text of an ini file, `operator >>`, `operator <<`, `FromString` and `ToString` of
-- numcfc/IniFile.cpp.
pub mod Trims
pub mod Lines
pub mod Records
pub mod RoundTrip
use numcore_messaging_librar.Common.{
  ℕ, ◌+◌, Bool, true, false, not, ◌&&◌, ◌||◌, List, [], ◌∷◌, ◌++◌, Option, none, some, Bytes, codes,
  ltb, ◌==◌, if◌then◌else◌, memchr, take, drop,
}
use numcore_messaging_librar.Numcfc.IniFile.{Record, IniFile, is_empty, is_section}

unfoldable pub one_of : Bytes → ℕ → Bool
one_of [] c = false
one_of (d ∷ chars) c = if c == d then true else one_of chars c

-- space, \f, \n, \r, \t, \v
abbrev pub white_spaces : Bytes
white_spaces = 32 ∷ 12 ∷ 10 ∷ 13 ∷ 9 ∷ 11 ∷ []

unfoldable pub trim_left : Bytes → Bytes → Bytes
trim_left chars [] = []
trim_left chars (c ∷ s) = if one_of chars c then trim_left chars s else c ∷ s

unfoldable pub trim_right : Bytes → Bytes → Bytes
trim_right chars [] = []
trim_right chars (c ∷ s) =
    let rest = trim_right chars s in if is_empty rest && one_of chars c then [] else c ∷ rest

unfoldable pub trim : Bytes → Bytes
unfolding trim_left trim_right
trim s = trim_left white_spaces (trim_right white_spaces s)

-- The lines that `std::getline` gives: what stands behind the last `\n` is one only if it is not
-- empty.
abbrev pub begin_line : ℕ → List Bytes → List Bytes
begin_line c [] = (c ∷ []) ∷ []
begin_line c (line ∷ lines) = (c ∷ line) ∷ lines

unfoldable pub lines_of : Bytes → List Bytes
lines_of [] = []
lines_of (c ∷ s) = let rest = lines_of s in if c == b'\n' then [] ∷ rest else begin_line c rest

pub record Reading : Type 0 where
  pub current_section : Bytes
  pub comments : Bytes
  pub contents : List Record

abbrev pub is_comment_line : ℕ → Bool
is_comment_line c = c == b'#' || c == b';'

-- `find('[')` and `find('=')`
abbrev pub opens_section : Option ℕ → Option ℕ → Bool
opens_section none eq = false
opens_section (some i) none = true
opens_section (some i) (some eq) = ltb i eq

unfoldable pub section_of : Bytes → Bytes
unfolding trim_left trim_right
section_of s = trim_right (b']' ∷ white_spaces) (trim_left (b'[' ∷ white_spaces) s)

abbrev pub add_record : Reading → Record → Reading
add_record st r = record {
  current_section = r.section_name;
  comments = [];
  contents = st.contents ++ (r ∷ []);
}

-- A line with an equals sign at `eq`; another one is skipped.
unfoldable pub read_entry : Reading → Bytes → Option ℕ → Reading
unfolding trim
read_entry st s none = st
read_entry st s (some eq) = add_record st (record {
  section_name = st.current_section;
  key_name = trim (take eq s);
  value = trim (drop (eq + 1) s);
  comment = st.comments;
})

-- A trimmed line.
unfoldable pub read_trimmed : Reading → Bytes → Reading
unfolding read_entry section_of
read_trimmed st [] = st
read_trimmed st (c ∷ s) =
    let line = c ∷ s in
    if is_comment_line c
    then record st { comments = st.comments ++ (line ++ (b'\n' ∷ [])) }
    else if opens_section (memchr line b'[') (memchr line b'=')
    then add_record st (record {
      section_name = section_of line;
      key_name = [];
      value = [];
      comment = st.comments;
    })
    else read_entry st line (memchr line b'=')

unfoldable pub read_lines : Reading → List Bytes → Reading
unfolding read_trimmed trim
read_lines st [] = st
read_lines st (line ∷ lines) = read_lines (read_trimmed st (trim line)) lines

-- `iss >> iniFile` on a good stream that holds the text.
unfoldable pub read_text : IniFile → Bytes → IniFile
unfolding read_lines lines_of
read_text f text =
    let st =
      read_lines (record { current_section = []; comments = []; contents = [] }) (lines_of text) in
    record f { contents = st.contents }

-- `!!iss`: the loop ends when `std::getline` fails, and the stream stays failed.
unfoldable pub from_string : IniFile → Bytes → Bool × IniFile
unfolding read_text
from_string f str = (false, read_text f str)

unfoldable pub print_line : Record → Bytes
unfolding is_section
print_line r =
    if is_section r
    then b'[' ∷ (r.section_name ++ (b']' ∷ []))
    else r.key_name ++ (codes " = " ++ r.value)

-- A section, and a record with a comment, stand behind an empty line, but for the first one.
unfoldable pub blank_line : Bool → Record → Bytes
unfolding is_section
blank_line is_first r =
    if (is_section r || not (is_empty r.comment)) && not is_first then b'\n' ∷ [] else []

unfoldable pub print_records : Bool → List Record → Bytes
unfolding print_line blank_line
print_records is_first [] = []
print_records is_first (r ∷ rs) =
    blank_line is_first r ++ (r.comment ++ (print_line r ++ (b'\n' ∷ print_records false rs)))

unfoldable pub to_string : IniFile → Bytes
unfolding print_records
to_string f = print_records true f.contents
