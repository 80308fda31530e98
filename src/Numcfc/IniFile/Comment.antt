-- ===== src/Numcfc/IniFile/Comment.antt =====
-- Comments of numcfc/IniFile.cpp: `PrepareComment`, `SetComment`, and `GetSetValue`, which comments
-- the value that it adds.
pub mod Lines
pub mod Values
use numcore_messaging_librar.Common.{
  Bool, true, false, not, ◌&&◌, ◌||◌, List, [], ◌∷◌, ◌++◌, Option, none, some, Bytes, codes,
  bytes_eq, ◌==◌, if◌then◌else◌,
}
use numcore_messaging_librar.Numcfc.IniFile.{
  Record, IniFile, in_section, has_key, find_record, Edited, edit_record, edited_record,
}

-- Whether a line needs no mark in front.
abbrev pub is_marked : Bytes → Bool
is_marked [] = false
is_marked (c ∷ s) = c == b'#' || c == b';'

-- The string with `# ` in front, if its line is not marked.
unfoldable pub mark : Bytes → Bytes → Bytes
mark line s = if is_marked line then s else b'#' ∷ b' ' ∷ s

-- A line up to its end, and the lines behind it with their marks. A line ends before its `\n`, and
-- behind the last one stands an empty line.
unfoldable pub mark_behind : Bytes → Bytes
unfolding mark
mark_behind [] = []
mark_behind (c ∷ s) = let rest = mark_behind s in if c == b'\n' then c ∷ mark s rest else c ∷ rest

unfoldable pub ends_line : Bytes → Bool
ends_line [] = false
ends_line (c ∷ []) = c == b'\n'
ends_line (c ∷ d ∷ s) = ends_line (d ∷ s)

unfoldable pub end_line : Bytes → Bytes
unfolding ends_line
end_line s = if ends_line s then s else s ++ (b'\n' ∷ [])

unfoldable pub prepare_comment : Bytes → Bytes
unfolding mark mark_behind end_line
prepare_comment [] = []
prepare_comment (c ∷ s) = end_line (mark (c ∷ s) (mark_behind (c ∷ s)))

-- The records, if the section's first run has the key, and whether the comment differs.
abbrev pub behind_commented : Record → Option (List Record × Bool) → Option (List Record × Bool)
behind_commented r none = none
behind_commented r (some (rs, changes)) = some (r ∷ rs, changes)

module _ (section_name key_name prepared : Bytes) where
  unfoldable pub comment_run : List Record → Option (List Record × Bool)
  comment_run [] = none
  comment_run (r ∷ rs) =
      if in_section section_name r
      then (if has_key key_name r
          then some (record r { comment = prepared } ∷ rs, not (bytes_eq r.comment prepared))
          else behind_commented r (comment_run rs))
      else none

  unfoldable pub comment_record : List Record → Option (List Record × Bool)
  unfolding comment_run
  comment_record [] = none
  comment_record (r ∷ rs) =
      if in_section section_name r
      then comment_run (r ∷ rs)
      else behind_commented r (comment_record rs)

abbrev pub commented : IniFile → Option (List Record × Bool) → Bool × IniFile
commented f none = (false, f)
commented f (some (rs, changes)) = (true, record f { contents = rs; dirty = f.dirty || changes })

unfoldable pub set_comment : IniFile → Bytes → Bytes → Bytes → Bool × IniFile
unfolding comment_record prepare_comment
set_comment f section_name key_name comment =
    commented f (comment_record section_name key_name (prepare_comment comment) f.contents)

-- `GetSetValue` where `GetValue`'s search has failed: the record that `EditRecord` gives is written.
unfoldable pub add_default : IniFile → Bytes → Bytes → Bytes → Bytes → IniFile
unfolding edit_record edited_record
add_default f section_name key_name value comment =
    let e =
      edit_record section_name key_name (λ r. record r { value = value; comment = comment })
        f.contents in
    let old = edited_record section_name key_name f.contents in
    let changes = not (bytes_eq old.value value) || not (bytes_eq old.comment comment) in
    record f { contents = e.records; dirty = f.dirty || (e.added || changes) }

abbrev pub get_or_add : IniFile → Bytes → Bytes → Bytes → Bytes → Option Record → Bytes × IniFile
unfolding add_default
get_or_add f section_name key_name value comment none =
    (value, add_default f section_name key_name value comment)
get_or_add f section_name key_name value comment (some r) = (r.value, f)

unfoldable pub get_set_value : IniFile → Bytes → Bytes → Bytes → Bytes → Bytes × IniFile
unfolding prepare_comment find_record get_or_add
get_set_value f section_name key_name default_value default_comment =
    get_or_add f section_name key_name default_value (prepare_comment default_comment)
      (find_record section_name key_name f.contents)
