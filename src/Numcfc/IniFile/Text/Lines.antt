-- ===== src/Numcfc/IniFile/Text/Lines.antt =====
-- Reading line by line.
use numcore_messaging_librar.Common.{
  ℕ, ◌≡◌, refl, ◌∙◌, true, [], ◌∷◌, ◌++◌, append_assoc, append-nil, Bytes, Lacks, arith,
}
use numcore_messaging_librar.Numcfc.IniFile.Text.{
  lines_of, Reading, is_comment_line, read_trimmed, read_lines, trim,
}
use numcore_messaging_librar.Numcfc.IniFile.Text.Trims.{IsTrimmed, trim_clean}

lines_of-append :
    (line s : Bytes) → Lacks b'\n' line → lines_of (line ++ (b'\n' ∷ s)) ≡ line ∷ lines_of s
unfolding lines_of
lines_of-append [] s h = refl
lines_of-append (c ∷ line) s h = ground (arith, h.0, lines_of-append line s h.1)

-- What is read from the text on.
abbrev pub read_on : Reading → Bytes → Reading
unfolding read_lines lines_of
read_on st s = read_lines st (lines_of s)

pub read_on-line :
    (st : Reading) (line s : Bytes)
    → Lacks b'\n' line
    → read_on st (line ++ (b'\n' ∷ s)) ≡ read_on (read_trimmed st (trim line)) s
unfolding read_on read_lines
read_on-line st line s h = rw (lines_of-append line s h)

-- Comment lines, each trimmed and ended.
pub data IsComment : Bytes → Type 0 where
  none : IsComment []
  more :
      {c : ℕ} {line more_lines : Bytes}
      → is_comment_line c ≡ true
      → Lacks b'\n' (c ∷ line)
      → IsTrimmed (c ∷ line)
      → IsComment more_lines
      → IsComment ((c ∷ line) ++ (b'\n' ∷ more_lines))

abbrev pub with_comments : Reading → Bytes → Reading
with_comments st comments = record st { comments = st.comments ++ comments }

read_trimmed-comment :
    (st : Reading) (c : ℕ) (line : Bytes)
    → is_comment_line c ≡ true
    → read_trimmed st (c ∷ line) ≡ with_comments st ((c ∷ line) ++ (b'\n' ∷ []))
unfolding read_trimmed
read_trimmed-comment st c line marked = rw marked

pub read_on-comment :
    {comment : Bytes} (st : Reading) (s : Bytes)
    → IsComment comment
    → read_on st (comment ++ s) ≡ read_on (with_comments st comment) s
read_on-comment st s none = rw append-nil
read_on-comment st s (more {c} {line} {more_lines} marked lacks trimmed h) =
    let whole = c ∷ line in
    rw (append_assoc whole (b'\n' ∷ more_lines) s, read_on-line st whole (more_lines ++ s) lacks)
      (rw (trim_clean whole trimmed, read_trimmed-comment st c line marked)
        (read_on-comment (with_comments st (whole ++ (b'\n' ∷ []))) s h
          ∙ rw (
            append_assoc st.comments (whole ++ (b'\n' ∷ [])) more_lines,
            append_assoc whole (b'\n' ∷ []) more_lines,
          )))
