-- ===== src/Numcfc/IniFile/Text/RoundTrip.antt =====
-- Reading back the records that were printed.
use numcore_messaging_librar.Common.{
  ◌≡◌, ◌⊎◌, inl, inr, refl, sym, ap, ◌∙◌, Bool, true, false, not, ◌&&◌, ◌||◌, List, [], ◌∷◌, ◌++◌,
  append_assoc, append-nil, Bytes, codes, Lacks, Lacks-append, arith, Bool-cases,
}
use numcore_messaging_librar.Numcfc.IniFile.{Record, IniFile, is_empty, is_section}
use numcore_messaging_librar.Numcfc.IniFile.Text.{
  trim, trim_left, trim_right, Reading, add_record, read_trimmed, read_text, read_lines, lines_of,
  print_line, blank_line, print_records, to_string,
}
use numcore_messaging_librar.Numcfc.IniFile.Text.Trims.{trim_clean}
use numcore_messaging_librar.Numcfc.IniFile.Text.Lines.{
  read_on, read_on-line, IsComment, with_comments, read_on-comment,
}
use numcore_messaging_librar.Numcfc.IniFile.Text.Records.{
  IsHeader, is_key_start, IsEntry, header-IsTrimmed, read_header, trim-entry_line, read_key,
  not_section, read_entry_line,
}

-- A record's line, once its comment is read.
read_header_record :
    (st : Reading) (r : Record)
    → IsHeader r
    → st.comments ≡ r.comment
    → read_trimmed st (trim (print_line r)) ≡ add_record st r
unfolding print_line is_section
read_header_record st r h e =
    rw (h.no_key, h.no_value, sym e, trim_clean _ (header-IsTrimmed r.section_name))
      (read_header st r.section_name h.name)

not_empty : (key : Bytes) → is_key_start key ≡ true → is_empty key ≡ false
not_empty [] h = ground (arith, h)
not_empty (c ∷ k) h = refl

read_entry_record :
    (st : Reading) (r : Record)
    → IsEntry st.current_section r
    → st.comments ≡ r.comment
    → read_trimmed st (trim (print_line r)) ≡ add_record st r
unfolding print_line is_section
read_entry_record st r h e =
    let key : Bytes = r.key_name in
    let v : Bytes = r.value in
    rw
      (h.section, sym e, not_empty key h.key_start, trim-entry_line key v h.key_start h.key h.value)
      (read_entry_line st key v h.key_start (not_section key v h.no_equals h.no_bracket)
        ∙ read_key st key v h.no_equals h.key h.value)

print_line-one_line :
    (r : Record) (current : Bytes) → IsHeader r ⊎ IsEntry current r → Lacks b'\n' (print_line r)
unfolding print_line is_section
print_line-one_line r current (inl h) =
    rw h.no_key
      (ground arith, Lacks-append b'\n' r.section_name (b']' ∷ []) h.one_line (ground arith, tt))
print_line-one_line r current (inr h) = rw (not_empty r.key_name h.key_start) (
    Lacks-append b'\n' r.key_name (codes " = " ++ r.value) h.one_line
      (ground arith, (ground arith, (ground arith, h.value_one_line))))

read_record :
    (st : Reading) (r : Record)
    → IsHeader r ⊎ IsEntry st.current_section r
    → st.comments ≡ r.comment
    → read_trimmed st (trim (print_line r)) ≡ add_record st r
read_record st r (inl h) e = read_header_record st r h e
read_record st r (inr h) e = read_entry_record st r h e

comment_of : (r : Record) (current : Bytes) → IsHeader r ⊎ IsEntry current r → IsComment r.comment
comment_of r current (inl h) = h.comment
comment_of r current (inr h) = h.comment

-- The records of a file that its text can carry: each a section's, or a key's of the section above.
abbrev pub IsPrintable : Bytes → List Record → Type 0
IsPrintable current [] = Unit {0}
IsPrintable current (r ∷ rs) = (IsHeader r ⊎ IsEntry current r) × IsPrintable r.section_name rs

read_blank : (st : Reading) → read_trimmed st (trim []) ≡ st
unfolding read_trimmed trim trim_left trim_right
read_blank st = refl

read_on-blank_line :
    (st : Reading) (is_first : Bool) (r : Record) (s : Bytes)
    → read_on st (blank_line is_first r ++ s) ≡ read_on st s
unfolding blank_line
read_on-blank_line st is_first r s =
    elim (Bool-cases ((is_section r || not (is_empty r.comment)) && not is_first)) [
      | inl blank ↦ rw blank (read_on-line st [] s tt ∙ ap (λ st'. read_on st' s) (read_blank st))
      | inr joined ↦ rw joined
    ]

read_on-print_records :
    (rs : List Record) (is_first : Bool) (st : Reading)
    → IsPrintable st.current_section rs
    → st.comments ≡ []
    → (read_on st (print_records is_first rs)).contents ≡ st.contents ++ rs
unfolding print_records
read_on-print_records [] is_first st h e =
    (unfold lines_of in (unfold read_lines in (rw append-nil)))
read_on-print_records (r ∷ rs) is_first st h e =
    let rest : Bytes = print_records false rs in
    let st' : Reading = with_comments st r.comment in
    let line : Bytes = print_line r in
    let same : st'.comments ≡ r.comment = ap (λ c. c ++ r.comment) e in
    let read_on-record : read_on st (print_records is_first (r ∷ rs))
        ≡ read_on (add_record st' r) rest =
      read_on-blank_line st is_first r (r.comment ++ (line ++ (b'\n' ∷ rest)))
      ∙ read_on-comment st (line ++ (b'\n' ∷ rest)) (comment_of r st.current_section h.0)
      ∙ read_on-line st' line rest (print_line-one_line r st.current_section h.0)
      ∙ ap (λ st''. read_on st'' rest) (read_record st' r h.0 same) in
    ap Reading.contents read_on-record
    ∙ read_on-print_records rs false (add_record st' r) h.1 refl
    ∙ append_assoc st.contents (r ∷ []) rs

-- Reading the text of a file whose records the text can carry gives the same records, in their
-- order, with their comments, whatever the file object held before.
pub read_text-to_string :
    (f g : IniFile) → IsPrintable [] f.contents → (read_text g (to_string f)).contents ≡ f.contents
unfolding read_text to_string
read_text-to_string f g h =
    read_on-print_records f.contents true
      (record { current_section = []; comments = []; contents = [] }) h refl
