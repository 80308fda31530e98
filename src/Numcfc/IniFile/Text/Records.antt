-- ===== src/Numcfc/IniFile/Text/Records.antt =====
-- The lines of the records that are read back as they were printed.
use mathlib.Core.Option
use numcore_messaging_librar.Common.{
  ℕ, suc, ◌+◌, ◌≤◌, ◌≡◌, inl, inr, refl, sym, ap, ◌∙◌, Bool, true, false, not, [], ◌∷◌, ◌++◌,
  append_assoc, Option, none, some, Bytes, codes, Lacks, Lacks-append, memchr, memchr-append,
  length, length-append, take, drop, take-append, drop-append, arith, Option-cases, Bool-cases,
}
use numcore_messaging_librar.Numcfc.IniFile.{Record}
use numcore_messaging_librar.Numcfc.IniFile.Text.{
  one_of, white_spaces, trim, Reading, is_comment_line, opens_section, add_record, read_entry,
  read_trimmed,
}
use numcore_messaging_librar.Numcfc.IniFile.Text.Trims.{
  ends_clean, ends_clean-append, IsTrimmed, trim_clean, trim-blank_behind, trim-blank_before,
  IsName, section_of-name,
}
use numcore_messaging_librar.Numcfc.IniFile.Text.Lines.{IsComment}

-- A section's record.
pub record IsHeader (r : Record) : Type 0 where
  pub no_key : r.key_name ≡ []
  pub no_value : r.value ≡ []
  pub name : IsName r.section_name
  pub one_line : Lacks b'\n' r.section_name
  pub comment : IsComment r.comment

-- Not empty, and not the start of a comment.
abbrev pub is_key_start : Bytes → Bool
is_key_start [] = false
is_key_start (c ∷ s) = not (is_comment_line c)

-- A key and its value, in the section `current`.
pub record IsEntry (current : Bytes) (r : Record) : Type 0 where
  pub section : r.section_name ≡ current
  pub key_start : is_key_start r.key_name ≡ true
  pub key : IsTrimmed r.key_name
  pub one_line : Lacks b'\n' r.key_name
  pub no_bracket : Lacks b'[' r.key_name
  pub no_equals : Lacks b'=' r.key_name
  pub value : IsTrimmed r.value
  pub value_one_line : Lacks b'\n' r.value
  pub comment : IsComment r.comment

opens_first : (o : Option ℕ) → opens_section (some 0) (Option.map suc o) ≡ true
opens_first none = refl
opens_first (some i) = ground arith

closing_clean : ends_clean white_spaces (b']' ∷ []) ≡ true
unfolding ends_clean one_of
closing_clean = refl

pub header-IsTrimmed : (name : Bytes) → IsTrimmed (b'[' ∷ (name ++ (b']' ∷ [])))
header-IsTrimmed name = record {
  start = unfold one_of in refl;
  end = ends_clean-append white_spaces (b'[' ∷ name) [] b']' ∙ closing_clean;
}

abbrev pub header : Bytes → Bytes → Record
header name comment = record { section_name = name; key_name = []; value = []; comment = comment }

pub read_header :
    (st : Reading) (name : Bytes)
    → IsName name
    → read_trimmed st (b'[' ∷ (name ++ (b']' ∷ []))) ≡ add_record st (header name st.comments)
unfolding read_trimmed memchr
read_header st name h = rw (opens_first (memchr (name ++ (b']' ∷ [])) b'='), section_of-name name h)

-- A byte that a prefix lacks is found behind it.
memchr-past : (p t : Bytes) (c i : ℕ) → Lacks c p → memchr (p ++ t) c ≡ some i → length p ≤ i
unfolding memchr
memchr-past [] t c i h e = omega arith
memchr-past (x ∷ p) t c i h e = elim (Option-cases (memchr (p ++ t) c)) [
  | inl e' ↦ ground (arith, e, e', h.0)
  | inr (j, e') ↦ ground (arith, e, e', h.0, memchr-past p t c j h.1 e')
]

opens_late :
    (p t : Bytes) (n : ℕ)
    → Lacks b'[' p
    → n ≤ length p
    → opens_section (memchr (p ++ t) b'[') (some n) ≡ false
opens_late p t n h le = elim (Option-cases (memchr (p ++ t) b'[')) [
  | inl e ↦ rw e
  | inr (i, e) ↦ rw e (ground (arith, memchr-past p t b'[' i h e, le))
]

-- The value as it stands behind the equals sign of the trimmed line.
abbrev pub shown : Bytes → Bytes
shown [] = []
shown (c ∷ v) = b' ' ∷ c ∷ v

trim-shown : (v : Bytes) → IsTrimmed v → trim (shown v) ≡ v
trim-shown [] h = trim_clean [] h
trim-shown (c ∷ v) h = trim-blank_before (c ∷ v) h

abbrev pub entry_line : Bytes → Bytes → Bytes
entry_line key v = key ++ (b' ' ∷ b'=' ∷ shown v)

equals_clean : ends_clean white_spaces (b' ' ∷ b'=' ∷ []) ≡ true
unfolding ends_clean one_of
equals_clean = refl

entry-IsTrimmed :
    (key v : Bytes)
    → is_key_start key ≡ true
    → IsTrimmed key
    → IsTrimmed v
    → IsTrimmed (entry_line key v)
entry-IsTrimmed (c ∷ k) [] h hk hv = record {
  start = hk.start;
  end = ends_clean-append white_spaces (c ∷ k) (b'=' ∷ []) b' ' ∙ equals_clean;
}
entry-IsTrimmed (c ∷ k) (d ∷ v) h hk hv = record {
  start = hk.start;
  end =
      ends_clean-append white_spaces (c ∷ k) (b'=' ∷ b' ' ∷ d ∷ v) b' '
      ∙ (unfold ends_clean in hv.end);
}
entry-IsTrimmed [] v h hk hv = ground (arith, h)

pub trim-entry_line :
    (key v : Bytes)
    → is_key_start key ≡ true
    → IsTrimmed key
    → IsTrimmed v
    → trim (key ++ (codes " = " ++ v)) ≡ entry_line key v
trim-entry_line key [] h hk hv =
    rw (sym (append_assoc key (b' ' ∷ b'=' ∷ []) (b' ' ∷ [])))
      (trim-blank_behind (entry_line key []) (entry-IsTrimmed key [] h hk hv))
trim-entry_line key (d ∷ v) h hk hv =
    trim_clean (entry_line key (d ∷ v)) (entry-IsTrimmed key (d ∷ v) h hk hv)

-- The line around its equals sign.
entry_split : (key v : Bytes) → entry_line key v ≡ (key ++ (b' ' ∷ [])) ++ (b'=' ∷ shown v)
entry_split key v = simp append_assoc

length-key : (key : Bytes) → length (key ++ (b' ' ∷ [])) ≡ length key + 1
length-key key = length-append {0} key (b' ' ∷ [])

entry_equals :
    (key v : Bytes) → Lacks b'=' key → memchr (entry_line key v) b'=' ≡ some (length key + 1)
entry_equals key v lacks = rw (entry_split key v) (
    memchr-append (key ++ (b' ' ∷ [])) (shown v) b'='
      (Lacks-append b'=' key (b' ' ∷ []) lacks (ground arith, tt))
    ∙ ap some (length-key key))

take_key : (key v : Bytes) → take (length key + 1) (entry_line key v) ≡ key ++ (b' ' ∷ [])
take_key key v =
    rw (entry_split key v) (take-append _ (key ++ (b' ' ∷ [])) _ (sym (length-key key)))

drop_value : (key v : Bytes) → drop (length key + 1 + 1) (entry_line key v) ≡ shown v
drop_value key v = rw (sym (append_assoc key (b' ' ∷ b'=' ∷ []) (shown v))) (
    drop-append _ (key ++ (b' ' ∷ b'=' ∷ [])) (shown v)
      (omega (arith, length-append {0} key (b' ' ∷ b'=' ∷ []))))

pub read_key :
    (st : Reading) (key v : Bytes)
    → Lacks b'=' key
    → IsTrimmed key
    → IsTrimmed v
    → read_entry st (entry_line key v) (memchr (entry_line key v) b'=')
      ≡ add_record st (record {
        section_name = st.current_section;
        key_name = key;
        value = v;
        comment = st.comments;
      })
unfolding read_entry
read_key st key v lacks hk hv = rw (
  entry_equals key v lacks,
  take_key key v,
  drop_value key v,
  trim-blank_behind key hk,
  trim-shown v hv,
)

pub not_section :
    (key v : Bytes)
    → Lacks b'=' key
    → Lacks b'[' key
    → opens_section (memchr (entry_line key v) b'[') (memchr (entry_line key v) b'=') ≡ false
not_section key v no_equals no_bracket = rw (entry_equals key v no_equals) (
    rw (sym (append_assoc key (b' ' ∷ b'=' ∷ []) (shown v))) (
      opens_late (key ++ (b' ' ∷ b'=' ∷ [])) (shown v) (length key + 1)
        (Lacks-append b'[' key (b' ' ∷ b'=' ∷ []) no_bracket (ground arith, (ground arith, tt)))
        (omega (arith, length-append {0} key (b' ' ∷ b'=' ∷ [])))))

pub read_entry_line :
    (st : Reading) (key v : Bytes)
    → is_key_start key ≡ true
    → opens_section (memchr (entry_line key v) b'[') (memchr (entry_line key v) b'=') ≡ false
    → read_trimmed st (entry_line key v)
      ≡ read_entry st (entry_line key v) (memchr (entry_line key v) b'=')
unfolding read_trimmed
read_entry_line st (c ∷ k) v h e = elim (Bool-cases (is_comment_line c)) [
  | inl marked ↦ ground (arith, h, marked)
  | inr bare ↦ rw (bare, e)
]
read_entry_line st [] v h e = ground (arith, h)
