-- ===== src/Numcfc/IniFile/Comment/Lines.antt =====
-- A prepared comment is made of comment lines.
use numcore_messaging_librar.Common.{
  ℕ, ◌≡◌, refl, Bool, true, false, ◌&&◌, [], ◌∷◌, ◌++◌, Bytes, ◌==◌, if◌then◌else◌, arith,
  Bool-cases, inl, inr, ◌⊎◌, ◌∙◌,
}
use numcore_messaging_librar.Numcfc.IniFile.Comment.{
  is_marked, mark, mark_behind, ends_line, end_line, prepare_comment,
}

-- Whether each line that begins behind a `\n` is marked, or is the end of the string.
unfoldable pub lines_behind_marked : Bytes → Bool
lines_behind_marked [] = true
lines_behind_marked (c ∷ []) = true
lines_behind_marked (c ∷ d ∷ s) =
    let rest = lines_behind_marked (d ∷ s) in if c == b'\n' then is_marked (d ∷ s) && rest else rest

-- Nothing, or lines that each begin with a mark and end with `\n`.
unfoldable pub is_comment : Bytes → Bool
unfolding lines_behind_marked ends_line
is_comment [] = true
is_comment (c ∷ s) = is_marked (c ∷ s) && (lines_behind_marked (c ∷ s) && ends_line (c ∷ s))

lines-cons :
    (c : ℕ) (s : Bytes)
    → (c == b'\n' ≡ false) ⊎ (is_marked s ≡ true)
    → lines_behind_marked s ≡ true
    → lines_behind_marked (c ∷ s) ≡ true
unfolding lines_behind_marked
lines-cons c [] h e = refl
lines-cons c (d ∷ s) (inl differs) e = rw (differs, e)
lines-cons c (d ∷ s) (inr marked) e =
    rw (marked, e)
      (elim (Bool-cases (c == b'\n')) [ inl same ↦ rw same | inr differs ↦ rw differs ])

is_marked-mark_behind : (s : Bytes) → is_marked (mark_behind s) ≡ is_marked s
unfolding mark_behind
is_marked-mark_behind [] = refl
is_marked-mark_behind (c ∷ s) = elim (Bool-cases (c == b'\n')) [
  | inl same ↦ rw same
  | inr differs ↦ rw differs
]

is_marked-mark : (line s : Bytes) → is_marked s ≡ is_marked line → is_marked (mark line s) ≡ true
unfolding mark
is_marked-mark line s e = elim (Bool-cases (is_marked line)) [
  | inl marked ↦ rw marked (e ∙ marked)
  | inr bare ↦ rw bare
]

lines-mark :
    (line s : Bytes) → lines_behind_marked s ≡ true → lines_behind_marked (mark line s) ≡ true
unfolding mark
lines-mark line s e = elim (Bool-cases (is_marked line)) [
  | inl marked ↦ rw marked e
  | inr bare ↦ rw bare (lines-cons b'#' (b' ' ∷ s) (inl refl) (lines-cons b' ' s (inl refl) e))
]

lines-mark_behind : (s : Bytes) → lines_behind_marked (mark_behind s) ≡ true
unfolding mark_behind
lines-mark_behind [] = unfold lines_behind_marked in refl
lines-mark_behind (c ∷ s) = elim (Bool-cases (c == b'\n')) [
  | inl same ↦ rw same (
      lines-cons c (mark s (mark_behind s))
        (inr (is_marked-mark s (mark_behind s) (is_marked-mark_behind s)))
        (lines-mark s (mark_behind s) (lines-mark_behind s)))
  | inr differs ↦ rw differs (lines-cons c (mark_behind s) (inl differs) (lines-mark_behind s))
]

lines-append_end :
    (s : Bytes)
    → ends_line s ≡ false
    → lines_behind_marked s ≡ true
    → lines_behind_marked (s ++ (b'\n' ∷ [])) ≡ true
unfolding lines_behind_marked ends_line
lines-append_end [] h e = refl
lines-append_end (c ∷ []) h e = rw h
lines-append_end (c ∷ d ∷ s) h e = elim (Bool-cases (c == b'\n')) [
  | inl same ↦ ground (arith, e, same, lines-append_end (d ∷ s) h)
  | inr differs ↦ rw differs (lines-append_end (d ∷ s) h (rw differs at e))
]

ends_line-append_end : (s : Bytes) → ends_line (s ++ (b'\n' ∷ [])) ≡ true
unfolding ends_line
ends_line-append_end [] = refl
ends_line-append_end (c ∷ []) = refl
ends_line-append_end (c ∷ d ∷ s) = ends_line-append_end (d ∷ s)

is_comment-end_line :
    (s : Bytes) → is_marked s ≡ true → lines_behind_marked s ≡ true → is_comment (end_line s) ≡ true
unfolding end_line is_comment
is_comment-end_line [] marked e = ground (arith, marked)
is_comment-end_line (c ∷ s) marked e = elim (Bool-cases (ends_line (c ∷ s))) [
  | inl ends ↦ rw (ends, marked, e, ends)
  | inr unended ↦
      rw (unended, marked, lines-append_end (c ∷ s) unended e, ends_line-append_end (c ∷ s))
]

-- Every prepared comment is empty, or consists of lines that begin with `#` or `;` and end.
pub prepare_comment-is_comment : (s : Bytes) → is_comment (prepare_comment s) ≡ true
unfolding is_comment prepare_comment
prepare_comment-is_comment [] = refl
prepare_comment-is_comment (c ∷ s) =
    let behind = mark_behind (c ∷ s) in
    is_comment-end_line (mark (c ∷ s) behind)
      (is_marked-mark (c ∷ s) behind (is_marked-mark_behind (c ∷ s)))
      (lines-mark (c ∷ s) behind (lines-mark_behind (c ∷ s)))
