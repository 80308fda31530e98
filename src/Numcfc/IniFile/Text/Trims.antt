-- ===== src/Numcfc/IniFile/Text/Trims.antt =====
-- What trimming does to text whose ends are clean.
use numcore_messaging_librar.Common.{ℕ, ◌≡◌, refl, Bool, true, not, [], ◌∷◌, ◌++◌, Bytes, arith}
use numcore_messaging_librar.Numcfc.IniFile.Text.{
  one_of, white_spaces, trim_left, trim_right, trim, section_of,
}

module _ (chars : Bytes) where
  -- The first byte, and the last, are none of those.
  abbrev pub starts_clean : Bytes → Bool
  starts_clean [] = true
  starts_clean (c ∷ s) = not (one_of chars c)

  unfoldable pub ends_clean : Bytes → Bool
  ends_clean [] = true
  ends_clean (c ∷ []) = not (one_of chars c)
  ends_clean (c ∷ d ∷ s) = ends_clean (d ∷ s)

  pub trim_left_clean : (s : Bytes) → starts_clean s ≡ true → trim_left chars s ≡ s
  unfolding trim_left
  trim_left_clean [] h = refl
  trim_left_clean (c ∷ s) h = ground (arith, h)

  pub trim_right_clean : (s : Bytes) → ends_clean s ≡ true → trim_right chars s ≡ s
  unfolding trim_right ends_clean
  trim_right_clean [] h = refl
  trim_right_clean (c ∷ []) h = ground (arith, h)
  trim_right_clean (c ∷ d ∷ s) h = rw (trim_right_clean (d ∷ s) h)

  pub trim_right-concat :
      (s : Bytes) (c : ℕ)
      → one_of chars c ≡ true
      → trim_right chars (s ++ (c ∷ [])) ≡ trim_right chars s
  unfolding trim_right
  trim_right-concat [] c h = rw h
  trim_right-concat (d ∷ s) c h = rw (trim_right-concat s c h)

  pub ends_clean-append : (s t : Bytes) (d : ℕ) → ends_clean (s ++ (d ∷ t)) ≡ ends_clean (d ∷ t)
  unfolding ends_clean
  ends_clean-append [] t d = refl
  ends_clean-append (c ∷ []) t d = refl
  ends_clean-append (c ∷ e ∷ s) t d = ends_clean-append (e ∷ s) t d

-- No white space at the ends.
pub record IsTrimmed (s : Bytes) : Type 0 where
  pub start : starts_clean white_spaces s ≡ true
  pub end : ends_clean white_spaces s ≡ true

pub trim_clean : (s : Bytes) → IsTrimmed s → trim s ≡ s
unfolding trim
trim_clean s h = rw (trim_right_clean white_spaces s h.end) (trim_left_clean white_spaces s h.start)

pub trim-blank_behind : (s : Bytes) → IsTrimmed s → trim (s ++ (b' ' ∷ [])) ≡ s
unfolding trim
trim-blank_behind s h =
    rw (trim_right-concat white_spaces s b' ' (unfold one_of in refl)) (trim_clean s h)

skip_blank : (s : Bytes) → trim_left white_spaces (b' ' ∷ s) ≡ trim_left white_spaces s
unfolding trim_left one_of
skip_blank s = refl

trim_blank : trim (b' ' ∷ []) ≡ []
unfolding trim trim_left trim_right one_of
trim_blank = refl

pub trim-blank_before : (s : Bytes) → IsTrimmed s → trim (b' ' ∷ s) ≡ s
unfolding trim
trim-blank_before [] h = trim_blank
trim-blank_before (c ∷ s) h = rw (
  trim_right_clean white_spaces (b' ' ∷ c ∷ s) (unfold ends_clean in h.end),
  skip_blank (c ∷ s),
  trim_left_clean white_spaces (c ∷ s) h.start,
)

-- A section's name, which has no bracket at its ends either.
pub record IsName (s : Bytes) : Type 0 where
  pub start : starts_clean (b'[' ∷ white_spaces) s ≡ true
  pub end : ends_clean (b']' ∷ white_spaces) s ≡ true

trim_left-name :
    (s : Bytes)
    → IsName s
    → trim_left (b'[' ∷ white_spaces) (b'[' ∷ (s ++ (b']' ∷ []))) ≡ s ++ (b']' ∷ [])
unfolding trim_left one_of
trim_left-name [] h = refl
trim_left-name (c ∷ s) h = trim_left_clean (b'[' ∷ white_spaces) (c ∷ (s ++ (b']' ∷ []))) h.start

pub section_of-name : (s : Bytes) → IsName s → section_of (b'[' ∷ (s ++ (b']' ∷ []))) ≡ s
unfolding section_of
section_of-name s h = rw (
  trim_left-name s h,
  trim_right-concat (b']' ∷ white_spaces) s b']' (unfold one_of in refl),
  trim_right_clean (b']' ∷ white_spaces) s h.end,
)
