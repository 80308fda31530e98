-- ===== src/Numcfc/IniFile/Numbers.antt =====
-- The forms of `SetValue` and `GetSetValue` of numcfc/IniFile.cpp that take a `double`. How a number is
-- printed with so many digits, and how `atof` reads a text, are parameters.
use numcore_messaging_librar.Common.{ℕ, ◌≡◌, ◌≢◌, refl, Bytes, []}
use numcore_messaging_librar.Numcfc.IniFile.{IniFile, set_value}
use numcore_messaging_librar.Numcfc.IniFile.Comment.{get_set_value}
use numcore_messaging_librar.Numcfc.IniFile.Access.{find-edit_record, set_value-KeepsNames}

-- `ostr << std::setprecision(digits) << value`, and `atof`
pub record Printing (D : Type 0) : Type 0 where
  pub shown : ℕ → D → Bytes
  pub atof : Bytes → D

module _ {D : Type 0} (p : Printing D) where
  unfoldable pub set_number : IniFile → Bytes → Bytes → D → IniFile
  unfolding set_value
  set_number f section_name key_name value = set_value f section_name key_name (p.shown 30 value)

  unfoldable pub get_set_number : IniFile → Bytes → Bytes → D → Bytes → D × IniFile
  unfolding get_set_value
  get_set_number f section_name key_name default_value default_comment =
      let (s, f') =
        get_set_value f section_name key_name (p.shown 20 default_value) default_comment in
      (p.atof s, f')

  -- Where the 30 digits of a number are read as that number, one that has been set under a key that is
  -- not empty is what `GetSetValue` gives, whatever its default and its comment, and it leaves the
  -- file as it is.
  pub get_set_number-set_number :
      (f : IniFile) (s k : Bytes) (value default : D) (comment : Bytes)
      → k ≢ []
      → p.atof (p.shown 30 value) ≡ value
      → get_set_number (set_number f s k value) s k default comment
        ≡ (value, set_number f s k value)
  unfolding get_set_number set_number get_set_value set_value
  get_set_number-set_number f s k value default comment ne e =
      rw (find-edit_record s k _ (set_value-KeepsNames (p.shown 30 value)) f.contents ne, e) refl
