-- ===== src/Numcfc/IniFile/Listing.antt =====
-- `GetSections` and `GetKeys` of numcfc/IniFile.cpp.
pub mod Grouped
use numcore_messaging_librar.Common.{
  Bool, true, false, not, ◌&&◌, List, [], ◌∷◌, ◌++◌, Bytes, bytes_eq, if◌then◌else◌,
}
use numcore_messaging_librar.Outcome.{Outcome, done, aborts}
use numcore_messaging_librar.Numcfc.IniFile.{Record, IniFile, is_section, in_section}

-- `std::find`
unfoldable pub is_listed : Bytes → List Bytes → Bool
is_listed s [] = false
is_listed s (x ∷ xs) = if bytes_eq x s then true else is_listed s xs

-- The loop of `GetSections`, with its assert; `current` is the section of the record before.
unfoldable pub collect_sections : List Record → Bytes → List Bytes → Outcome (List Bytes)
unfolding is_listed
collect_sections [] current sections = done sections
collect_sections (r ∷ rs) current sections =
    let same = collect_sections rs current sections in
    let next = collect_sections rs r.section_name (sections ++ (r.section_name ∷ [])) in
    if bytes_eq r.section_name current
    then same
    else if is_listed r.section_name sections
    then aborts
    else next

unfoldable pub get_sections : IniFile → Outcome (List Bytes)
unfolding collect_sections
get_sections f = collect_sections f.contents [] []

unfoldable pub collect_keys : Bytes → List Record → List Bytes
unfolding is_section
collect_keys section_name [] = []
collect_keys section_name (r ∷ rs) =
    let keys = collect_keys section_name rs in
    if in_section section_name r && not (is_section r) then r.key_name ∷ keys else keys

unfoldable pub get_keys : IniFile → Bytes → List Bytes
unfolding collect_keys
get_keys f section_name = collect_keys section_name f.contents
