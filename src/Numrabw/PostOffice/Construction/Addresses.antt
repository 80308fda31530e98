-- ===== src/Numrabw/PostOffice/Construction/Addresses.antt =====
-- The addresses of different clients.
use numcore_messaging_librar.Common.{
  ℕ, length, length-append, ◌≡◌, refl, sym, ap, ◌∙◌, Bool, [], ◌∷◌, ◌++◌, append_assoc, Option,
  Bytes, Lacks, Lacks-append, All, drop, arith,
}
use numcore_messaging_librar.Numcfc.IdGenerator.{
  get_hostname, get_ip_addresses, get_working_directory, generate_id,
}
use numcore_messaging_librar.Numcfc.IdGenerator.Distinct.{split-at, IsAddress, generate_id_inj}
use numcore_messaging_librar.Numrabw.PostOffice.Front.{get_client_address}
use numcore_messaging_librar.Numrabw.PostOffice.Construction.{
  Host, or_unknown, full_identifier, new_office,
}

concat_inj : (p q : Bytes) (c : ℕ) → p ++ (c ∷ []) ≡ q ++ (c ∷ []) → p ≡ q
concat_inj [] [] c e = refl
concat_inj [] (y ∷ q) c e = absurd (omega (arith, ap length e, length-append q (c ∷ [])))
concat_inj (x ∷ p) [] c e = absurd (omega (arith, ap length e, length-append p (c ∷ [])))
concat_inj (x ∷ p) (y ∷ q) c e = ground (arith, e, concat_inj p q c)

-- What a client is told apart by.
pub record IsTellable (client_identifier : Option Bytes) (host : Host) : Type 0 where
  pub no_at : Lacks b'@' (or_unknown client_identifier)
  pub no_comma : Lacks b',' (get_hostname host.name)
  pub are_addresses : All IsAddress (get_ip_addresses host.interfaces)

at_sign :
    (id : Option Bytes) (host : Host)
    → full_identifier id host
      ≡ (or_unknown id ++ (b' ' ∷ []))
        ++ (b'@'
            ∷ b' '
            ∷ generate_id
                (get_hostname host.name)
                (get_ip_addresses host.interfaces)
                (get_working_directory host.directory))
unfolding full_identifier
at_sign id host = sym (append_assoc (or_unknown id) (b' ' ∷ []) _)

-- Two post offices have the same client address only if their identifiers, host names, addresses and
-- working directories are the same: where no identifier holds an at sign, no host name a comma, and
-- every address is not empty and has no comma and no bracket.
pub get_client_address_inj :
    {Q : Type 0} (empty : Q) (m n m' n' : Bool) (id id' : Option Bytes) (host host' : Host)
    → IsTellable id host
    → IsTellable id' host'
    → get_client_address (new_office empty m n id host)
      ≡ get_client_address (new_office empty m' n' id' host')
    → (or_unknown id ≡ or_unknown id')
      × (get_hostname host.name ≡ get_hostname host'.name)
      × (get_ip_addresses host.interfaces ≡ get_ip_addresses host'.interfaces)
      × (get_working_directory host.directory ≡ get_working_directory host'.directory)
unfolding get_client_address new_office
get_client_address_inj empty m n m' n' id id' host host' t t' e =
    let (before, behind) =
      split-at b'@' (or_unknown id ++ (b' ' ∷ [])) (or_unknown id' ++ (b' ' ∷ [])) _ _
        (Lacks-append b'@' (or_unknown id) (b' ' ∷ []) t.no_at (ground arith))
        (Lacks-append b'@' (or_unknown id') (b' ' ∷ []) t'.no_at (ground arith))
        (sym (at_sign id host) ∙ e ∙ at_sign id' host') in
    let (names, addresses, directories) =
      generate_id_inj (get_hostname host.name) (get_hostname host'.name)
        (get_ip_addresses host.interfaces) (get_ip_addresses host'.interfaces)
        (get_working_directory host.directory) (get_working_directory host'.directory) t.no_comma
        t'.no_comma t.are_addresses t'.are_addresses (ap (drop 1) behind) in
    (concat_inj (or_unknown id) (or_unknown id') b' ' before, names, addresses, directories)
