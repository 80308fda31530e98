-- ===== src/Claim/PostOffice/Creation.antt =====
-- `CreatePostOffice` and the life of a `claim::PostOffice`, of messaging/claim/PostOffice.cpp, over the
-- post office of Numrabw/PostOffice.
pub mod Shown
use numcore_messaging_librar.Common.{
  ℕ, ◌≡◌, ◌≢◌, refl, ap, ◌∙◌, Bool, true, false, Option, none, some, Bytes, codes,
}
use numcore_messaging_librar.Outcome.{Outcome, done, throws, runtime_error, ◌>>=◌}
use numcore_messaging_librar.Numcfc.IniFile.{IniFile}
use numcore_messaging_librar.Numrabw.PostOffice.Front.{Office, read_settings, shut_down}
use numcore_messaging_librar.Numrabw.PostOffice.Construction.{Host, new_office}
use numcore_messaging_librar.Claim.PostOffice.{
  BufferLimits, read_limits, create_connect_info, check_initialized, pass_on,
}

-- A post office and the string that its threads connect with.
pub record Created (Q : Type 0) : Type 0 where
  pub connect_string : Bytes
  pub office : Office Q

-- What the numbers of a text are cast to, the system's answers, and what the memory of the flags held.
pub record Surroundings (Q : Type 0) : Type 0 where
  pub port_text : Bytes → Bytes
  pub to_count : Bytes → ℕ
  pub to_bytes : Bytes → ℕ
  pub empty : Q
  pub recv_memory : Bool
  pub send_memory : Bool
  pub host : Host

module _ {Q : Type 0} (w : Surroundings Q) where
  unfoldable pub create_post_office : Option Bytes → IniFile → Created Q × IniFile
  unfolding create_connect_info read_limits new_office read_settings
  create_post_office client_identifier f =
      let (connect_string, f1) = create_connect_info w.port_text f in
      let office = new_office w.empty w.recv_memory w.send_memory client_identifier w.host in
      let (limits, f2) = read_limits w.to_count w.to_bytes f1 in
      (record { connect_string = connect_string; office = read_settings limits office }, f2)

  -- The post office that is released first is shut down.
  abbrev pub released : (ℕ → Bool) → ℕ → Option (Created Q) → Option (Office Q)
  unfolding shut_down
  released ready fresh none = none
  released ready fresh (some created) = some (shut_down ready fresh created.office)

  -- `Initialize`: what is left of the post office that was there, the new one, and the ini file.
  unfoldable pub initialize :
      (ℕ → Bool)
      → ℕ
      → Option Bytes
      → IniFile
      → Option (Created Q)
      → Option (Office Q) × (Option (Created Q) × IniFile)
  unfolding create_post_office released
  initialize ready fresh client_identifier f post_office =
      let (created, f') = create_post_office client_identifier f in
      (released ready fresh post_office, (some created, f'))
