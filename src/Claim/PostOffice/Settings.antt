-- ===== src/Claim/PostOffice/Settings.antt =====
-- The ini file after a connection shows the settings that were used.
use numcore_messaging_librar.Common.{◌≡◌, ◌≢◌, inr, ◌∙◌, [], Bytes, codes, arith}
use numcore_messaging_librar.Numcfc.IniFile.{IniFile, get_value}
use numcore_messaging_librar.Numcfc.IniFile.Comment.{get_set_value}
use numcore_messaging_librar.Numcfc.IniFile.Comment.Values.{
  get_value-get_set_value, get_value-get_set_value_other,
}
use numcore_messaging_librar.Claim.PostOffice.{
  server_section, get_messaging_server_host, get_messaging_server_port,
  get_messaging_server_username, get_messaging_server_password, get_messaging_server_virtual_host,
  connect_info, create_connect_info,
}

-- A server's setting as it is read from the file.
abbrev pub setting : IniFile → Bytes → Bytes
setting f key = get_value f server_section key

module _ (key default comment : Bytes) where
  abbrev got : IniFile → Bytes × IniFile
  got f = get_set_value f server_section key default comment

  shows : (f : IniFile) → key ≢ [] → setting (got f).1 key ≡ (got f).0
  shows f ne = get_value-get_set_value f server_section key default comment ne

  keeps : (f : IniFile) (key' : Bytes) → key' ≢ key → setting (got f).1 key' ≡ setting f key'
  keeps f key' ne =
      get_value-get_set_value_other f server_section key server_section key' default comment
        (inr ne)

port_keeps :
    (f : IniFile) (key : Bytes)
    → key ≢ codes "Port"
    → setting (get_messaging_server_port f).1 key ≡ setting f key
unfolding get_messaging_server_port
port_keeps f key ne = keeps (codes "Port") _ _ f key ne

username_keeps :
    (f : IniFile) (key : Bytes)
    → key ≢ codes "Username"
    → setting (get_messaging_server_username f).1 key ≡ setting f key
unfolding get_messaging_server_username
username_keeps f key ne = keeps (codes "Username") _ _ f key ne

password_keeps :
    (f : IniFile) (key : Bytes)
    → key ≢ codes "Password"
    → setting (get_messaging_server_password f).1 key ≡ setting f key
unfolding get_messaging_server_password
password_keeps f key ne = keeps (codes "Password") _ _ f key ne

virtual_host_keeps :
    (f : IniFile) (key : Bytes)
    → key ≢ codes "VirtualHost"
    → setting (get_messaging_server_virtual_host f).1 key ≡ setting f key
unfolding get_messaging_server_virtual_host
virtual_host_keeps f key ne = keeps (codes "VirtualHost") _ _ f key ne

host_shown :
    (f : IniFile)
    → setting (get_messaging_server_host f).1 (codes "Host") ≡ (get_messaging_server_host f).0
unfolding get_messaging_server_host
host_shown f = shows (codes "Host") _ _ f (ground arith)

port_shown :
    (f : IniFile)
    → setting (get_messaging_server_port f).1 (codes "Port") ≡ (get_messaging_server_port f).0
unfolding get_messaging_server_port
port_shown f = shows (codes "Port") _ _ f (ground arith)

username_shown :
    (f : IniFile)
    → setting (get_messaging_server_username f).1 (codes "Username")
      ≡ (get_messaging_server_username f).0
unfolding get_messaging_server_username
username_shown f = shows (codes "Username") _ _ f (ground arith)

password_shown :
    (f : IniFile)
    → setting (get_messaging_server_password f).1 (codes "Password")
      ≡ (get_messaging_server_password f).0
unfolding get_messaging_server_password
password_shown f = shows (codes "Password") _ _ f (ground arith)

virtual_host_shown :
    (f : IniFile)
    → setting (get_messaging_server_virtual_host f).1 (codes "VirtualHost")
      ≡ (get_messaging_server_virtual_host f).0
unfolding get_messaging_server_virtual_host
virtual_host_shown f = shows (codes "VirtualHost") _ _ f (ground arith)

-- Whatever the file held before, the connect string is made of the settings that the file shows
-- afterwards, defaults included.
pub create_connect_info-shown :
    (port_text : Bytes → Bytes) (f : IniFile)
    → (create_connect_info port_text f).0 ≡ (
        let f' = (create_connect_info port_text f).1 in
        connect_info
          (setting f' (codes "Host"))
          (port_text (setting f' (codes "Port")))
          (setting f' (codes "Username"))
          (setting f' (codes "Password"))
          (setting f' (codes "VirtualHost")))
unfolding create_connect_info
create_connect_info-shown port_text f =
    let f1 : IniFile = (get_messaging_server_host f).1 in
    let f2 : IniFile = (get_messaging_server_port f1).1 in
    let f3 : IniFile = (get_messaging_server_username f2).1 in
    let f4 : IniFile = (get_messaging_server_password f3).1 in
    let host =
      virtual_host_keeps f4 (codes "Host") (ground arith)
      ∙ password_keeps f3 (codes "Host") (ground arith)
      ∙ username_keeps f2 (codes "Host") (ground arith)
      ∙ port_keeps f1 (codes "Host") (ground arith)
      ∙ host_shown f in
    let port =
      virtual_host_keeps f4 (codes "Port") (ground arith)
      ∙ password_keeps f3 (codes "Port") (ground arith)
      ∙ username_keeps f2 (codes "Port") (ground arith)
      ∙ port_shown f1 in
    let username =
      virtual_host_keeps f4 (codes "Username") (ground arith)
      ∙ password_keeps f3 (codes "Username") (ground arith)
      ∙ username_shown f2 in
    let password = virtual_host_keeps f4 (codes "Password") (ground arith) ∙ password_shown f3 in
    rw (host, port, username, password, virtual_host_shown f4)
