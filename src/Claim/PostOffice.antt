-- ===== src/Claim/PostOffice.antt =====
-- messaging/claim/PostOffice.cpp, and the settings that messaging/claim/PostOfficeInitializer.cpp
-- reads from an ini file, off Windows.
pub mod Settings
pub mod Creation
use numcore_messaging_librar.Common.{
  ℕ, ◌*◌, Bool, not, ◌&&◌, [], ◌∷◌, ◌++◌, Option, none, some, Bytes, codes, if◌then◌else◌,
}
use numcore_messaging_librar.Outcome.{Outcome, done, throws, runtime_error, ◌>>=◌}
use numcore_messaging_librar.Numcfc.IniFile.{IniFile, is_empty}
use numcore_messaging_librar.Numcfc.IniFile.Comment.{get_set_value}

abbrev pub server_section : Bytes
server_section = codes "MessagingServer"

unfoldable pub get_messaging_server_host : IniFile → Bytes × IniFile
get_messaging_server_host f =
    get_set_value f server_section (codes "Host") []
      (codes "IP address or network hostname of the messaging server.")

-- The text of the port, which is read as a double; its default is printed as one.
unfoldable pub get_messaging_server_port : IniFile → Bytes × IniFile
get_messaging_server_port f =
    get_set_value f server_section (codes "Port") (codes "5672")
      (codes "The port that the RabbitMQ server listens to (default is 5672).")

unfoldable pub get_messaging_server_username : IniFile → Bytes × IniFile
get_messaging_server_username f =
    get_set_value f server_section (codes "Username") (codes "guest")
      (codes "The RabbitMQ username.")

unfoldable pub get_messaging_server_password : IniFile → Bytes × IniFile
get_messaging_server_password f =
    get_set_value f server_section (codes "Password") (codes "guest")
      (codes "The RabbitMQ user's password.")

unfoldable pub get_messaging_server_virtual_host : IniFile → Bytes × IniFile
get_messaging_server_virtual_host f =
    get_set_value f server_section (codes "VirtualHost") [] (codes "The RabbitMQ virtual host.")

abbrev pub office_section : Bytes
office_section = codes "PostOffice"

-- The texts of the four limits, which are read as doubles; the defaults are printed as such.
unfoldable pub get_receive_buffer_max_item_count : IniFile → Bytes × IniFile
get_receive_buffer_max_item_count f =
    get_set_value f office_section (codes "ReceiveBufferMaxItemCount") (codes "262144")
      (codes "Maximum item count for the receiving buffer.")

unfoldable pub get_receive_buffer_max_megabytes : IniFile → Bytes × IniFile
get_receive_buffer_max_megabytes f =
    get_set_value f office_section (codes "ReceiveBufferMaxMegabytes") (codes "256")
      (codes "Maximum size in megabytes for the receiving buffer.")

unfoldable pub get_send_buffer_max_item_count : IniFile → Bytes × IniFile
get_send_buffer_max_item_count f =
    get_set_value f office_section (codes "SendBufferMaxItemCount") (codes "262144")
      (codes "Maximum item count for the send buffer.")

unfoldable pub get_send_buffer_max_megabytes : IniFile → Bytes × IniFile
get_send_buffer_max_megabytes f =
    get_set_value f office_section (codes "SendBufferMaxMegabytes") (codes "256")
      (codes "Maximum size in megabytes for the send buffer.")

-- What a numrabw post office takes from its initializer.
pub record BufferLimits : Type 0 where
  pub recv_max_item_count : ℕ
  pub recv_max_byte_count : ℕ
  pub send_max_item_count : ℕ
  pub send_max_byte_count : ℕ

-- The limits of a `DefaultPostOfficeInitializer`.
unfoldable pub default_limits : BufferLimits
default_limits = record {
  recv_max_item_count = 262144;
  recv_max_byte_count = 256 * 1024 * 1024;
  send_max_item_count = 262144;
  send_max_byte_count = 256 * 1024 * 1024;
}

-- The first part of `ReadSettings`. `to_count` is the `size_t` that a text's number is cast to, and
-- `to_bytes` the one of the number times 1024 * 1024.
module _ (to_count to_bytes : Bytes → ℕ) where
  unfoldable pub read_limits : IniFile → BufferLimits × IniFile
  unfolding get_receive_buffer_max_item_count get_receive_buffer_max_megabytes
      get_send_buffer_max_item_count get_send_buffer_max_megabytes
  read_limits f =
      let (recv_items, f1) = get_receive_buffer_max_item_count f in
      let (recv_megabytes, f2) = get_receive_buffer_max_megabytes f1 in
      let (send_items, f3) = get_send_buffer_max_item_count f2 in
      let (send_megabytes, f4) = get_send_buffer_max_megabytes f3 in
      (
        record {
          recv_max_item_count = to_count recv_items;
          recv_max_byte_count = to_bytes recv_megabytes;
          send_max_item_count = to_count send_items;
          send_max_byte_count = to_bytes send_megabytes;
        },
        f4,
      )

-- The string that `CreatePostOffice` connects with.
unfoldable pub connect_info : Bytes → Bytes → Bytes → Bytes → Bytes → Bytes
connect_info host port username password vhost =
    let credentials : Bytes =
      if not (is_empty username) && not (is_empty password)
      then username ++ (b':' ∷ (password ++ (b'@' ∷ [])))
      else [] in
    let path : Bytes = if not (is_empty vhost) then b'/' ∷ vhost else [] in
    credentials ++ ((if is_empty host then codes "localhost" else host) ++ (b':' ∷ (port ++ path)))

-- The same, from a `DefaultPostOfficeInitializer`.
unfoldable pub default_connect_info : Bytes
unfolding connect_info
default_connect_info = connect_info [] (codes "5672") [] [] []

-- `port_text` is what `<<` prints of the `int` that `atof` gives for a text.
module _ (port_text : Bytes → Bytes) where
  -- The settings part of `CreatePostOffice`, from an ini file.
  unfoldable pub create_connect_info : IniFile → Bytes × IniFile
  unfolding connect_info get_messaging_server_host get_messaging_server_port
      get_messaging_server_username get_messaging_server_password get_messaging_server_virtual_host
  create_connect_info f =
      let (host, f1) = get_messaging_server_host f in
      let (port, f2) = get_messaging_server_port f1 in
      let (username, f3) = get_messaging_server_username f2 in
      let (password, f4) = get_messaging_server_password f3 in
      let (vhost, f5) = get_messaging_server_virtual_host f4 in
      (connect_info host (port_text port) username password vhost, f5)

-- `CheckInitialized`, and a call that is passed on to the post office behind it.
module _ {ℓ} {P : Type ℓ} where
  unfoldable pub check_initialized : Option P → Outcome P
  check_initialized none = throws runtime_error
  check_initialized (some p) = done p

  unfoldable pub pass_on {κ} : {A : Type κ} → (P → Outcome A) → Option P → Outcome A
  unfolding check_initialized
  pass_on call post_office = check_initialized post_office >>= call
