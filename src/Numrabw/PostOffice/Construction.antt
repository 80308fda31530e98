-- ===== src/Numrabw/PostOffice/Construction.antt =====
-- The constructors of `PostOffice` and its `Pimpl`.
pub mod Addresses
use numcore_messaging_librar.Common.{
  ℕ, Bool, true, false, List, [], ◌++◌, Option, none, some, Bytes, codes,
}
use numcore_messaging_librar.Slaim.ErrorLog.{new_error_log}
use numcore_messaging_librar.Numrabw.LimitedSizeBuffer.{new_buffer}
use numcore_messaging_librar.Numcfc.IdGenerator.{
  Answer, get_hostname, Interface, get_ip_addresses, get_working_directory, generate_id,
}
use numcore_messaging_librar.Numrabw.PostOffice.Front.{Office}

-- What the system answers, and the text of a new GUID.
pub record Host : Type 0 where
  pub name : Answer
  pub interfaces : List Interface
  pub directory : Option Bytes
  pub guid : Bytes

abbrev pub or_unknown : Option Bytes → Bytes
or_unknown none = codes "unknown"
or_unknown (some client_identifier) = client_identifier

-- `clientIdentifier` of the `Pimpl`
unfoldable pub full_identifier : Option Bytes → Host → Bytes
unfolding generate_id get_hostname get_ip_addresses get_working_directory
full_identifier client_identifier host =
    or_unknown client_identifier
    ++ (codes " @ "
        ++ generate_id (get_hostname host.name) (get_ip_addresses host.interfaces)
            (get_working_directory host.directory))

-- The threads, which start at once, find the office like this. `empty` is a new shared buffer; the
-- flags of the two buffers are what their memory held.
unfoldable pub new_office : {Q : Type 0} → Q → Bool → Bool → Option Bytes → Host → Office Q
unfolding full_identifier new_buffer new_error_log
new_office empty recv_memory send_memory client_identifier host = record {
  client_identifier = full_identifier client_identifier host;
  receiver_ok = false;
  sender_ok = false;
  killed = false;
  activity_key = codes "numrabw_activity_" ++ host.guid;
  pending = empty;
  recv_buffer = new_buffer recv_memory;
  send_buffer = new_buffer send_memory;
  error_log = new_error_log 10;
  activity_futures = [];
}
