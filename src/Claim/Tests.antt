-- ===== src/Claim/Tests.antt =====
-- Runs of the claim model, and its theorems at concrete inputs.
use numcore_messaging_librar.Common.{All, none, some, Option, Bytes, ◌*◌, false}
use numcore_messaging_librar.Outcome.{Outcome, throws, runtime_error}
use numcore_messaging_librar.Numcfc.IdGenerator.{
  named, ip_v4, get_hostname, get_ip_addresses, get_working_directory,
}
use numcore_messaging_librar.Numcfc.IdGenerator.Distinct.{IsAddress}
use numcore_messaging_librar.Numrabw.PostOffice.Receiver.{SubscribeAction}
use numcore_messaging_librar.Numrabw.PostOffice.Front.{get_client_address}
use numcore_messaging_librar.Numrabw.PostOffice.Construction.{Host, new_office}
use numcore_messaging_librar.Numrabw.PostOffice.Construction.Addresses.{
  IsTellable, get_client_address_inj,
}
use numcore_messaging_librar.Claim.PostOffice.{pass_on}
use numcore_messaging_librar.Claim.PostOffice.Creation.{
  Created, Surroundings, create_post_office, initialize,
}
use numcore_messaging_librar.Claim.PostOffice.Creation.Shown.{
  limits_of, shown_limits, create_post_office-shown,
}
use numcore_messaging_librar.Claim.ThroughputStatistics.{Throughput, get_throughput, total_bytes}
use numcore_messaging_librar.Claim.ThroughputStatistics.Window.{recent, get_throughput-recent}
use numcore_messaging_librar.Numcfc.IniFile.{new_ini_file, edit_run}
use numcore_messaging_librar.Numcfc.IniFile.Comment.{get_set_value}
use numcore_messaging_librar.Claim.PostOffice.{create_connect_info, connect_info}
use numcore_messaging_librar.Claim.PostOffice.Settings.{setting}
use numcore_messaging_librar.Common.{
  length, List, bytes_eq, ℕ, ◌≡◌, refl, true, Bool, [], ◌∷◌, ◌++◌, arith, codes, leb,
}
use numcore_messaging_librar.Outcome.{done}
use numcore_messaging_librar.Slaim.Message.{Message, empty_message}
use numcore_messaging_librar.Claim.AttributeMessage.{
  AttributeMessage, empty_attribute_message, assign_raw_message, get_raw_message,
}
use numcore_messaging_librar.OrderedMap.{compare_keys}
use numcore_messaging_librar.Claim.AttributeMessage.RoundTrip.{IsCarriable, assign-get_raw_message}
use numcore_messaging_librar.Claim.Streaming.{write_message_to_stream, read_message_from_stream}
use numcore_messaging_librar.Claim.Streaming.RoundTrip.{stream, read-write_message_to_stream}

abbrev status : AttributeMessage
status = record {
  body = codes "ok";
  type = codes "status";
  attributes = (codes "host", codes "a b") ∷ (codes "user", []) ∷ [];
}

status-IsCarriable : IsCarriable status
unfolding compare_keys
status-IsCarriable = record {
  sorted = ((refl, tt), (tt, tt));
  carried = (
    record { sendable = omega arith; not_body = λ e. cc },
    (record { sendable = omega arith; not_body = λ e. cc }, tt),
  );
  body_fits = omega arith;
}

assign-get_raw_message_example :
    assign_raw_message empty_attribute_message (get_raw_message status) ≡ done status
assign-get_raw_message_example =
    assign-get_raw_message empty_attribute_message status status-IsCarriable

abbrev small : ℕ → Bool
small n = leb n 1000

abbrev reading : Message
reading = record { type = codes "temp"; text = codes "21" }

read-write_message_to_stream_example :
    read_message_from_stream small
      (stream (write_message_to_stream reading ++ codes "x"))
      empty_message
    ≡ (true, reading, stream (codes "x"))
read-write_message_to_stream_example =
    read-write_message_to_stream small reading empty_message (codes "x")
      (record { positive = omega arith; fits = omega arith; granted = refl })
      (record { positive = omega arith; fits = omega arith; granted = refl })

abbrev silent : Message
silent = record { type = codes "temp"; text = [] }

abbrev untyped : Message
untyped = record { type = []; text = codes "21" }

default_info :
    (create_connect_info (λ text. text) new_ini_file).0 ≡ codes "guest:guest@localhost:5672"
unfolding create_connect_info new_ini_file bytes_eq get_set_value edit_run
default_info = refl

abbrev throughputs : List Throughput
throughputs =
    record { time = 1000000; bytes = 10 }
    ∷ record { time = 3000000; bytes = 20 }
    ∷ record { time = 6000000; bytes = 5 }
    ∷ []

get_throughput-recent_example : get_throughput 7000000 throughputs ≡ (
  (length (recent 7000000 throughputs), total_bytes (recent 7000000 throughputs)),
  recent 7000000 throughputs,
)
get_throughput-recent_example =
    get_throughput-recent 0 7000000 throughputs
      (omega arith, (omega arith, (omega arith, omega arith)))

abbrev lab : Host
lab = record {
  name = named (codes "lab");
  interfaces = ip_v4 (codes "127.0.0.1") ∷ ip_v4 (codes "10.0.0.5") ∷ [];
  directory = some (codes "/srv");
  guid = codes "7";
}

abbrev around : Surroundings (List SubscribeAction)
around = record {
  port_text = λ text. text;
  to_count = length;
  to_bytes = λ text. 1048576 * length text;
  empty = [];
  recv_memory = false;
  send_memory = false;
  host = lab;
}

create_post_office-shown_example :
    let f' = (create_post_office around (some (codes "probe")) new_ini_file).1 in
    let created = (create_post_office around (some (codes "probe")) new_ini_file).0 in
    (created.connect_string
      ≡ connect_info
          (setting f' (codes "Host"))
          (setting f' (codes "Port"))
          (setting f' (codes "Username"))
          (setting f' (codes "Password"))
          (setting f' (codes "VirtualHost")))
    × (limits_of created.office ≡ shown_limits length (λ text. 1048576 * length text) f')
create_post_office-shown_example =
    create_post_office-shown around (some (codes "probe")) new_ini_file

-- A call before `Initialize` throws, and one behind it reaches the post office.
abbrev address_of : Option (Created (List SubscribeAction)) → Outcome Bytes
address_of = pass_on (λ created. done (get_client_address created.office))

initialized :
    (address_of none ≡ throws runtime_error)
    × (address_of (initialize around (λ n. true) 0 (some (codes "probe")) new_ini_file none).1.0
        ≡ done (codes "probe @ hostname:lab,ipAddresses:[10.0.0.5],workingDirectory:/srv"))
unfolding initialize new_ini_file pass_on get_client_address bytes_eq
initialized = (refl, refl)

lab-IsAddress : All IsAddress (get_ip_addresses lab.interfaces)
unfolding get_ip_addresses bytes_eq
lab-IsAddress =
    (record { some_byte = ground arith; no_comma = ground arith; no_bracket = ground arith }, tt)

lab-IsTellable : IsTellable (some (codes "probe")) lab
unfolding get_hostname
lab-IsTellable = record {
  no_at = ground arith;
  no_comma = ground arith;
  are_addresses = lab-IsAddress;
}

get_client_address_inj_example :
    (codes "probe" ≡ codes "probe")
    × (get_hostname lab.name ≡ get_hostname lab.name)
    × (get_ip_addresses lab.interfaces ≡ get_ip_addresses lab.interfaces)
    × (get_working_directory lab.directory ≡ get_working_directory lab.directory)
unfolding new_office get_client_address
get_client_address_inj_example =
    get_client_address_inj {Q = List SubscribeAction} [] false true true false
      (some (codes "probe")) (some (codes "probe")) lab lab lab-IsTellable lab-IsTellable refl
