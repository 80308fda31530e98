-- ===== src/Numrabw/PostOffice/Status.antt =====
-- The status message, `GetStatusMessage`. Times are in microseconds.
pub mod Carried
pub mod Decoding
use numcore_messaging_librar.Common.{
  ℕ, ◌-◌, Bool, not, ◌&&◌, ◌||◌, [], ◌++◌, List, Bytes, codes, ltb, leb, if◌then◌else◌,
}
use numcore_messaging_librar.Decimal.{decimal}
use numcore_messaging_librar.OrderedMap.{OrderedMap, assign}
use numcore_messaging_librar.Outcome.{Outcome, done, aborts}
use numcore_messaging_librar.Slaim.Message.{Message}
use numcore_messaging_librar.Claim.AttributeMessage.{
  AttributeMessage, empty_attribute_message, get_raw_message,
}
use numcore_messaging_librar.Claim.ThroughputStatistics.{Throughput, get_throughput}
use numcore_messaging_librar.Numrabw.LimitedSizeBuffer.{
  LimitedSizeBuffer, is_nil, get_item_and_byte_count,
}

-- What the system's calls answer while the message is made: `GetHostname`, `cuserid`,
-- `GetWorkingDirectory`, and the current time in its extended ISO form.
pub record Machine : Type 0 where
  pub host_name : Bytes
  pub user_name : Bytes
  pub working_directory : Bytes
  pub current_time : Bytes

-- The members of `Pimpl` that the message is made of; `time_started` in its extended ISO form.
pub record Station : Type 0 where
  pub client_identifier : Bytes
  pub time_started : Bytes
  pub hostname : Bytes
  pub hostname_checked : ℕ
  pub username : Bytes
  pub recv_buffer : LimitedSizeBuffer Message
  pub send_buffer : LimitedSizeBuffer Message
  pub recv_throughput : List Throughput
  pub send_throughput : List Throughput

unfoldable pub check_hostname : ℕ → Machine → Station → Station
check_hostname now m s =
    if is_nil s.hostname || leb 60000000 (now - s.hostname_checked)
    then record s { hostname = m.host_name; hostname_checked = now; username = m.user_name }
    else s

-- `assert((size.first > 0) == (size.second > 0))`
unfoldable pub counts_agree : ℕ × ℕ → Bool
counts_agree (items, bytes) = if ltb 0 items then ltb 0 bytes else not (ltb 0 bytes)

abbrev pub status_type : Bytes
status_type = codes "__claim_MsgStatus"

-- `timestamp` is the build's `__TIMESTAMP__`, and `rate` what `<<` prints of a number divided by the
-- length of the window of the throughput statistics.
unfoldable pub get_version : Bytes → Bytes
get_version timestamp = codes "3.0 - " ++ timestamp

unfoldable pub describe_station : Bytes → Station → OrderedMap Bytes → OrderedMap Bytes
unfolding assign get_version
describe_station timestamp s m = assign (codes "postoffice_version") (get_version timestamp) (
    assign (codes "username") s.username (
      assign (codes "hostname") s.hostname (assign (codes "client_address") s.client_identifier m)))

unfoldable pub describe_buffers : Station → OrderedMap Bytes → OrderedMap Bytes
unfolding assign decimal get_item_and_byte_count
describe_buffers s m =
    let (recv_items, recv_bytes) = get_item_and_byte_count s.recv_buffer in
    let (send_items, send_bytes) = get_item_and_byte_count s.send_buffer in
    assign (codes "send_buf_byte_count") (decimal send_bytes) (
      assign (codes "send_buf_item_count") (decimal send_items) (
        assign (codes "recv_buf_byte_count") (decimal recv_bytes)
          (assign (codes "recv_buf_item_count") (decimal recv_items) m)))

unfoldable pub describe_throughput :
    (ℕ → Bytes) → ℕ × ℕ → ℕ × ℕ → OrderedMap Bytes → OrderedMap Bytes
unfolding assign
describe_throughput rate (recv_items, recv_bytes) (sent_items, sent_bytes) m =
    assign (codes "sent_bytes_per_sec") (rate sent_bytes) (
      assign (codes "sent_items_per_sec") (rate sent_items) (
        assign (codes "recv_bytes_per_sec") (rate recv_bytes)
          (assign (codes "recv_items_per_sec") (rate recv_items) m)))

unfoldable pub describe_times : Machine → Station → OrderedMap Bytes → OrderedMap Bytes
unfolding assign
describe_times machine s m = assign (codes "working_dir") machine.working_directory (
    assign (codes "time_started_utc") s.time_started
      (assign (codes "time_current_utc") machine.current_time m))

module _ (timestamp : Bytes) (rate : ℕ → Bytes) where
  -- The attribute message, from the station whose host name has been checked and whose throughput
  -- statistics have been asked.
  unfoldable pub status : Machine → Station → ℕ × ℕ → ℕ × ℕ → AttributeMessage
  unfolding describe_station describe_buffers describe_throughput describe_times
  status machine s received sent = record empty_attribute_message {
    attributes = describe_times machine s (
        describe_throughput rate received sent
          (describe_buffers s (describe_station timestamp s [])));
    type = status_type;
  }

  unfoldable pub get_status_message : ℕ → Machine → Station → Outcome (Message × Station)
  unfolding check_hostname counts_agree get_item_and_byte_count get_throughput status
      get_raw_message
  get_status_message now machine station =
      let s = check_hostname now machine station in
      let (received, recv_kept) = get_throughput now s.recv_throughput in
      let (sent, send_kept) = get_throughput now s.send_throughput in
      if counts_agree (get_item_and_byte_count s.recv_buffer)
        && counts_agree (get_item_and_byte_count s.send_buffer)
      then done (
        get_raw_message (status machine s received sent),
        record s { recv_throughput = recv_kept; send_throughput = send_kept },
      )
      else aborts
