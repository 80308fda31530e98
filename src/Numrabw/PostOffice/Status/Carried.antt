-- ===== src/Numrabw/PostOffice/Status/Carried.antt =====
-- The attributes of a status message as the parts of a raw message.
use numcore_messaging_librar.Common.{
  ℕ, ◌^◌, ◌≤◌, ◌<◌, ◌≢◌, [], ◌∷◌, Bytes, codes, Lacks, All, length, arith,
}
use numcore_messaging_librar.Decimal.{decimal}
use numcore_messaging_librar.Decimal.Bounds.{length-decimal}
use numcore_messaging_librar.OrderedMap.{OrderedMap, assign}
use numcore_messaging_librar.OrderedMap.Laws.{IsSorted, assign-IsSorted}
use numcore_messaging_librar.Claim.AttributeMessage.{body_type}
use numcore_messaging_librar.Claim.AttributeMessage.RoundTrip.{IsCarried}
use numcore_messaging_librar.Numrabw.LimitedSizeBuffer.{get_item_and_byte_count}
use numcore_messaging_librar.Numrabw.PostOffice.Status.{
  Machine, Station, get_version, describe_station, describe_buffers, describe_throughput,
  describe_times,
}

-- Short enough for the wire format, by far.
abbrev pub IsShort : Bytes → Type 0
IsShort s = length s ≤ 1000000

decimal-IsShort : (n : ℕ) → n < 2 ^ 64 → IsShort (decimal n)
decimal-IsShort n h = omega (arith, length-decimal 19 n (omega arith))

-- A map of attributes that a raw message can carry.
abbrev pub Carries : OrderedMap Bytes → Type 0
Carries m = IsSorted m × All IsCarried m

All-assign :
    (key value : Bytes) (m : OrderedMap Bytes)
    → IsCarried (key, value)
    → All IsCarried m
    → All IsCarried (assign key value m)
unfolding assign
All-assign key value [] c h = (c, tt)
All-assign key value ((k, w) ∷ m) c h = ground (arith, All-assign key value m c h.1)

carry :
    (key value : Bytes) (m : OrderedMap Bytes)
    → Lacks b' ' key
    → 1 ≤ length key
    → length key ≤ 100
    → key ≢ body_type
    → IsShort value
    → Carries m
    → Carries (assign key value m)
carry key value m blank some_byte short other v h = (
  assign-IsSorted key value m h.0,
  All-assign key value m
      (record {
        sendable = record { no_blank = blank; not_empty = omega arith; fits = omega arith };
        not_body = other;
      })
      h.1,
)

-- The texts that come from the system and from the construction are short, the rates are printed
-- in a short form, and the counts fit `size_t`.
pub record IsPrintable (timestamp : Bytes) (rate : ℕ → Bytes) (machine : Machine) (s : Station)
    : Type 0 where
  pub version : IsShort (get_version timestamp)
  pub rates : (n : ℕ) → IsShort (rate n)
  pub client : IsShort s.client_identifier
  pub host : IsShort s.hostname
  pub user : IsShort s.username
  pub directory : IsShort machine.working_directory
  pub current : IsShort machine.current_time
  pub started : IsShort s.time_started
  pub recv_items : length s.recv_buffer.items < 2 ^ 64
  pub recv_bytes : s.recv_buffer.current_byte_count < 2 ^ 64
  pub send_items : length s.send_buffer.items < 2 ^ 64
  pub send_bytes : s.send_buffer.current_byte_count < 2 ^ 64

module _ (timestamp : Bytes) (rate : ℕ → Bytes) (machine : Machine) (s : Station)
    (v : IsPrintable timestamp rate machine s) (m : OrderedMap Bytes) (h : Carries m) where
  pub describe_station-Carries : Carries (describe_station timestamp s m)
  unfolding describe_station
  describe_station-Carries =
      carry (codes "postoffice_version") _ _ (ground arith) (omega arith) (omega arith)
        (ground arith) (v.version)
        (carry (codes "username") _ _ (ground arith) (omega arith) (omega arith) (ground arith)
          (v.user)
          (carry (codes "hostname") _ _ (ground arith) (omega arith) (omega arith) (ground arith)
            (v.host)
            (carry (codes "client_address") _ m (ground arith) (omega arith) (omega arith)
              (ground arith) (v.client) h)))

  pub describe_buffers-Carries : Carries (describe_buffers s m)
  unfolding describe_buffers get_item_and_byte_count
  describe_buffers-Carries =
      carry (codes "send_buf_byte_count") _ _ (ground arith) (omega arith) (omega arith)
        (ground arith) (decimal-IsShort _ v.send_bytes)
        (carry (codes "send_buf_item_count") _ _ (ground arith) (omega arith) (omega arith)
          (ground arith) (decimal-IsShort _ v.send_items)
          (carry (codes "recv_buf_byte_count") _ _ (ground arith) (omega arith) (omega arith)
            (ground arith) (decimal-IsShort _ v.recv_bytes)
            (carry (codes "recv_buf_item_count") _ m (ground arith) (omega arith) (omega arith)
              (ground arith) (decimal-IsShort _ v.recv_items) h)))

  pub describe_throughput-Carries :
      (received sent : ℕ × ℕ) → Carries (describe_throughput rate received sent m)
  unfolding describe_throughput
  describe_throughput-Carries received sent =
      carry (codes "sent_bytes_per_sec") _ _ (ground arith) (omega arith) (omega arith)
        (ground arith) (v.rates sent.1)
        (carry (codes "sent_items_per_sec") _ _ (ground arith) (omega arith) (omega arith)
          (ground arith) (v.rates sent.0)
          (carry (codes "recv_bytes_per_sec") _ _ (ground arith) (omega arith) (omega arith)
            (ground arith) (v.rates received.1)
            (carry (codes "recv_items_per_sec") _ m (ground arith) (omega arith) (omega arith)
              (ground arith) (v.rates received.0) h)))

  pub describe_times-Carries : Carries (describe_times machine s m)
  unfolding describe_times
  describe_times-Carries =
      carry (codes "working_dir") _ _ (ground arith) (omega arith) (omega arith) (ground arith)
        (v.directory)
        (carry (codes "time_started_utc") _ _ (ground arith) (omega arith) (omega arith)
          (ground arith) (v.started)
          (carry (codes "time_current_utc") _ m (ground arith) (omega arith) (omega arith)
            (ground arith) (v.current) h))
