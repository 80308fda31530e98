-- ===== src/Numrabw/PostOffice/Status/Decoding.antt =====
-- What another program reads in a status message.
use numcore_messaging_librar.Common.{
  ℕ, ◌≡◌, refl, ap, true, List, [], ◌∷◌, some, Bytes, codes, length, arith,
}
use numcore_messaging_librar.Decimal.{decimal}
use numcore_messaging_librar.OrderedMap.{compare_keys, assign, find}
use numcore_messaging_librar.Outcome.{done}
use numcore_messaging_librar.Slaim.Message.{Message, get_size}
use numcore_messaging_librar.Claim.AttributeMessage.{
  AttributeMessage, assign_raw_message, get_raw_message,
}
use numcore_messaging_librar.Claim.AttributeMessage.RoundTrip.{IsCarriable, assign-get_raw_message}
use numcore_messaging_librar.Claim.ThroughputStatistics.{get_throughput}
use numcore_messaging_librar.Numrabw.LimitedSizeBuffer.{LimitedSizeBuffer, get_item_and_byte_count}
use numcore_messaging_librar.Numrabw.LimitedSizeBuffer.Invariant.{total, IsCounted, ArePositive}
use numcore_messaging_librar.Numrabw.PostOffice.Status.{
  Machine, Station, check_hostname, counts_agree, status_type, describe_station, describe_buffers,
  describe_throughput, describe_times, status, get_status_message,
}
use numcore_messaging_librar.Numrabw.PostOffice.Status.Carried.{
  IsPrintable, describe_station-Carries, describe_buffers-Carries, describe_throughput-Carries,
  describe_times-Carries,
}

-- A buffer that counts the bytes of its items, each of which has some.
pub record IsSound (b : LimitedSizeBuffer Message) : Type 0 where
  pub counted : IsCounted get_size b
  pub positive : ArePositive get_size b.items

total_agrees :
    (items : List Message) (bytes : ℕ)
    → bytes ≡ total get_size items
    → ArePositive get_size items
    → counts_agree (length items, bytes) ≡ true
unfolding counts_agree
total_agrees [] bytes e p = ground arith
total_agrees (msg ∷ items) bytes e p = ground (arith, p.0)

counts_agree-IsSound :
    (b : LimitedSizeBuffer Message) → IsSound b → counts_agree (get_item_and_byte_count b) ≡ true
unfolding get_item_and_byte_count
counts_agree-IsSound b v = total_agrees b.items b.current_byte_count v.counted.exact v.positive

-- What the attributes of a status message say of a station.
pub record Reports (s : Station) (am : AttributeMessage) : Type 0 where
  pub of_type : am.type ≡ status_type
  pub client_address : find (codes "client_address") am.attributes ≡ some s.client_identifier
  pub hostname : find (codes "hostname") am.attributes ≡ some s.hostname
  pub recv_items :
      find (codes "recv_buf_item_count") am.attributes ≡ some (decimal (length s.recv_buffer.items))
  pub recv_bytes :
      find (codes "recv_buf_byte_count") am.attributes
      ≡ some (decimal (total get_size s.recv_buffer.items))
  pub send_items :
      find (codes "send_buf_item_count") am.attributes ≡ some (decimal (length s.send_buffer.items))
  pub send_bytes :
      find (codes "send_buf_byte_count") am.attributes
      ≡ some (decimal (total get_size s.send_buffer.items))

module _ (timestamp : Bytes) (rate : ℕ → Bytes) (machine : Machine) where
  status-IsCarriable :
      (s : Station) (received sent : ℕ × ℕ)
      → IsPrintable timestamp rate machine s
      → IsCarriable (status timestamp rate machine s received sent)
  unfolding status
  status-IsCarriable s received sent v =
      let m0 = describe_station-Carries timestamp rate machine s v [] (tt, tt) in
      let m1 = describe_buffers-Carries timestamp rate machine s v _ m0 in
      let m2 = describe_throughput-Carries timestamp rate machine s v _ m1 received sent in
      let m3 = describe_times-Carries timestamp rate machine s v _ m2 in
      record { sorted = m3.0; carried = m3.1; body_fits = omega arith }

  status-Reports :
      (s : Station) (received sent : ℕ × ℕ)
      → IsSound s.recv_buffer
      → IsSound s.send_buffer
      → Reports s (status timestamp rate machine s received sent)
  unfolding status describe_station describe_buffers describe_throughput describe_times
      get_item_and_byte_count assign find compare_keys
  status-Reports s received sent v w = record {
    of_type = refl;
    client_address = refl;
    hostname = refl;
    recv_items = refl;
    recv_bytes = ap (λ n. some (decimal n)) v.counted.exact;
    send_items = refl;
    send_bytes = ap (λ n. some (decimal n)) w.counted.exact;
  }

  -- Of a station whose buffers count their bytes, each item with some, a status message is made,
  -- no assert fails, and a program that assigns it to an attribute message reads there the
  -- client's identifier, the host, and the true numbers of items and bytes of both buffers. The
  -- texts that go into it are short, and the numbers fit `size_t`.
  pub assign-get_status_message :
      (now : ℕ) (station : Station) (target : AttributeMessage)
      → let s = check_hostname now machine station in
        IsPrintable timestamp rate machine s
        → IsSound s.recv_buffer
        → IsSound s.send_buffer
        → (msg : Message) × (kept : Station) × (am : AttributeMessage) × (get_status_message
              timestamp rate now machine station
            ≡ done (msg, kept))
          × (assign_raw_message target msg ≡ done am)
          × Reports s am
  unfolding get_status_message
  assign-get_status_message now station target v recv send =
      let s : Station = check_hostname now machine station in
      let received : ℕ × ℕ = (get_throughput now s.recv_throughput).0 in
      let sent : ℕ × ℕ = (get_throughput now s.send_throughput).0 in
      let am : AttributeMessage = status timestamp rate machine s received sent in
      (
        get_raw_message am,
        record s {
          recv_throughput = (get_throughput now s.recv_throughput).1;
          send_throughput = (get_throughput now s.send_throughput).1;
        },
        am,
        rw (counts_agree-IsSound s.recv_buffer recv, counts_agree-IsSound s.send_buffer send) refl,
        assign-get_raw_message target am (status-IsCarriable s received sent v),
        status-Reports s received sent recv send,
      )
