-- ===== src/Numrabw/PostOffice/Handling.antt =====
-- A received message, `HandleReceivedMessage`.
pub mod Arrival
use numcore_messaging_librar.Common.{
  ℕ, Bool, true, false, not, List, [], ◌∷◌, ◌++◌, Bytes, codes, bytes_eq, ltb, ◌==◌, if◌then◌else◌,
  length, take,
}
use numcore_messaging_librar.Decimal.{decimal}
use numcore_messaging_librar.Outcome.{Outcome, done, out_of_fuel, ◌>>=◌}
use numcore_messaging_librar.Slaim.Message.{Message, get_type, get_size}
use numcore_messaging_librar.Slaim.ErrorLog.{ErrorLog, set_error}
use numcore_messaging_librar.Claim.ThroughputStatistics.{Throughput, add_throughput}
use numcore_messaging_librar.Numrabw.LimitedSizeBuffer.{
  LimitedSizeBuffer, Call, push_back, get_item_and_byte_count, run_calls,
}

-- What the AMQP library hands over: the memory from the message's first byte on, and its length.
pub record AmqpMessage : Type 0 where
  pub routing_key : Bytes
  pub memory : Bytes
  pub message_length : ℕ

pub record Inbox : Type 0 where
  pub recv_buffer : LimitedSizeBuffer Message
  pub recv_throughput : List Throughput
  pub error_log : ErrorLog

-- A round of the loop that waits for room: whether `killed` is seen, the time, and what the client
-- calls while the thread sleeps.
pub record Round : Type 0 where
  pub killed : Bool
  pub now : ℕ
  pub meanwhile : List (Call Message)

unfoldable pub report : Bytes → Inbox → Outcome Inbox
unfolding set_error
report text i = set_error i.error_log text >>= λ r. done (record i { error_log = r.1 })

-- `recvBuffer.push_back(msg)` has succeeded.
unfoldable pub counted : ℕ → Message → LimitedSizeBuffer Message → Inbox → Inbox
unfolding get_size add_throughput
counted now msg b i = record i {
  recv_buffer = b;
  recv_throughput = add_throughput now (get_size msg) i.recv_throughput;
}

unfoldable pub wait_for_room : Message → List Round → Inbox → Outcome (ℕ × Inbox)
unfolding push_back counted run_calls
wait_for_room msg [] i = out_of_fuel
wait_for_room msg (r ∷ rounds) i =
    let (accepted, b) = push_back get_size i.recv_buffer msg in
    let later : Outcome (ℕ × Inbox) = run_calls get_size b r.meanwhile >>= λ b'.
    wait_for_room msg rounds (record i { recv_buffer = b' }) in
    if r.killed then done (0, i) else if accepted then done (0, counted r.now msg b i) else later

-- `megabytes` is what `<<` prints of a number of bytes divided by 1024.0 * 1024.0.
module _ (megabytes : ℕ → Bytes) where
  unfoldable pub full_text : Message → LimitedSizeBuffer Message → Bytes
  unfolding get_item_and_byte_count decimal get_type
  full_text msg b =
      let (items, bytes) = get_item_and_byte_count b in
      codes "Unable to push to the received messages buffer! Buffer full? (Message type = "
      ++ (get_type msg
          ++ (codes "; the buffer currently has "
              ++ (decimal items
                  ++ (codes " items totaling " ++ (megabytes bytes ++ codes " MB.)")))))

  unfoldable pub deliver : ℕ → List Round → Message → Inbox → Outcome (ℕ × Inbox)
  unfolding push_back counted report full_text wait_for_room
  deliver now rounds msg i =
      let (accepted, b) = push_back get_size i.recv_buffer msg in
      if accepted
      then done (0, counted now msg b i)
      else (report (full_text msg i.recv_buffer) i >>= wait_for_room msg rounds)

  unfoldable pub mismatch_text : ℕ → ℕ → Bytes
  unfolding decimal
  mismatch_text expected found =
      codes "Message size mismatch: " ++ (decimal expected ++ (codes " != " ++ decimal found))

  unfoldable pub handle_received_message :
      Bytes → ℕ → List Round → AmqpMessage → Inbox → Outcome (ℕ × Inbox)
  unfolding deliver report mismatch_text
  handle_received_message activity_key now rounds m i =
      let text : Bytes = if ltb 0 m.message_length then take m.message_length m.memory else [] in
      let whole = length text == m.message_length in
      if bytes_eq m.routing_key activity_key
      then done (1, i)
      else if whole
      then deliver now rounds (record { type = m.routing_key; text = text }) i
      else (report (mismatch_text m.message_length (length text)) i >>= λ i'. done (2, i'))
