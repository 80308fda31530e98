-- ===== src/Numrabw/PostOffice/Handling/Arrival.antt =====
-- When a received message reaches the buffer, and as what.
use numcore_messaging_librar.Common.{
  Bool, ℕ, suc, lt→ltb, ◌≡◌, ◌≢◌, refl, ap, ◌∙◌, true, false, List, [], ◌∷◌, ◌++◌, Bytes,
  bytes_eq_of_ne, bytes_eq_refl, ltb, if◌then◌else◌, length, take, arith, ==_iff,
}
use numcore_messaging_librar.Outcome.{done}
use numcore_messaging_librar.Slaim.Message.{Message, get_size}
use numcore_messaging_librar.Slaim.ErrorLog.{ErrorLog, set_error}
use numcore_messaging_librar.Slaim.ErrorLog.Laws.{IsValid, set_error-done}
use numcore_messaging_librar.Numrabw.LimitedSizeBuffer.History.{items-push_back}
use numcore_messaging_librar.Numrabw.LimitedSizeBuffer.{LimitedSizeBuffer, push_back, run_calls}
use numcore_messaging_librar.Numrabw.PostOffice.Handling.{
  AmqpMessage, Inbox, Round, report, counted, wait_for_room, full_text, deliver,
  handle_received_message,
}

-- The library's message for what was published under the key, with the text.
abbrev pub published : Bytes → Bytes → AmqpMessage
published key text = record { routing_key = key; memory = text; message_length = length text }

take_all : (text : Bytes) → take (length text) text ≡ text
take_all [] = refl
take_all (c ∷ text) = ap (◌∷◌ c) (take_all text)

whole_text : (text : Bytes) → (if ltb 0 (length text) then take (length text) text else []) ≡ text
whole_text [] = refl
whole_text (c ∷ text) = rw (lt→ltb 0 (suc (length text)) (omega arith)) (ap (◌∷◌ c) (take_all text))

module _ (megabytes : ℕ → Bytes) (activity_key : Bytes) where
  -- A message that was published is delivered as it was sent, unless its key is the activity key.
  handle_received_message-published :
      (now : ℕ) (rounds : List Round) (msg : Message) (i : Inbox)
      → msg.type ≢ activity_key
      → handle_received_message megabytes activity_key now rounds (published msg.type msg.text) i
        ≡ deliver megabytes now rounds msg i
  unfolding handle_received_message
  handle_received_message-published now rounds msg i ne = rw (
    whole_text msg.text,
    bytes_eq_of_ne msg.type activity_key ne,
    (==_iff (length msg.text) (length msg.text)).1 refl,
  )

  -- The message of the activity key only ends the call that delivers it.
  handle_received_message-activity :
      (now : ℕ) (rounds : List Round) (m : AmqpMessage) (i : Inbox)
      → m.routing_key ≡ activity_key
      → handle_received_message megabytes activity_key now rounds m i ≡ done (1, i)
  unfolding handle_received_message
  handle_received_message-activity now rounds m i e = rw (e, bytes_eq_refl activity_key)

-- The buffer stays without room for the message through the rounds, and what is left of it.
pub data Blocked (msg : Message)
    : LimitedSizeBuffer Message → List Round → LimitedSizeBuffer Message → Type 0 where
  at_last : {b : LimitedSizeBuffer Message} → Blocked msg b [] b
  round :
      {b b' b'' : LimitedSizeBuffer Message} {r : Round} {rounds : List Round}
      → r.killed ≡ false
      → push_back get_size b msg ≡ (false, b)
      → run_calls get_size b r.meanwhile ≡ done b'
      → Blocked msg b' rounds b''
      → Blocked msg b (r ∷ rounds) b''

wait_for_room-Blocked :
    {msg : Message} {b b' : LimitedSizeBuffer Message} {rounds : List Round} (r : Round)
    (later : List Round) (i : Inbox)
    → Blocked msg b rounds b'
    → r.killed ≡ false
    → (push_back get_size b' msg).0 ≡ true
    → wait_for_room msg (rounds ++ (r ∷ later)) (record i { recv_buffer = b })
      ≡ done (0, counted r.now msg (push_back get_size b' msg).1 i)
unfolding wait_for_room counted
wait_for_room-Blocked r later i at_last alive free = rw (alive, free)
wait_for_room-Blocked r later i (round alive' full ran more) alive free =
    rw (alive', full, ran) (wait_for_room-Blocked r later i more alive free)

report-done :
    (text : Bytes) (i : Inbox)
    → IsValid i.error_log
    → (fresh : Bool) × (log : ErrorLog) × (set_error i.error_log text ≡ done (fresh, log))
      × (report text i ≡ done (record i { error_log = log }))
unfolding report
report-done text i v =
    let ((fresh, log), e) = set_error-done i.error_log text v in (fresh, log, e, rw e refl)

-- A message that is published under a key other than the activity key, while the buffer has no room
-- for it, is not lost: the lack of room is reported to the error log, which is valid, and as soon
-- as the client's calls have made room, unless the post office is destroyed first, the very message
-- is put behind the others.
pub handle_received_message-Blocked :
    (megabytes : ℕ → Bytes) (activity_key : Bytes) (now : ℕ) (msg : Message) (i : Inbox)
    {rounds : List Round} {b : LimitedSizeBuffer Message} (r : Round) (later : List Round)
    → msg.type ≢ activity_key
    → IsValid i.error_log
    → push_back get_size i.recv_buffer msg ≡ (false, i.recv_buffer)
    → Blocked msg i.recv_buffer rounds b
    → r.killed ≡ false
    → (push_back get_size b msg).0 ≡ true
    → (fresh : Bool) × (i' : Inbox) × (handle_received_message megabytes activity_key now
          (rounds ++ (r ∷ later))
          (published msg.type msg.text)
          i
        ≡ done (0, i'))
      × (i'.recv_buffer.items ≡ b.items ++ (msg ∷ []))
      × (set_error i.error_log (full_text megabytes msg i.recv_buffer) ≡ done (fresh, i'.error_log))
unfolding deliver counted
handle_received_message-Blocked megabytes activity_key now msg i {rounds} {b} r later ne v full
      blocked alive free =
    let (fresh, log, e, reported) = report-done (full_text megabytes msg i.recv_buffer) i v in
    (
      fresh,
      counted r.now msg (push_back get_size b msg).1 (record i { error_log = log }),
      handle_received_message-published megabytes activity_key now (rounds ++ (r ∷ later)) msg i ne
          ∙ rw (full, reported)
              (wait_for_room-Blocked r later (record i { error_log = log }) blocked alive free),
      items-push_back get_size b msg ∙ rw free,
      e,
    )
