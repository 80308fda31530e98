-- ===== src/Numrabw/PostOffice/Front.antt =====
-- The calls of the client, the public methods of `PostOffice`. The threads are Receiver and Sender.
pub mod Sends
use numcore_messaging_librar.Common.{
  ℕ, Bool, true, false, not, ◌&&◌, List, [], ◌∷◌, ◌++◌, Bytes, codes, if◌then◌else◌,
}
use numcore_messaging_librar.Decimal.{decimal}
use numcore_messaging_librar.Outcome.{Outcome, done, ◌>>=◌}
use numcore_messaging_librar.Slaim.Message.{Message, get_type, get_size}
use numcore_messaging_librar.Slaim.ErrorLog.{ErrorLog, set_error, get_error}
use numcore_messaging_librar.Claim.PostOffice.{BufferLimits}
use numcore_messaging_librar.Numrabw.LimitedSizeBuffer.{
  LimitedSizeBuffer, Script, Popped, push_back, pop_front, get_item_and_byte_count,
  set_max_item_count, set_max_byte_count,
}
use numcore_messaging_librar.Numrabw.PostOffice.Receiver.{SubscribeAction, SharedBuffer}
use numcore_messaging_librar.Numrabw.PostOffice.{
  AmqpCall, connects, declares_exchange, publishes, exchange_name, Link, Reply, returned, raised,
  waiting, amqp_call, ◌>>=◌ as ◌>=>◌,
}

-- The members of `Pimpl` that the client's calls use. A future is its number.
pub record Office (Q : Type 0) : Type 0 where
  pub client_identifier : Bytes
  pub receiver_ok : Bool
  pub sender_ok : Bool
  pub killed : Bool
  pub activity_key : Bytes
  pub pending : Q
  pub recv_buffer : LimitedSizeBuffer Message
  pub send_buffer : LimitedSizeBuffer Message
  pub error_log : ErrorLog
  pub activity_futures : List ℕ

-- The loop of `Activity`; `ready` are the futures whose `wait_for` says so.
unfoldable pub drop_ready : (ℕ → Bool) → List ℕ → List ℕ
drop_ready ready [] = []
drop_ready ready (f ∷ fs) = let rest = drop_ready ready fs in if ready f then rest else f ∷ rest

module _ {Q : Type 0} where
  unfoldable pub is_ok : Office Q → Bool
  is_ok o = o.receiver_ok && o.sender_ok

  unfoldable pub get_client_address : Office Q → Bytes
  get_client_address o = o.client_identifier

  unfoldable pub get_error_of : Office Q → Bytes × Office Q
  unfolding get_error
  get_error_of o = let (e, log) = get_error o.error_log in (e, record o { error_log = log })

  -- `Activity` starts the asynchronous call as the future `fresh`.
  unfoldable pub activity : (ℕ → Bool) → ℕ → Office Q → Office Q
  unfolding drop_ready
  activity ready fresh o = record o {
    activity_futures = drop_ready ready o.activity_futures ++ (fresh ∷ []);
  }

  -- The rest of the destructor waits: for each future, and for the two threads.
  unfoldable pub shut_down : (ℕ → Bool) → ℕ → Office Q → Office Q
  unfolding activity
  shut_down ready fresh o = record (activity ready fresh (record o { killed = true })) {
    activity_futures = [];
  }

  unfoldable pub receive : ℕ → Script Message → Office Q → Outcome (Popped Message)
  unfolding pop_front
  receive max_wait script o = pop_front get_size o.recv_buffer max_wait script

  unfoldable pub read_settings : BufferLimits → Office Q → Office Q
  unfolding set_max_item_count set_max_byte_count
  read_settings l o = record o {
    recv_buffer =
        set_max_byte_count (set_max_item_count o.recv_buffer l.recv_max_item_count)
          l.recv_max_byte_count;
    send_buffer =
        set_max_byte_count (set_max_item_count o.send_buffer l.send_max_item_count)
          l.send_max_byte_count;
  }

-- The body of the asynchronous call; what it throws is reported.
unfoldable pub report_raised : Reply Link → ErrorLog → Outcome (Link × ErrorLog)
unfolding set_error
report_raised (returned l) log = done (l, log)
report_raised (waiting l) log = done (l, log)
report_raised (raised w l) log = set_error log w >>= λ r. done (l, r.1)

unfoldable pub run_activity : Bytes → Bytes → Link → ErrorLog → Outcome (Link × ErrorLog)
unfolding amqp_call report_raised
run_activity connect_string activity_key l log =
    report_raised
      (amqp_call (connects connect_string) l
        >=> amqp_call (declares_exchange exchange_name)
        >=> amqp_call (publishes [] activity_key))
      log

module _ {Q : Type 0} (shared : SharedBuffer SubscribeAction Q) where
  unfoldable pub subscribe : (ℕ → Bool) → ℕ → Bytes → Office Q → Office Q
  unfolding activity
  subscribe ready fresh type o = activity ready fresh (record o {
    pending = shared.push_back o.pending (record { subscribe = true; message_type = type });
  })

  unfoldable pub unsubscribe : (ℕ → Bool) → ℕ → Bytes → Office Q → Office Q
  unfolding activity
  unsubscribe ready fresh type o = activity ready fresh (record o {
    pending = shared.push_back o.pending (record { subscribe = false; message_type = type });
  })

-- `megabytes` is what `<<` prints of a number of bytes divided by 1024.0 * 1024.0.
module _ (megabytes : ℕ → Bytes) where
  unfoldable pub full_text : Message → LimitedSizeBuffer Message → Bytes
  unfolding get_item_and_byte_count decimal get_type
  full_text msg b =
      let (items, bytes) = get_item_and_byte_count b in
      codes "Unable to push to the messages being sent buffer! Buffer full? (Message type = "
      ++ (get_type msg
          ++ (codes "; the buffer currently has "
              ++ (decimal items
                  ++ (codes " items totaling " ++ (megabytes bytes ++ codes " MB.)")))))

  unfoldable pub send : {Q : Type 0} → Message → Office Q → Outcome (Bool × Office Q)
  unfolding push_back full_text set_error
  send {Q} msg o =
      let (accepted, b) = push_back get_size o.send_buffer msg in
      let refused : Outcome (Bool × Office Q) = set_error o.error_log (full_text msg b) >>= λ r.
      done (false, record o { send_buffer = b; error_log = r.1 }) in
      if accepted then done (true, record o { send_buffer = b }) else refused
