-- ===== src/Numrabw/PostOffice/Sender.antt =====
-- The sender's thread, `RunSenderThread`. Times are in microseconds since one second before the
-- steady clock's epoch.
pub mod Delivery
pub mod Pace
use numcore_messaging_librar.Common.{
  ℕ, ◌+◌, ◌-◌, ◌%◌, List, [], ◌∷◌, Option, none, some, Bytes, leb, if◌then◌else◌,
}
use numcore_messaging_librar.Outcome.{Outcome, done, ◌>>=◌}
use numcore_messaging_librar.Slaim.Message.{Message, get_size}
use numcore_messaging_librar.Claim.ThroughputStatistics.{add_throughput}
use numcore_messaging_librar.Numrabw.LimitedSizeBuffer.{
  LimitedSizeBuffer, Script, Popped, pop_front,
}
use numcore_messaging_librar.Numrabw.PostOffice.Status.{Machine, Station, get_status_message}
use numcore_messaging_librar.Numrabw.PostOffice.{
  AmqpCall, connects, declares_exchange, publishes, exchange_name, Link, Reply, returned, raised,
  waiting, amqp_call,
}

pub record Sending : Type 0 where
  pub link : Link
  pub station : Station
  pub next_status : ℕ
  pub max_wait : ℕ

-- What a round meets: the script of `pop_front`, the time when a message has been sent, the time
-- that is compared to that of the next status and at which the status message is made, and the
-- system's answers.
pub record SendRound : Type 0 where
  pub script : Script Message
  pub sent : ℕ
  pub now : ℕ
  pub machine : Machine

abbrev pub with_link : Sending → Reply Link → Reply Sending
with_link s (returned l) = returned (record s { link = l })
with_link s (raised w l) = raised w (record s { link = l })
with_link s (waiting l) = waiting (record s { link = l })

-- An exception skips the rest.
abbrev pub and_then : Reply Sending → (Sending → Outcome (Reply Sending)) → Outcome (Reply Sending)
and_then (returned s) f = f s
and_then (raised w s) f = done (raised w s)
and_then (waiting s) f = done (waiting s)

unfoldable pub publish : Message → Sending → Reply Sending
unfolding amqp_call
publish msg s = with_link s (amqp_call (publishes msg.text msg.type) s.link)

-- From the clock's readings: the steady time, and the system's time since its epoch.
unfoldable pub first_status_time : ℕ → ℕ → ℕ
first_status_time steady system = steady - system % 1000000

unfoldable pub open_session : Bytes → ℕ → ℕ → Sending → Outcome (Reply Sending)
unfolding amqp_call first_status_time
open_session connect_string steady system s =
    and_then (with_link s (amqp_call (connects connect_string) s.link)) (λ s1.
      and_then (with_link s1 (amqp_call (declares_exchange exchange_name) s1.link)) (λ s2.
        done
          (returned (record s2 { next_status = first_status_time steady system; max_wait = 0 }))))

-- `sendThroughput.AddThroughput(msg.GetSize())`
unfoldable pub count_sent : ℕ → Message → Sending → Sending
unfolding add_throughput get_size
count_sent now msg s = record s {
  station = record (s.station) {
    send_throughput = add_throughput now (get_size msg) s.station.send_throughput;
  };
}

-- The message has left the buffer before it is published.
unfoldable pub send_popped : ℕ → Sending → Popped Message → Outcome (Reply Sending)
unfolding publish count_sent
send_popped sent s (none, b) =
    done (returned (record s { station = record (s.station) { send_buffer = b } }))
send_popped sent s (some msg, b) =
    and_then (publish msg (record s { station = record (s.station) { send_buffer = b } }))
      (λ s'. done (returned (count_sent sent msg s')))

-- A time that is over is a wait of 0.
unfoldable pub schedule : ℕ → Sending → Sending
schedule now s = record s {
  next_status = s.next_status + 1000000;
  max_wait = s.next_status + 1000000 - now;
}

module _ (timestamp : Bytes) (rate : ℕ → Bytes) where
  unfoldable pub send_status : SendRound → Sending → Outcome (Reply Sending)
  unfolding get_status_message publish schedule
  send_status r s =
      if leb s.next_status r.now
      then (get_status_message timestamp rate r.now r.machine s.station >>= λ made.
          and_then (publish made.0 (record s { station = made.1 }))
            (λ s'. done (returned (schedule r.now s'))))
      else done (returned s)

  unfoldable pub send_round : SendRound → Sending → Outcome (Reply Sending)
  unfolding pop_front send_popped send_status
  send_round r s =
      pop_front get_size s.station.send_buffer s.max_wait r.script
      >>= send_popped r.sent s
      >>= λ reply. and_then reply (send_status r)

  -- The list ends where `killed` is seen.
  unfoldable pub send_rounds : List SendRound → Sending → Outcome (Reply Sending)
  unfolding send_round
  send_rounds [] s = done (returned s)
  send_rounds (r ∷ rounds) s = send_round r s >>= λ reply. and_then reply (send_rounds rounds)
