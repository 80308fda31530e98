-- ===== src/Numrabw/PostOffice/Traffic/Tests.antt =====
-- Two messages are sent: one is lost, the other is published.
use numcore_messaging_librar.Common.{ℕ, refl, true, false, List, [], ◌∷◌, some, codes}
use numcore_messaging_librar.Decimal.{decimal}
use numcore_messaging_librar.Slaim.Message.{Message, get_size}
use numcore_messaging_librar.Numrabw.LimitedSizeBuffer.{
  LimitedSizeBuffer, push_back, try_pop_front, bytes_without,
}
use numcore_messaging_librar.Numrabw.PostOffice.{raised, returned, publishes}
use numcore_messaging_librar.Numrabw.PostOffice.Front.{Office, send}
use numcore_messaging_librar.Numrabw.PostOffice.Sender.{Sending, send_popped, count_sent}
use numcore_messaging_librar.Numrabw.PostOffice.Traffic.{
  Traffic, with_buffer, Step, client_sends, sender_takes, stays, goes_on, Reaches,
}
use numcore_messaging_librar.Numrabw.PostOffice.Traffic.Events.{lost, sent}
use numcore_messaging_librar.Numrabw.PostOffice.Traffic.Order.{IsOrdered, Reaches-IsOrdered}

abbrev sun : Message
sun = record { type = codes "weather"; text = codes "sun" }

abbrev buffer : List Message → ℕ → LimitedSizeBuffer Message
buffer items bytes = record {
  max_item_count = 1024;
  max_byte_count = 1048576;
  current_byte_count = bytes;
  items = items;
  notified = true;
}

abbrev start : Traffic
start = record {
  sending = record {
    link = record { fate = some (codes "gone") ∷ []; calls = [] };
    station = record {
      client_identifier = codes "sampler";
      time_started = [];
      hostname = [];
      hostname_checked = 0;
      username = [];
      recv_buffer = buffer [] 0;
      send_buffer = buffer [] 0;
      recv_throughput = [];
      send_throughput = [];
    };
    next_status = 0;
    max_wait = 0;
  };
  accepted = [];
  former = [];
  events = [];
}

abbrev office : List Message → ℕ → Office Unit
office items bytes = record {
  client_identifier = codes "sampler";
  receiver_ok = true;
  sender_ok = true;
  killed = false;
  activity_key = [];
  pending = tt;
  recv_buffer = buffer [] 0;
  send_buffer = buffer items bytes;
  error_log = record { max_items = 10; errors = []; last_error = [] };
  activity_futures = [];
}

abbrev Steps : Traffic → Traffic → Type 0
Steps = Step Unit decimal [] decimal (codes "localhost:5672")

-- Two messages are sent.
abbrev one_sent : Traffic
one_sent = record start {
  sending = with_buffer (buffer (sun ∷ []) 10) start.sending;
  accepted = sun ∷ [];
}

abbrev two_sent : Traffic
two_sent = record start {
  sending = with_buffer (buffer (sun ∷ sun ∷ []) 20) start.sending;
  accepted = sun ∷ sun ∷ [];
}

first_send : Steps start one_sent
unfolding send push_back get_size
first_send = client_sends start (office [] 0) (office (sun ∷ []) 10) sun true refl refl

second_send : Steps one_sent two_sent
unfolding send push_back get_size
second_send =
    client_sends one_sent (office (sun ∷ []) 10) (office (sun ∷ sun ∷ []) 20) sun true refl refl

-- The first is lost.
abbrev failed : Sending
failed = record (with_buffer (buffer (sun ∷ []) 10) start.sending) {
  link = record { fate = []; calls = [] };
}

abbrev one_lost : Traffic
one_lost = record two_sent { sending = failed; events = lost sun ∷ [] }

loses : Steps two_sent one_lost
unfolding send_popped try_pop_front get_size bytes_without
loses =
    sender_takes two_sent 5 (some sun, buffer (sun ∷ []) 10) (raised (codes "gone") failed) refl
      refl

-- The second is published.
abbrev published : Sending
published = count_sent 7 sun (record (with_buffer (buffer [] 0) failed) {
  link = record { fate = []; calls = publishes (codes "sun") (codes "weather") ∷ [] };
})

abbrev one_published : Traffic
one_published = record one_lost { sending = published; events = lost sun ∷ sent sun ∷ [] }

publishes_one : Steps one_lost one_published
unfolding send_popped try_pop_front get_size bytes_without
publishes_one = sender_takes one_lost 7 (some sun, buffer [] 0) (returned published) refl refl

lost_and_published : Reaches Unit decimal [] decimal (codes "localhost:5672") start one_published
lost_and_published =
    goes_on one_lost one_published
      (goes_on two_sent one_lost
        (goes_on one_sent two_sent (goes_on start one_sent stays first_send) second_send) loses)
      publishes_one

Reaches-IsOrdered_example : IsOrdered one_published
Reaches-IsOrdered_example =
    Reaches-IsOrdered Unit decimal [] decimal (codes "localhost:5672") start one_published
      (record { none_accepted = refl; none_waiting = refl; none_called = refl; none_yet = refl })
      lost_and_published
