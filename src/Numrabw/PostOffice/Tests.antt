-- ===== src/Numrabw/PostOffice/Tests.antt =====
-- Runs of the post office, and its theorems at concrete inputs.
use numcore_messaging_librar.Common.{
  Bool, ℕ, ◌≡◌, ◌⊎◌, inl, refl, true, false, List, [], ◌∷◌, ◌++◌, Option, some, none, Bytes, codes,
  arith,
}
use numcore_messaging_librar.OrderedMap.{compare_keys, assign, erase}
use numcore_messaging_librar.Outcome.{done}
use numcore_messaging_librar.Slaim.Message.{Message, get_size}
use numcore_messaging_librar.Slaim.ErrorLog.{ErrorLog}
use numcore_messaging_librar.Slaim.ErrorLog.Laws.{IsValid}
use numcore_messaging_librar.Claim.AttributeMessage.{
  AttributeMessage, empty_attribute_message, assign_raw_message,
}
use numcore_messaging_librar.Numrabw.LimitedSizeBuffer.{
  LimitedSizeBuffer, pops, push_back, run_call, run_calls, try_pop_front, take_front, bytes_without,
  asserts_hold,
}
use numcore_messaging_librar.Numrabw.PostOffice.{publishes, returned, raised, ◌>>=◌, Ends}
use numcore_messaging_librar.Numrabw.PostOffice.Receiver.{
  SubscribeAction, SharedBuffer, Receiving, open_session, consume_rounds,
}
use numcore_messaging_librar.Numrabw.PostOffice.Receiver.Actions.{Drained, Interrupted}
use numcore_messaging_librar.Numrabw.PostOffice.Receiver.Rounds.{open_session-consume_rounds}
use numcore_messaging_librar.Numrabw.PostOffice.Handling.{Inbox, Round, handle_received_message}
use numcore_messaging_librar.Numrabw.PostOffice.Handling.Arrival.{
  published, Blocked, at_last, round, handle_received_message-Blocked,
}
use numcore_messaging_librar.Numrabw.PostOffice.Health.{Health, failed}
use numcore_messaging_librar.Numrabw.PostOffice.Status.{
  Machine, Station, check_hostname, get_version, get_status_message,
}
use numcore_messaging_librar.Numrabw.PostOffice.Status.Decoding.{Reports, assign-get_status_message}
use numcore_messaging_librar.Numrabw.PostOffice.Sender.{Sending, SendRound, send_rounds}
use numcore_messaging_librar.Numrabw.PostOffice.Sender.Delivery.{
  IsQuiet, IsSound, HasSent, send_rounds-loses,
}
use numcore_messaging_librar.Numrabw.PostOffice.Sender.Delivery
use numcore_messaging_librar.Numrabw.PostOffice.Sender.Pace.{Always, IsPaced, send_rounds-IsPaced}
use numcore_messaging_librar.Numrabw.PostOffice.Front.{Office, send}
use numcore_messaging_librar.Numrabw.PostOffice.Front.Sends.{
  Accepts, Refuses, send_lem, send-send_rounds,
}
use numcore_messaging_librar.Numrabw.PostOffice.{unbinds, amqp_call}
use numcore_messaging_librar.Numrabw.PostOffice.Receiver.{
  take_actions, take_action, bind_all, call, arrive,
}
use numcore_messaging_librar.Numrabw.PostOffice.Receiver.Bindings.{IsBound, replay}
use numcore_messaging_librar.Numrabw.PostOffice.Receiver.Recovery.{reconnected, session-recovers}
use numcore_messaging_librar.Numrabw.PostOffice.{
  binds, connects, declares_queue, declares_exchange, exchange_name,
}
use numcore_messaging_librar.Numrabw.PostOffice.Receiver.{session}
use numcore_messaging_librar.Numrabw.PostOffice.Handling.{full_text}
use numcore_messaging_librar.Slaim.ErrorLog.{set_error}
use numcore_messaging_librar.Numrabw.PostOffice.SenderThread.{run_sender_thread}
use numcore_messaging_librar.Numrabw.PostOffice.SenderThread.Draining.{
  Flap, attempts_of, opening_calls, run_sender_thread-drains,
}
use numcore_messaging_librar.Outcome.{◌>>=◌ as ◌>o=◌}
use numcore_messaging_librar.Numrabw.PostOffice.ReceiverThread.{run_receiver_thread}
use numcore_messaging_librar.Numrabw.PostOffice.ReceiverThread.Outage.{
  all_refused, run_receiver_thread-failed,
}

-- A shared buffer that is a list.
abbrev first : List SubscribeAction → Option (SubscribeAction × List SubscribeAction)
first [] = none
first (a ∷ q) = some (a, q)

first-none : (q : List SubscribeAction) → first q ≡ none → q ≡ []
first-none [] e = refl
first-none (a ∷ q) e = ground arith

first-some :
    (q : List SubscribeAction) (a : SubscribeAction) (q' : List SubscribeAction)
    → first q ≡ some (a, q')
    → q ≡ a ∷ q'
first-some [] a q' e = ground arith
first-some (b ∷ q) a q' e = ground arith

abbrev listed : SharedBuffer SubscribeAction (List SubscribeAction)
listed = record {
  items = λ q. q;
  push_back = λ q a. q ++ (a ∷ []);
  pop_front = first;
  items-push_back = λ q a. refl;
  pop_front-none = first-none;
  pop_front-some = first-some;
}

abbrev act : Bytes
act = codes "numrabw_activity_1"

-- Behind the two subscriptions of the last session, the client drops one and adds one; the server
-- is lost when the new one is bound.
abbrev start : Receiving (List SubscribeAction)
start = record {
  link = record {
    fate = none ∷ none ∷ none ∷ none ∷ none ∷ none ∷ none ∷ some (codes "gone") ∷ [];
    calls = [];
  };
  subscriptions = (codes "news", tt) ∷ (codes "weather", tt) ∷ [];
  pending = record { subscribe = false; message_type = codes "news" } ∷ [];
}

abbrev fresh : List SubscribeAction
fresh = record { subscribe = true; message_type = codes "sport" } ∷ []

abbrev acts : List SubscribeAction
acts =
    record { subscribe = false; message_type = codes "news" }
    ∷ record { subscribe = true; message_type = codes "sport" }
    ∷ []

open_session-consume_rounds_example :
    Ends
      (Drained listed act acts start)
      (Interrupted listed act acts start)
      (open_session (codes "localhost:5672") act start >>= consume_rounds listed (fresh ∷ []))
unfolding compare_keys
open_session-consume_rounds_example =
    open_session-consume_rounds listed act (codes "localhost:5672") fresh [] start
      ((refl, tt), (tt, tt)) (ground arith, (ground arith, tt))

abbrev lost : Receiving (List SubscribeAction)
lost = record {
  link = record {
    fate = [];
    calls =
        unbinds (codes "news")
        ∷ binds (codes "weather")
        ∷ binds (codes "news")
        ∷ binds act
        ∷ declares_queue
        ∷ declares_exchange exchange_name
        ∷ connects (codes "localhost:5672")
        ∷ [];
  };
  subscriptions = (codes "sport", tt) ∷ (codes "weather", tt) ∷ [];
  pending = [];
}

lost_while_binding :
    session listed (codes "localhost:5672") act (fresh ∷ []) start ≡ raised (codes "gone") lost
unfolding session open_session consume_rounds take_actions take_action bind_all call amqp_call
    arrive assign erase compare_keys
lost_while_binding = refl

session-recovers_example :
    (taken later : List SubscribeAction) × (s' : Receiving (List SubscribeAction)) × (taken
        ++ ([] ++ later)
      ≡ acts)
    × (session listed (codes "localhost:5672") act ([] ∷ []) (reconnected lost) ≡ returned s')
    × IsBound act s'
    × (s'.subscriptions ≡ replay (taken ++ ([] ++ [])) start.subscriptions)
    × (s'.pending ≡ [])
unfolding compare_keys
session-recovers_example =
    session-recovers listed act (codes "localhost:5672") fresh [] [] [] start lost (codes "gone")
      ((refl, tt), (tt, tt)) (ground arith, (ground arith, tt)) tt lost_while_binding

abbrev empty_log : ErrorLog
empty_log = record { max_items = 8; errors = []; last_error = [] }

empty_log-IsValid : IsValid empty_log
empty_log-IsValid = record { some_room = omega arith; bounded = omega arith; no_last = refl }

abbrev rain : Message
rain = record { type = codes "weather"; text = codes "rain" }

abbrev sun : Message
sun = record { type = codes "weather"; text = codes "sun" }

-- Room for one message.
abbrev narrow : List Message → ℕ → LimitedSizeBuffer Message
narrow items bytes = record {
  max_item_count = 1;
  max_byte_count = 1000;
  current_byte_count = bytes;
  items = items;
  notified = true;
}

abbrev inbox : Inbox
inbox = record { recv_buffer = narrow (rain ∷ []) 11; recv_throughput = []; error_log = empty_log }

abbrev megabytes : ℕ → Bytes
megabytes n = codes "0"

-- The client takes the message in the first round.
abbrev takes : Round
takes = record { killed = false; now = 7; meanwhile = pops ∷ [] }

abbrev leaves : Round
leaves = record { killed = false; now = 8; meanwhile = [] }

blocked : Blocked sun (narrow (rain ∷ []) 11) (takes ∷ []) (narrow [] 0)
unfolding push_back run_calls run_call try_pop_front take_front asserts_hold bytes_without get_size
blocked =
    round {b = narrow (rain ∷ []) 11} {b' = narrow [] 0} {b'' = narrow [] 0} {r = takes}
      {rounds = []} refl refl refl at_last

handle_received_message-Blocked_example :
    (fresh : Bool) × (i' : Inbox) × (handle_received_message megabytes act 5
        ((takes ∷ []) ++ (leaves ∷ []))
        (published (codes "weather") (codes "sun"))
        inbox
      ≡ done (0, i'))
    × (i'.recv_buffer.items ≡ [] ++ (sun ∷ []))
    × (set_error empty_log (full_text megabytes sun inbox.recv_buffer) ≡ done (fresh, i'.error_log))
unfolding push_back get_size
handle_received_message-Blocked_example =
    handle_received_message-Blocked megabytes act 5 sun inbox {rounds = takes ∷ []}
      {b = narrow [] 0} leaves [] (ground arith) empty_log-IsValid refl blocked refl refl

abbrev machine : Machine
machine = record {
  host_name = codes "box";
  user_name = codes "nobody";
  working_directory = codes "/tmp";
  current_time = codes "2020-01-01T00:00:01.000";
}

abbrev station : Station
station = record {
  client_identifier = codes "sampler";
  time_started = codes "2020-01-01T00:00:00.000";
  hostname = [];
  hostname_checked = 0;
  username = [];
  recv_buffer = narrow (rain ∷ []) 11;
  send_buffer = narrow (sun ∷ []) 10;
  recv_throughput = [];
  send_throughput = [];
}

abbrev sending : Sending
sending = record {
  link = record { fate = none ∷ some (codes "gone") ∷ []; calls = [] };
  station = record station { send_buffer = narrow (sun ∷ rain ∷ rain ∷ []) 32 };
  next_status = 3000000;
  max_wait = 0;
}

abbrev prompt : SendRound
prompt = record {
  script = record { wakes = []; before_lock = [] };
  sent = 2000000;
  now = 2000001;
  machine = machine;
}

prompt-IsQuiet : IsQuiet 3000000 prompt
prompt-IsQuiet = record { undisturbed = refl; early = omega arith }

sending-IsSound : IsSound sending (sun ∷ rain ∷ rain ∷ [])
unfolding get_size
sending-IsSound = record {
  same = refl;
  counted = record { exact = refl; small = omega arith };
  positive = (omega arith, (omega arith, (omega arith, tt)));
}

abbrev timestamp : Bytes
timestamp = codes "Wed Jan  1 00:00:00 2020"

send_rounds-loses_example :
    (s' : Sending) × (send_rounds timestamp megabytes (prompt ∷ prompt ∷ []) sending
      ≡ done (raised (codes "gone") s'))
    × HasSent (publishes (codes "sun") (codes "weather") ∷ []) (rain ∷ []) s'
send_rounds-loses_example =
    send_rounds-loses timestamp megabytes ((sun, prompt) ∷ []) rain prompt (rain ∷ [])
      (codes "gone") [] [] sending (prompt-IsQuiet, tt) prompt-IsQuiet sending-IsSound refl

send_rounds-IsPaced_example :
    Always (IsPaced 2500000) (send_rounds timestamp megabytes (prompt ∷ prompt ∷ []) sending)
send_rounds-IsPaced_example =
    send_rounds-IsPaced 2500000 timestamp megabytes (prompt ∷ prompt ∷ []) sending
      (omega arith, (omega arith, tt)) (record { short = omega arith; not_ahead = omega arith })

abbrev office : Office (List SubscribeAction)
office = record {
  client_identifier = codes "sampler";
  receiver_ok = true;
  sender_ok = true;
  killed = false;
  activity_key = act;
  pending = [];
  recv_buffer = narrow [] 0;
  send_buffer = record (narrow (rain ∷ []) 11) { max_item_count = 2 };
  error_log = empty_log;
  activity_futures = [];
}

send_lem_example : Accepts megabytes sun office ⊎ Refuses megabytes sun office
unfolding get_size
send_lem_example =
    send_lem megabytes sun office (record { exact = refl; small = omega arith }) (omega arith)
      empty_log-IsValid

abbrev calm : Sending
calm = record sending { link = record { fate = none ∷ none ∷ []; calls = [] } }

send-send_rounds_example :
    (o' : Office (List SubscribeAction)) × (s' : Sending) × (send megabytes sun office
      ≡ done (true, o'))
    × (send_rounds timestamp megabytes
          (prompt ∷ prompt ∷ [])
          (record calm { station = record station { send_buffer = o'.send_buffer } })
        ≡ done (returned s'))
    × HasSent (Delivery.published ((rain ∷ []) ++ (sun ∷ [])) []) [] s'
unfolding get_size
send-send_rounds_example =
    send-send_rounds megabytes sun office timestamp megabytes ((rain, prompt) ∷ (sun, prompt) ∷ [])
      [] calm (record { exact = refl; small = omega arith }) (omega arith, tt) (omega arith)
      (omega arith) empty_log-IsValid (omega arith, inl (omega arith)) refl
      (prompt-IsQuiet, (prompt-IsQuiet, tt)) refl

abbrev checked : Station
checked = record station { hostname = codes "box"; hostname_checked = 4; username = codes "nobody" }

assign-get_status_message_example :
    (msg : Message) × (kept : Station) × (am : AttributeMessage) × (get_status_message timestamp
        megabytes 4 machine station
      ≡ done (msg, kept))
    × (assign_raw_message empty_attribute_message msg ≡ done am)
    × Reports checked am
unfolding get_size check_hostname get_version
assign-get_status_message_example =
    assign-get_status_message timestamp megabytes machine 4 station empty_attribute_message
      (record {
        version = omega arith;
        rates = λ n. omega arith;
        client = omega arith;
        host = omega arith;
        user = omega arith;
        directory = omega arith;
        current = omega arith;
        started = omega arith;
        recv_items = omega arith;
        recv_bytes = omega arith;
        send_items = omega arith;
        send_bytes = omega arith;
      })
      (record {
        counted = record { exact = refl; small = omega arith };
        positive = (omega arith, tt);
      })
      (record {
        counted = record { exact = refl; small = omega arith };
        positive = (omega arith, tt);
      })

abbrev health : Health
health = record { thread_ok = true; error = false; error_log = empty_log }

run_receiver_thread-failed_example :
    run_receiver_thread listed
      (codes "localhost:5672")
      act
      (all_refused (codes "refused" ∷ codes "timeout" ∷ codes "refused" ∷ []))
      start
      health
    ≡ (failed (codes "Receiver") (codes "refused") health >o= λ h'. done (reconnected start, h'))
run_receiver_thread-failed_example =
    run_receiver_thread-failed listed (codes "localhost:5672") act (codes "refused")
      (codes "timeout" ∷ codes "refused" ∷ []) start health

abbrev flap : Message → Flap
flap msg = record {
  message = msg;
  round = prompt;
  text = codes "refused";
  steady = 1500000;
  system = 1700000000250000;
}

run_sender_thread-drains_example :
    (s' : Sending) × (h' : Health) × (run_sender_thread timestamp megabytes
        (codes "localhost:5672")
        (attempts_of (flap sun ∷ flap rain ∷ []))
        sending
        health
      ≡ done (s', h'))
    × (s'.station.send_buffer.items ≡ rain ∷ [])
    × (s'.link.calls ≡ opening_calls timestamp megabytes (codes "localhost:5672"))
run_sender_thread-drains_example =
    run_sender_thread-drains timestamp megabytes (codes "localhost:5672") (flap sun)
      (flap rain ∷ []) (rain ∷ []) sending health (refl, (refl, tt)) sending-IsSound
      empty_log-IsValid
