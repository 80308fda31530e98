-- ===== src/Numrabw/PostOffice/Traffic.antt =====
-- The client and the sender's thread at work on one buffer: `Send` against the calls of
-- `RunSenderThread`, in whatever order they come, over any number of connections.
pub mod Events
pub mod Outcomes
pub mod Order
mod Tests
use numcore_messaging_librar.Common.{
  ℕ, ◌≡◌, Bool, true, false, List, [], ◌∷◌, ◌++◌, Option, none, some, Bytes, leb,
}
use numcore_messaging_librar.Outcome.{Outcome, done, throws, aborts, undefined, out_of_fuel}
use numcore_messaging_librar.Slaim.Message.{Message, get_size}
use numcore_messaging_librar.Numrabw.LimitedSizeBuffer.{LimitedSizeBuffer, Popped, try_pop_front}
use numcore_messaging_librar.Numrabw.PostOffice.{AmqpCall, Reply, returned, raised, waiting}
use numcore_messaging_librar.Numrabw.PostOffice.Front.{Office, send}
use numcore_messaging_librar.Numrabw.PostOffice.Sender.{
  Sending, SendRound, open_session, send_popped, send_status,
}
use numcore_messaging_librar.Numrabw.PostOffice.Status.{Station, get_status_message}
use numcore_messaging_librar.Numrabw.PostOffice.Traffic.Events.{Event, sent, lost, reported}
use numcore_messaging_librar.Numrabw.PostOffice.SenderThread.{disconnected}

-- The sender, whose buffer is the office's; the messages for which `Send` has returned true, the oldest
-- first; the calls over the connections before this one, the newest first; and what became of each
-- message that was taken from the buffer or made to report, the oldest first.
pub record Traffic : Type 0 where
  pub sending : Sending
  pub accepted : List Message
  pub former : List AmqpCall
  pub events : List Event

abbrev pub with_buffer : LimitedSizeBuffer Message → Sending → Sending
with_buffer b s = record s { station = record (s.station) { send_buffer = b } }

-- The state in which a call leaves the thread, by an exception or not.
abbrev pub state_of : Reply Sending → Sending
state_of (returned s) = s
state_of (raised w s) = s
state_of (waiting s) = s

abbrev pub noted : Bool → Message → List Message → List Message
noted true msg accepted = accepted ++ (msg ∷ [])
noted false msg accepted = accepted

-- What became of a message that was taken: its publishing has returned, or thrown.
abbrev pub taken_event : Option Message → Reply Sending → List Event
taken_event none reply = []
taken_event (some m) (returned s) = sent m ∷ []
taken_event (some m) (raised w s) = lost m ∷ []
taken_event (some m) (waiting s) = []

-- A status message, when it was due, and its publishing has returned.
abbrev pub status_event : Bool → Outcome (Message × Station) → Reply Sending → List Event
status_event false made reply = []
status_event true (done made) (returned s) = reported made.0 ∷ []
status_event true (done made) (raised w s) = []
status_event true (done made) (waiting s) = []
status_event true (throws x) reply = []
status_event true aborts reply = []
status_event true undefined reply = []
status_event true out_of_fuel reply = []

module _ (Q : Type 0) (megabytes : ℕ → Bytes) (timestamp : Bytes) (rate : ℕ → Bytes)
    (connect_string : Bytes) where
  pub data Step : Traffic → Traffic → Type 0 where
    -- The client calls `Send`.
    client_sends :
        (t : Traffic) (o o' : Office Q) (msg : Message) (accepted : Bool)
        → o.send_buffer ≡ t.sending.station.send_buffer
        → send megabytes msg o ≡ done (accepted, o')
        → Step t (record t {
          sending = with_buffer o'.send_buffer t.sending;
          accepted = noted accepted msg t.accepted;
        })
    -- The sender takes what is in front, and publishes it.
    sender_takes :
        (t : Traffic) (sent : ℕ) (popped : Popped Message) (reply : Reply Sending)
        → try_pop_front get_size t.sending.station.send_buffer ≡ done popped
        → send_popped sent t.sending popped ≡ done reply
        → Step t
            (record t { sending = state_of reply; events = t.events ++ taken_event popped.0 reply })
    -- It publishes its status, if that is due.
    sender_reports :
        (t : Traffic) (r : SendRound) (reply : Reply Sending)
        → send_status timestamp rate r t.sending ≡ done reply
        → Step t (record t {
          sending = state_of reply;
          events =
              t.events
              ++ status_event
                  (leb t.sending.next_status r.now)
                  (get_status_message timestamp rate r.now r.machine t.sending.station)
                  reply;
        })
    -- It opens a new connection.
    sender_connects :
        (t : Traffic) (fate : List (Option Bytes)) (steady system : ℕ) (reply : Reply Sending)
        → open_session connect_string steady system (disconnected fate t.sending) ≡ done reply
        → Step t (record t { sending = state_of reply; former = t.sending.link.calls ++ t.former })

  pub data Reaches (t : Traffic) : Traffic → Type 0 where
    stays : Reaches t t
    goes_on : (u v : Traffic) → Reaches t u → Step u v → Reaches t v
