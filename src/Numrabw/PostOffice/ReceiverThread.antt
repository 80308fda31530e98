-- ===== src/Numrabw/PostOffice/ReceiverThread.antt =====
-- The outer loop of `RunReceiverThread`: sessions one after another, with their reports.
pub mod Outage
use numcore_messaging_librar.Common.{Bool, true, false, List, [], ◌∷◌, Option, Bytes, codes}
use numcore_messaging_librar.Outcome.{Outcome, done, out_of_fuel, ◌>>=◌}
use numcore_messaging_librar.Numrabw.PostOffice.{Link, Reply, returned, raised, waiting}
use numcore_messaging_librar.Numrabw.PostOffice.Receiver.{
  SubscribeAction, SharedBuffer, Receiving, open_session, consume_rounds,
}
use numcore_messaging_librar.Numrabw.PostOffice.Health.{Health, recovered, failed}

-- What a session meets: its calls' fate, and the rounds of its inner loop.
pub record Attempt : Type 0 where
  pub fate : List (Option Bytes)
  pub rounds : List (List SubscribeAction)

abbrev receiver : Bytes
receiver = codes "Receiver"

-- Whether `killed` has been seen, and what is left.
abbrev pub Attempted : Type 0 → Type 0
Attempted Q = Bool × (Receiving Q × Health)

module _ {Q : Type 0} where
  -- The `catch`, if there is anything to catch.
  abbrev pub finish : Health → Reply (Receiving Q) → Outcome (Attempted Q)
  finish h (returned s) = done (true, (s, h))
  finish h (raised w s) = failed receiver w h >>= λ h'. done (false, (s, h'))
  finish h (waiting s) = out_of_fuel

module _ {Q : Type 0} (shared : SharedBuffer SubscribeAction Q) where
  abbrev pub after_open :
      List (List SubscribeAction) → Health → Reply (Receiving Q) → Outcome (Attempted Q)
  after_open rounds h (returned s) =
      recovered receiver h >>= λ h'. finish h' (consume_rounds shared rounds s)
  after_open rounds h (raised w s) = finish h (raised w s)
  after_open rounds h (waiting s) = finish h (waiting s)

  -- One round of the outer loop, over a new connection.
  unfoldable pub attempt : Bytes → Bytes → Attempt → Receiving Q → Health → Outcome (Attempted Q)
  unfolding open_session recovered failed consume_rounds
  attempt connect_string activity_key a s h = after_open a.rounds h (
      open_session connect_string activity_key
        (record s { link = record { fate = a.fate; calls = [] } }))

  abbrev pub unless_killed :
      (Receiving Q → Health → Outcome (Receiving Q × Health))
      → Attempted Q
      → Outcome (Receiving Q × Health)
  unless_killed again (true, r) = done r
  unless_killed again (false, (s, h)) = again s h

  -- The list ends where `killed` is seen between two sessions.
  unfoldable pub run_receiver_thread :
      Bytes → Bytes → List Attempt → Receiving Q → Health → Outcome (Receiving Q × Health)
  unfolding attempt
  run_receiver_thread connect_string activity_key [] s h = done (s, h)
  run_receiver_thread connect_string activity_key (a ∷ attempts) s h =
      attempt connect_string activity_key a s h
      >>= unless_killed (run_receiver_thread connect_string activity_key attempts)
