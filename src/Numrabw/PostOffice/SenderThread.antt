-- ===== src/Numrabw/PostOffice/SenderThread.antt =====
-- The outer loop of `RunSenderThread`: sessions one after another, with their reports.
pub mod Draining
use numcore_messaging_librar.Common.{ℕ, Bool, true, false, List, [], ◌∷◌, Option, Bytes, codes}
use numcore_messaging_librar.Outcome.{Outcome, done, out_of_fuel, ◌>>=◌}
use numcore_messaging_librar.Numrabw.PostOffice.{Reply, returned, raised, waiting}
use numcore_messaging_librar.Numrabw.PostOffice.Sender.{
  Sending, SendRound, open_session, send_rounds,
}
use numcore_messaging_librar.Numrabw.PostOffice.Health.{Health, recovered, failed}

-- What a session meets: its calls' fate, what the steady and the system's clock show when it is open,
-- and the rounds of its inner loop.
pub record SendAttempt : Type 0 where
  pub fate : List (Option Bytes)
  pub steady : ℕ
  pub system : ℕ
  pub rounds : List SendRound

-- Whether `killed` has been seen, and what is left.
abbrev pub SendAttempted : Type 0
SendAttempted = Bool × (Sending × Health)

-- The `catch`, if there is anything to catch.
abbrev pub finish_sending : Health → Reply Sending → Outcome SendAttempted
finish_sending h (returned s) = done (true, (s, h))
finish_sending h (raised w s) = failed (codes "Sender") w h >>= λ h'. done (false, (s, h'))
finish_sending h (waiting s) = out_of_fuel

-- Over a new connection, of which no call has been made.
abbrev pub disconnected : List (Option Bytes) → Sending → Sending
disconnected fate s = record s { link = record { fate = fate; calls = [] } }

abbrev pub unless_sender_killed :
    (Sending → Health → Outcome (Sending × Health)) → SendAttempted → Outcome (Sending × Health)
unless_sender_killed again (true, r) = done r
unless_sender_killed again (false, (s, h)) = again s h

module _ (timestamp : Bytes) (rate : ℕ → Bytes) (connect_string : Bytes) where
  abbrev pub after_opening : List SendRound → Health → Reply Sending → Outcome SendAttempted
  after_opening rounds h (returned s) = recovered (codes "Sender") h >>= λ h'.
      send_rounds timestamp rate rounds s >>= finish_sending h'
  after_opening rounds h (raised w s) = finish_sending h (raised w s)
  after_opening rounds h (waiting s) = finish_sending h (waiting s)

  -- One round of the outer loop.
  unfoldable pub attempt_sending : SendAttempt → Sending → Health → Outcome SendAttempted
  unfolding open_session recovered failed send_rounds
  attempt_sending a s h =
      open_session connect_string a.steady a.system (disconnected a.fate s)
      >>= after_opening a.rounds h

  -- The list ends where `killed` is seen between two sessions.
  unfoldable pub run_sender_thread :
      List SendAttempt → Sending → Health → Outcome (Sending × Health)
  unfolding attempt_sending
  run_sender_thread [] s h = done (s, h)
  run_sender_thread (a ∷ attempts) s h =
      attempt_sending a s h >>= unless_sender_killed (run_sender_thread attempts)
