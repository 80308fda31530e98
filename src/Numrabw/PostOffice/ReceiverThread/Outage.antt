-- ===== src/Numrabw/PostOffice/ReceiverThread/Outage.antt =====
-- A server that cannot be reached.
use numcore_messaging_librar.Common.{◌≡◌, refl, ap, ◌∙◌, false, List, [], ◌∷◌, some, Bytes, codes}
use numcore_messaging_librar.Outcome.{Outcome, done, throws, aborts, undefined, out_of_fuel, ◌>>=◌}
use numcore_messaging_librar.Numrabw.PostOffice.{amqp_call}
use numcore_messaging_librar.Numrabw.PostOffice.Receiver.{
  SubscribeAction, SharedBuffer, Receiving, call, open_session,
}
use numcore_messaging_librar.Numrabw.PostOffice.Receiver.Recovery.{reconnected}
use numcore_messaging_librar.Numrabw.PostOffice.Health.{Health, failed}
use numcore_messaging_librar.Numrabw.PostOffice.Health.Reports.{fail_all, fail_all_once}
use numcore_messaging_librar.Numrabw.PostOffice.ReceiverThread.{
  Attempt, attempt, unless_killed, run_receiver_thread,
}

-- The connection is refused, with the text.
abbrev pub refused : Bytes → Attempt
refused w = record { fate = some w ∷ []; rounds = [] }

abbrev pub all_refused : List Bytes → List Attempt
all_refused [] = []
all_refused (w ∷ ws) = refused w ∷ all_refused ws

module _ {Q : Type 0} (shared : SharedBuffer SubscribeAction Q) (connect_string act : Bytes) where
  attempt-refused :
      (w : Bytes) (s : Receiving Q) (h : Health)
      → attempt shared connect_string act (refused w) s h
        ≡ (failed (codes "Receiver") w h >>= λ h'. done (false, (reconnected s, h')))
  unfolding attempt open_session call amqp_call
  attempt-refused w s h = refl

  goes_on :
      (o : Outcome Health) (s : Receiving Q)
      (again : Receiving Q → Health → Outcome (Receiving Q × Health))
      (later : Health → Outcome Health)
      → ((h : Health) → again s h ≡ (later h >>= λ h'. done (s, h')))
      → ((o >>= λ h'. done (false, (s, h'))) >>= unless_killed shared again)
        ≡ ((o >>= later) >>= λ h'. done (s, h'))
  goes_on (done h) s again later e = e h
  goes_on (throws x) s again later e = refl
  goes_on aborts s again later e = refl
  goes_on undefined s again later e = refl
  goes_on out_of_fuel s again later e = refl

  run_receiver_thread-fail_all :
      (ws : List Bytes) (s : Receiving Q) (h : Health)
      → run_receiver_thread shared connect_string act (all_refused ws) (reconnected s) h
        ≡ (fail_all (codes "Receiver") ws h >>= λ h'. done (reconnected s, h'))
  unfolding run_receiver_thread fail_all
  run_receiver_thread-fail_all [] s h = refl
  run_receiver_thread-fail_all (w ∷ ws) s h =
      ap
        (λ o.
          o
          >>= unless_killed shared (run_receiver_thread shared connect_string act (all_refused ws)))
        (attempt-refused w (reconnected s) h)
      ∙ goes_on (failed (codes "Receiver") w h) (reconnected s) _ (fail_all (codes "Receiver") ws)
          (run_receiver_thread-fail_all ws s)

  -- However many attempts to connect fail one after another, with whatever texts, the receiver's
  -- thread keeps its subscriptions and the pending actions, and its flags and the error log are those
  -- that the first failure leaves: the outage is reported once.
  pub run_receiver_thread-failed :
      (what : Bytes) (whats : List Bytes) (s : Receiving Q) (h : Health)
      → run_receiver_thread shared connect_string act (all_refused (what ∷ whats)) s h
        ≡ (failed (codes "Receiver") what h >>= λ h'. done (reconnected s, h'))
  unfolding run_receiver_thread fail_all
  run_receiver_thread-failed what whats s h =
      ap
        (λ o.
          o
          >>= unless_killed shared
              (run_receiver_thread shared connect_string act (all_refused whats)))
        (attempt-refused what s h)
      ∙ goes_on (failed (codes "Receiver") what h) (reconnected s) _
          (fail_all (codes "Receiver") whats) (run_receiver_thread-fail_all whats s)
      ∙ ap (λ o. o >>= λ h'. done (reconnected s, h'))
          (fail_all_once (codes "Receiver") what whats h)
