-- ===== src/Numrabw/PostOffice/SenderThread/Draining.antt =====
-- A server that lets the sender connect, but not publish.
use numcore_messaging_librar.Common.{
  ℕ, ◌≡◌, refl, false, List, [], ◌∷◌, ◌++◌, none, some, Bytes, codes, Bool-cases, inl, inr, All,
}
use numcore_messaging_librar.Outcome.{done}
use numcore_messaging_librar.Slaim.Message.{Message}
use numcore_messaging_librar.Slaim.ErrorLog.Laws.{IsValid, set_error-IsValid}
use numcore_messaging_librar.Numrabw.PostOffice.{
  AmqpCall, connects, declares_exchange, exchange_name, amqp_call,
}
use numcore_messaging_librar.Numrabw.PostOffice.Sender.{
  Sending, SendRound, open_session, first_status_time, send_rounds,
}
use numcore_messaging_librar.Numrabw.PostOffice.Sender.Delivery.{
  IsSound, taken, taken-IsSound, send_round-raised,
}
use numcore_messaging_librar.Numrabw.PostOffice.Health.{Health, report, recovered, failed}
use numcore_messaging_librar.Numrabw.PostOffice.SenderThread.{
  SendAttempt, attempt_sending, run_sender_thread,
}

abbrev pub IsHealthy : Health → Type 0
IsHealthy h = IsValid h.error_log

report-IsHealthy :
    (text : Bytes) (h : Health)
    → IsHealthy h
    → (h' : Health) × (report text h ≡ done h') × IsHealthy h'
unfolding report
report-IsHealthy text h v =
    let (b, log, is, v') = set_error-IsValid h.error_log text v in
    (record h { error_log = log }, rw is refl, v')

recovered-IsHealthy :
    (name : Bytes) (h : Health)
    → IsHealthy h
    → (h' : Health) × (recovered name h ≡ done h') × IsHealthy h'
unfolding recovered
recovered-IsHealthy name h v = elim (Bool-cases h.error) [
  | inl e ↦ rw e (report-IsHealthy _ _ v)
  | inr e ↦ rw e (_, refl, v)
]

failed-IsHealthy :
    (name what : Bytes) (h : Health)
    → IsHealthy h
    → (h' : Health) × (failed name what h ≡ done h') × IsHealthy h'
unfolding failed
failed-IsHealthy name what h v = elim (Bool-cases h.error) [
  | inl e ↦ rw e (_, refl, v)
  | inr e ↦ rw e (report-IsHealthy _ _ v)
]

-- A session that opens, and that fails when it publishes its first message.
pub record Flap : Type 0 where
  pub message : Message
  pub round : SendRound
  pub text : Bytes
  pub steady : ℕ
  pub system : ℕ

abbrev pub attempt_of : Flap → SendAttempt
attempt_of f = record {
  fate = none ∷ none ∷ some f.text ∷ [];
  steady = f.steady;
  system = f.system;
  rounds = f.round ∷ [];
}

abbrev pub attempts_of : List Flap → List SendAttempt
attempts_of [] = []
attempts_of (f ∷ fs) = attempt_of f ∷ attempts_of fs

abbrev pub lost : List Flap → List Message
lost [] = []
lost (f ∷ fs) = f.message ∷ lost fs

-- No other thread calls in the round that fails.
abbrev pub IsUndisturbed : Flap → Type 0
IsUndisturbed f = f.round.script.before_lock ≡ []

module _ (timestamp : Bytes) (rate : ℕ → Bytes) (connect_string : Bytes) where
  abbrev pub opening_calls : List AmqpCall
  opening_calls = declares_exchange exchange_name ∷ connects connect_string ∷ []

  abbrev opened : Flap → Sending → Sending
  opened f s = record s {
    link = record { fate = some f.text ∷ []; calls = opening_calls };
    next_status = first_status_time f.steady f.system;
    max_wait = 0;
  }

  abbrev drained : Flap → Sending → List Message → Sending
  drained f s left = record (taken (opened f s) left) {
    link = record { fate = []; calls = opening_calls };
  }

  attempt_sending-fails :
      (f : Flap) (left : List Message) (s : Sending) (h : Health)
      → IsUndisturbed f
      → IsSound s (f.message ∷ left)
      → IsHealthy h
      → (h' : Health) × (attempt_sending timestamp rate connect_string (attempt_of f) s h
          ≡ done (false, (drained f s left, h')))
        × IsHealthy h'
        × IsSound (drained f s left) left
  unfolding attempt_sending open_session send_rounds amqp_call
  attempt_sending-fails f left s h q v g =
      let sound : IsSound (opened f s) (f.message ∷ left) = record {
        same = v.same;
        counted = v.counted;
        positive = v.positive;
      } in
      let thrown =
        send_round-raised timestamp rate (opened f s) f.round f.message left f.text
          (record { fate = []; calls = opening_calls }) q sound refl in
      let (h1, is1, g1) = recovered-IsHealthy (codes "Sender") h g in
      let (h2, is2, g2) = failed-IsHealthy (codes "Sender") f.text h1 g1 in
      let w = taken-IsSound (opened f s) f.message left sound in
      (
        h2,
        rw (is1, thrown, is2) refl,
        g2,
        record { same = w.same; counted = w.counted; positive = w.positive },
      )

  -- When session after session opens but fails to publish its first message, and no other thread
  -- calls meanwhile, every one of them loses a message of the buffer: the thread goes on with the
  -- messages behind, and its last session has only made the calls that open it. The buffer counts
  -- its bytes and each of its messages has some; the error log is well-formed.
  pub run_sender_thread-drains :
      (f : Flap) (fs : List Flap) (left : List Message) (s : Sending) (h : Health)
      → All IsUndisturbed (f ∷ fs)
      → IsSound s (lost (f ∷ fs) ++ left)
      → IsHealthy h
      → (s' : Sending) × (h' : Health) × (run_sender_thread timestamp rate connect_string
            (attempts_of (f ∷ fs))
            s
            h
          ≡ done (s', h'))
        × (s'.station.send_buffer.items ≡ left)
        × (s'.link.calls ≡ opening_calls)
  unfolding run_sender_thread
  run_sender_thread-drains f [] left s h q v g =
      let (h1, is, g1, sound) = attempt_sending-fails f left s h q.0 v g in
      (drained f s left, h1, rw is refl, sound.same, refl)
  run_sender_thread-drains f (f' ∷ fs) left s h q v g =
      let (h1, is, g1, sound) = attempt_sending-fails f (lost (f' ∷ fs) ++ left) s h q.0 v g in
      let (s', h', ran, items, calls) =
        run_sender_thread-drains f' fs left (drained f s (lost (f' ∷ fs) ++ left)) h1 q.1 sound
          g1 in
      (s', h', rw is ran, items, calls)
