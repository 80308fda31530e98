-- ===== src/Numrabw/PostOffice/Sender/Pace.antt =====
-- How long the sender waits.
use numcore_messaging_librar.Common.{
  ℕ, ◌+◌, ◌≤◌, List, [], ◌∷◌, none, some, Bytes, All, arith, leb, Bool-cases, inl, inr, leb→le,
}
use numcore_messaging_librar.Outcome.{Outcome, done, throws, aborts, undefined, out_of_fuel, ◌>>=◌}
use numcore_messaging_librar.Slaim.Message.{Message, get_size}
use numcore_messaging_librar.Numrabw.LimitedSizeBuffer.{Popped, pop_front}
use numcore_messaging_librar.Numrabw.PostOffice.{
  publishes, Link, Reply, returned, raised, waiting, amqp_call,
}
use numcore_messaging_librar.Numrabw.PostOffice.Status.{Station, get_status_message}
use numcore_messaging_librar.Numrabw.PostOffice.Sender.{
  Sending, SendRound, with_link, and_then, publish, count_sent, schedule, send_popped, send_status,
  send_round, send_rounds,
}

-- What holds of the state that is returned, or that an exception leaves.
abbrev pub Always : (Sending → Type 0) → Outcome (Reply Sending) → Type 0
Always P (done (returned s)) = P s
Always P (done (raised w s)) = P s
Always P (done (waiting s)) = P s
Always P (throws e) = Unit {0}
Always P aborts = Unit {0}
Always P undefined = Unit {0}
Always P out_of_fuel = Unit {0}

-- The wait for a message is a second at most, and the next status is due within a second of `end`.
pub record IsPaced (end : ℕ) (s : Sending) : Type 0 where
  pub short : s.max_wait ≤ 1000000
  pub not_ahead : s.next_status ≤ end + 1000000

Always-and_then :
    (P R : Sending → Type 0) (reply : Reply Sending) (f : Sending → Outcome (Reply Sending))
    → Always P (done reply)
    → ((s : Sending) → P s → Always R (f s))
    → ((s : Sending) → P s → R s)
    → Always R (and_then reply f)
Always-and_then P R (returned s) f v h k = h s v
Always-and_then P R (raised w s) f v h k = k s v
Always-and_then P R (waiting s) f v h k = k s v

Always-bind {ℓ} :
    {A : Type ℓ} (P : Sending → Type 0) (m : Outcome A) (f : A → Outcome (Reply Sending))
    → ((a : A) → Always P (f a))
    → Always P (m >>= f)
Always-bind P (done a) f h = h a
Always-bind P (throws e) f h = tt
Always-bind P aborts f h = tt
Always-bind P undefined f h = tt
Always-bind P out_of_fuel f h = tt

Always->>= :
    (P : Sending → Type 0) (m : Outcome (Reply Sending)) (f : Sending → Outcome (Reply Sending))
    → Always P m
    → ((s : Sending) → P s → Always P (f s))
    → Always P (m >>= λ reply. and_then reply f)
Always->>= P (done reply) f v h = Always-and_then P P reply f v h (λ s k. k)
Always->>= P (throws e) f v h = tt
Always->>= P aborts f v h = tt
Always->>= P undefined f v h = tt
Always->>= P out_of_fuel f v h = tt

-- Both, and a status is due at the time `now`.
abbrev IsDue : ℕ → ℕ → Sending → Type 0
IsDue end now s = IsPaced end s × (s.next_status ≤ now)

with_link-IsDue :
    (end now : ℕ) (s : Sending) (reply : Reply Link)
    → IsDue end now s
    → Always (IsDue end now) (done (with_link s reply))
with_link-IsDue end now s (returned l) v =
    (record { short = v.0.short; not_ahead = v.0.not_ahead }, v.1)
with_link-IsDue end now s (raised w l) v =
    (record { short = v.0.short; not_ahead = v.0.not_ahead }, v.1)
with_link-IsDue end now s (waiting l) v =
    (record { short = v.0.short; not_ahead = v.0.not_ahead }, v.1)

module _ (end : ℕ) where
  with_link-IsPaced :
      (s : Sending) (reply : Reply Link)
      → IsPaced end s
      → Always (IsPaced end) (done (with_link s reply))
  with_link-IsPaced s (returned l) v = record { short = v.short; not_ahead = v.not_ahead }
  with_link-IsPaced s (raised w l) v = record { short = v.short; not_ahead = v.not_ahead }
  with_link-IsPaced s (waiting l) v = record { short = v.short; not_ahead = v.not_ahead }

  send_popped-IsPaced :
      (sent : ℕ) (s : Sending) (popped : Popped Message)
      → IsPaced end s
      → Always (IsPaced end) (send_popped sent s popped)
  unfolding send_popped publish count_sent
  send_popped-IsPaced sent s (none, b) v = record { short = v.short; not_ahead = v.not_ahead }
  send_popped-IsPaced sent s (some msg, b) v =
      let s1 : Sending = record s { station = record (s.station) { send_buffer = b } } in
      Always-and_then (IsPaced end) (IsPaced end) (with_link s1 _)
        (λ s'. done (returned (count_sent sent msg s')))
        (with_link-IsPaced s1 (amqp_call (publishes msg.text msg.type) s.link)
          (record { short = v.short; not_ahead = v.not_ahead }))
        (λ s' v'. record { short = v'.short; not_ahead = v'.not_ahead }) (λ s' v'. v')

  schedule-IsPaced :
      (now : ℕ) (s : Sending) → s.next_status ≤ now → now ≤ end → IsPaced end (schedule now s)
  unfolding schedule
  schedule-IsPaced now s h k = record { short = omega arith; not_ahead = omega arith }

  publish_status-IsPaced :
      (now : ℕ) (s : Sending) (msg : Message) (station : Station)
      → s.next_status ≤ now
      → now ≤ end
      → IsPaced end s
      → Always (IsPaced end) (
          and_then
            (publish msg (record s { station = station }))
            (λ s'. done (returned (schedule now s'))))
  unfolding publish
  publish_status-IsPaced now s msg station due h v =
      let s1 : Sending = record s { station = station } in
      let reply : Reply Link = amqp_call (publishes msg.text msg.type) s.link in
      Always-and_then (IsDue end now) (IsPaced end) (with_link s1 reply)
        (λ s'. done (returned (schedule now s')))
        (with_link-IsDue end now s1 reply
          (record { short = v.short; not_ahead = v.not_ahead }, due))
        (λ s' v'. schedule-IsPaced now s' v'.1 h) (λ s' v'. v'.0)

  module _ (timestamp : Bytes) (rate : ℕ → Bytes) where
    send_status-IsPaced :
        (r : SendRound) (s : Sending)
        → r.now ≤ end
        → IsPaced end s
        → Always (IsPaced end) (send_status timestamp rate r s)
    unfolding send_status
    send_status-IsPaced r s h v = elim (Bool-cases (leb s.next_status r.now)) [
      | inl due ↦ rw due (
          Always-bind (IsPaced end) (get_status_message timestamp rate r.now r.machine s.station)
            (λ made.
              and_then (publish made.0 (record s { station = made.1 }))
                (λ s'. done (returned (schedule r.now s'))))
            (λ made. publish_status-IsPaced r.now s made.0 made.1 (leb→le _ _ due) h v))
      | inr early ↦ rw early v
    ]

    send_round-IsPaced :
        (r : SendRound) (s : Sending)
        → r.now ≤ end
        → IsPaced end s
        → Always (IsPaced end) (send_round timestamp rate r s)
    unfolding send_round
    send_round-IsPaced r s h v =
        Always->>= (IsPaced end)
          (pop_front get_size s.station.send_buffer s.max_wait r.script >>= send_popped r.sent s)
          (send_status timestamp rate r)
          (Always-bind (IsPaced end) (pop_front get_size s.station.send_buffer s.max_wait r.script)
            (send_popped r.sent s) (λ popped. send_popped-IsPaced r.sent s popped v))
          (λ s' v'. send_status-IsPaced r s' h v')

    -- When the sender's wait is a second at most, and the next status is due at most a second
    -- after `end`, this stays so through every round whose clock is at most at `end`, however
    -- it ends.
    pub send_rounds-IsPaced :
        (rounds : List SendRound) (s : Sending)
        → All (λ r. r.now ≤ end) rounds
        → IsPaced end s
        → Always (IsPaced end) (send_rounds timestamp rate rounds s)
    unfolding send_rounds
    send_rounds-IsPaced [] s h v = v
    send_rounds-IsPaced (r ∷ rounds) s h v =
        Always->>= (IsPaced end) (send_round timestamp rate r s) (send_rounds timestamp rate rounds)
          (send_round-IsPaced r s h.0 v) (λ s' v'. send_rounds-IsPaced rounds s' h.1 v')
