-- ===== src/Numrabw/PostOffice/Traffic/Order.antt =====
-- What becomes of the messages that `Send` accepts.
use numcore_messaging_librar.Numrabw.PostOffice.Traffic.Events.{
  Event, messages_of, calls_of, publishing, messages_of-append, calls_of-append,
}
use numcore_messaging_librar.Numrabw.PostOffice.Traffic.Outcomes.{
  done_inj, bind_done, send-items, take_front-cases, amqp_call-cases, publish-cases,
}
use numcore_messaging_librar.Common.{
  ℕ, ◌≡◌, inl, inr, refl, sym, ap, ◌∙◌, Bool, true, false, List, [], ◌∷◌, ◌++◌, append_assoc,
  append-nil, ◌&&◌, leb, some, Bytes, arith, Bool-cases,
}
use numcore_messaging_librar.Outcome.{done}
use numcore_messaging_librar.Slaim.Message.{Message, get_size}
use numcore_messaging_librar.Numrabw.LimitedSizeBuffer.{
  LimitedSizeBuffer, Popped, get_item_and_byte_count, try_pop_front,
}
use numcore_messaging_librar.Numrabw.PostOffice.{
  exchange_name, AmqpCall, connects, declares_exchange, Reply,
}
use numcore_messaging_librar.Numrabw.PostOffice.Status.{
  Machine, Station, check_hostname, counts_agree, get_status_message,
}
use numcore_messaging_librar.Numrabw.PostOffice.Sender.{
  Sending, SendRound, count_sent, schedule, open_session, send_popped, send_status,
}
use numcore_messaging_librar.Numrabw.PostOffice.SenderThread.{disconnected}
use numcore_messaging_librar.Numrabw.PostOffice.Traffic.{
  Traffic, with_buffer, state_of, noted, Step, client_sends, sender_takes, sender_reports,
  sender_connects, Reaches, stays, goes_on, taken_event, status_event,
}

-- What has become of the messages that were taken, in their order; the others are in the buffer.
pub record IsOrdered (t : Traffic) : Type 0 where
  pub history : messages_of t.events ++ t.sending.station.send_buffer.items ≡ t.accepted
  pub wire : publishing (t.sending.link.calls ++ t.former) ≡ calls_of t.events

-- What a step of the sender has done, of which these are the events, and in which state it leaves
-- the thread.
pub record Adds (t : Traffic) (added : List Event) (s' : Sending) : Type 0 where
  pub taken :
      messages_of added ++ s'.station.send_buffer.items ≡ t.sending.station.send_buffer.items
  pub called :
      publishing (s'.link.calls ++ t.former)
      ≡ publishing (t.sending.link.calls ++ t.former) ++ calls_of added

Adds-IsOrdered :
    (t : Traffic) (added : List Event) (s' : Sending)
    → IsOrdered t
    → Adds t added s'
    → IsOrdered (record t { sending = s'; events = t.events ++ added })
Adds-IsOrdered t added s' v a = record {
  history = rw (messages_of-append t.events added, append_assoc, a.taken) v.history;
  wire = rw (calls_of-append t.events added, a.called, v.wire) refl;
}

send_popped-Adds :
    (t : Traffic) (at : ℕ) (m : Message) (rest : List Message) (b : LimitedSizeBuffer Message)
    (reply : Reply Sending)
    → t.sending.station.send_buffer.items ≡ m ∷ rest
    → b.items ≡ rest
    → send_popped at t.sending (some m, b) ≡ done reply
    → Adds t (taken_event (some m) reply) (state_of reply)
unfolding send_popped count_sent
send_popped-Adds t at m rest b reply items left is =
    elim (publish-cases (with_buffer b t.sending) m (count_sent at m) reply is) [
      | inl (l, state, calls) ↦
          rw state (record { taken = ap (◌∷◌ m) left ∙ sym items; called = rw calls refl })
      | inr (w, l, state, calls) ↦ rw state (record {
        taken = ap (◌∷◌ m) left ∙ sym items;
        called = rw (calls, append-nil (publishing (t.sending.link.calls ++ t.former))) refl;
      })
    ]

sender_takes-Adds :
    (t : Traffic) (at : ℕ) (popped : Popped Message) (reply : Reply Sending)
    → try_pop_front get_size t.sending.station.send_buffer ≡ done popped
    → send_popped at t.sending popped ≡ done reply
    → Adds t (taken_event popped.0 reply) (state_of reply)
unfolding try_pop_front send_popped
sender_takes-Adds t at popped reply pops is =
    elim (take_front-cases _ t.sending.station.send_buffer.items popped pops) [
      | inl (items, nothing) ↦
          rw (nothing, sym (done_inj (rw nothing at is)))
            (record { taken = refl; called = sym (append-nil _) })
      | inr (m, rest, b, items, front, left) ↦
          rw front (send_popped-Adds t at m rest b reply items left (rw front at is))
    ]

check_hostname-send_buffer :
    (now : ℕ) (machine : Machine) (s : Station)
    → (check_hostname now machine s).send_buffer ≡ s.send_buffer
unfolding check_hostname
check_hostname-send_buffer now machine s = ground arith

module _ (timestamp : Bytes) (rate : ℕ → Bytes) where
  get_status_message-send_buffer :
      (now : ℕ) (machine : Machine) (s : Station) (made : Message × Station)
      → get_status_message timestamp rate now machine s ≡ done made
      → made.1.send_buffer ≡ s.send_buffer
  unfolding get_status_message
  get_status_message-send_buffer now machine s made is =
      let c : Station = check_hostname now machine s in
      let agree : Bool =
        counts_agree (get_item_and_byte_count c.recv_buffer)
        && counts_agree (get_item_and_byte_count c.send_buffer) in
      elim (Bool-cases agree) [
        | inl yes_ ↦
            ap (λ (r : Message × Station). r.1.send_buffer) (sym (done_inj (rw yes_ at is)))
            ∙ check_hostname-send_buffer now machine s
        | inr no_ ↦ absurd (cc (rw no_ at is))
      ]

  send_status-Adds :
      (t : Traffic) (r : SendRound) (reply : Reply Sending)
      → send_status timestamp rate r t.sending ≡ done reply
      → Adds t
          (status_event
            (leb t.sending.next_status r.now)
            (get_status_message timestamp rate r.now r.machine t.sending.station)
            reply)
          (state_of reply)
  unfolding send_status schedule
  send_status-Adds t r reply is = elim (Bool-cases (leb t.sending.next_status r.now)) [
    | inr early ↦
        rw (early, sym (done_inj (rw early at is)))
          (record { taken = refl; called = sym (append-nil _) })
    | inl due ↦
        let (made, makes, after) =
          bind_done (get_status_message timestamp rate r.now r.machine t.sending.station) _ _
            (rw due at is) in
        let same = get_status_message-send_buffer r.now r.machine t.sending.station made makes in
        elim (publish-cases (record (t.sending) { station = made.1 }) made.0 (schedule r.now) reply
          after) [
            | inl (l, state, calls) ↦
                rw (due, makes, state)
                  (record {
                    taken = ap (λ (b : LimitedSizeBuffer Message). b.items) same;
                    called = rw calls refl;
                  })
            | inr (w, l, state, calls) ↦
                rw (due, makes, state)
                  (record {
                    taken = ap (λ (b : LimitedSizeBuffer Message). b.items) same;
                    called = rw calls (sym (append-nil _));
                  })
          ]
  ]

noted-append :
    (accepted : Bool) (msg : Message) (before items : List Message)
    → before ++ noted accepted msg items ≡ noted accepted msg (before ++ items)
noted-append true msg before items = sym (append_assoc before items (msg ∷ []))
noted-append false msg before items = refl

-- A new connection, by which nothing is published.
record Connected (before : Sending) (former : List AmqpCall) (s' : Sending) : Type 0 where
  same_buffer : s'.station.send_buffer ≡ before.station.send_buffer
  nothing_published : publishing (s'.link.calls ++ former) ≡ publishing former

open_session-Connected :
    (connect_string : Bytes) (steady system : ℕ) (s : Sending) (former : List AmqpCall)
    (reply : Reply Sending)
    → s.link.calls ≡ []
    → open_session connect_string steady system s ≡ done reply
    → Connected s former (state_of reply)
unfolding open_session
open_session-Connected connect_string steady system s former reply e is =
    elim (amqp_call-cases (connects connect_string) s.link) [
      | inr (w, l, thrown, calls) ↦
          rw (ap state_of (sym (done_inj (rw thrown at is))))
            (record { same_buffer = refl; nothing_published = rw (calls, e) refl })
      | inl (l, called, calls) ↦
          let is' = rw called at is in
          elim (amqp_call-cases (declares_exchange exchange_name) l) [
            | inr (w, l', thrown, calls') ↦
                rw (ap state_of (sym (done_inj (rw thrown at is'))))
                  (record { same_buffer = refl; nothing_published = rw (calls', calls, e) refl })
            | inl (l', called', calls') ↦
                rw (ap state_of (sym (done_inj (rw called' at is'))))
                  (record { same_buffer = refl; nothing_published = rw (calls', calls, e) refl })
          ]
    ]

-- Nothing has been sent yet.
pub record IsFresh (t : Traffic) : Type 0 where
  pub none_accepted : t.accepted ≡ []
  pub none_yet : t.events ≡ []
  pub none_waiting : t.sending.station.send_buffer.items ≡ []
  pub none_called : t.sending.link.calls ++ t.former ≡ []

module _ (Q : Type 0) (megabytes : ℕ → Bytes) (timestamp : Bytes) (rate : ℕ → Bytes)
    (connect_string : Bytes) where
  Step-IsOrdered :
      (t u : Traffic)
      → IsOrdered t
      → Step Q megabytes timestamp rate connect_string t u
      → IsOrdered u
  Step-IsOrdered _ _ v (client_sends t o o' msg accepted same is) = record {
    history =
        ap (λ items. messages_of t.events ++ items)
          (send-items megabytes o o' msg accepted is
            ∙ ap (λ (b : LimitedSizeBuffer Message). noted accepted msg b.items) same)
        ∙ noted-append accepted msg (messages_of t.events) _
        ∙ ap (noted accepted msg) v.history;
    wire = v.wire;
  }
  Step-IsOrdered _ _ v (sender_takes t at popped reply pops is) =
      Adds-IsOrdered t (taken_event popped.0 reply) (state_of reply) v
        (sender_takes-Adds t at popped reply pops is)
  Step-IsOrdered _ _ v (sender_reports t r reply is) =
      Adds-IsOrdered t _ (state_of reply) v (send_status-Adds timestamp rate t r reply is)
  Step-IsOrdered _ _ v (sender_connects t fate steady system reply is) =
      let c =
        open_session-Connected connect_string steady system (disconnected fate t.sending)
          (t.sending.link.calls ++ t.former) reply refl is in
      record { history = rw c.same_buffer v.history; wire = c.nothing_published ∙ v.wire }

  -- From a state in which nothing has been sent, by whatever steps of the client and the sender, in
  -- whatever order, and over however many connections: the messages for which `Send` has returned
  -- true are, in their order, those that the sender has taken and those in the buffer. The publishing
  -- calls of all connections are, in their order, one for each message that was taken and whose
  -- publishing has returned, with its type and text, and one for each status message that was made
  -- when it was due and whose publishing has returned; a message whose publishing has thrown is in
  -- none of them.
  pub Reaches-IsOrdered :
      (t u : Traffic)
      → IsFresh t
      → Reaches Q megabytes timestamp rate connect_string t u
      → IsOrdered u
  Reaches-IsOrdered t _ f stays = record {
    history = rw (f.none_yet, f.none_waiting, f.none_accepted) refl;
    wire = rw (f.none_called, f.none_yet) refl;
  }
  Reaches-IsOrdered t _ f (goes_on u v before last) =
      Step-IsOrdered u v (Reaches-IsOrdered t u f before) last
