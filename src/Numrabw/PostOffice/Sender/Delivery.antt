-- ===== src/Numrabw/PostOffice/Sender/Delivery.antt =====
-- What becomes of the messages in the sender's buffer.
use numcore_messaging_librar.Common.{
  ℕ, ◌<◌, ◌≡◌, refl, ap, ◌∙◌, false, List, [], ◌∷◌, ◌++◌, Option, none, some, Bytes, All, arith,
  append-nil,
}
use numcore_messaging_librar.Outcome.{done}
use numcore_messaging_librar.Slaim.Message.{Message, get_size}
use numcore_messaging_librar.Numrabw.LimitedSizeBuffer.{is_nil, pop_front, run_calls}
use numcore_messaging_librar.Numrabw.LimitedSizeBuffer.Invariant.{
  IsCounted, ArePositive, front_removed, try_pop_front_lem, front_removed-IsCounted,
}
use numcore_messaging_librar.Numrabw.PostOffice.{
  AmqpCall, publishes, Link, returned, raised, amqp_call,
}
use numcore_messaging_librar.Numrabw.PostOffice.Sender.{
  Sending, SendRound, publish, count_sent, send_popped, send_status, send_round, send_rounds,
}

-- No other thread calls in the round, and no status message is due.
pub record IsQuiet (next_status : ℕ) (r : SendRound) : Type 0 where
  pub undisturbed : r.script.before_lock ≡ []
  pub early : r.now < next_status

-- The calls with these messages published after them, the newest first.
abbrev pub published : List Message → List AmqpCall → List AmqpCall
published [] cs = cs
published (msg ∷ msgs) cs = published msgs (publishes msg.text msg.type ∷ cs)

-- Each message with the round that sends it.
abbrev pub Schedule : Type 0
Schedule = List (Message × SendRound)

abbrev pub messages : Schedule → List Message
messages [] = []
messages ((msg, r) ∷ plan) = msg ∷ messages plan

abbrev pub rounds : Schedule → List SendRound
rounds [] = []
rounds ((msg, r) ∷ plan) = r ∷ rounds plan

-- One call that does not throw for each message of the plan.
abbrev pub no_throws : Schedule → List (Option Bytes) → List (Option Bytes)
no_throws [] fate = fate
no_throws (p ∷ plan) fate = none ∷ no_throws plan fate

-- A buffer that counts the bytes of its items, each of which has some.
pub record IsSound (s : Sending) (items : List Message) : Type 0 where
  pub same : s.station.send_buffer.items ≡ items
  pub counted : IsCounted get_size s.station.send_buffer
  pub positive : ArePositive get_size items

abbrev pub taken : Sending → List Message → Sending
taken s rest = record s {
  station = record (s.station) { send_buffer = front_removed get_size s.station.send_buffer rest };
}

pub taken-IsSound :
    (s : Sending) (msg : Message) (rest : List Message)
    → IsSound s (msg ∷ rest)
    → IsSound (taken s rest) rest
taken-IsSound s msg rest v = record {
  same = refl;
  counted = front_removed-IsCounted get_size s.station.send_buffer msg rest v.counted v.same;
  positive = v.positive.1;
}

pop_next :
    (s : Sending) (r : SendRound) (msg : Message) (rest : List Message)
    → r.script.before_lock ≡ []
    → IsSound s (msg ∷ rest)
    → pop_front get_size s.station.send_buffer s.max_wait r.script
      ≡ done (some msg, front_removed get_size s.station.send_buffer rest)
unfolding pop_front run_calls
pop_next s r msg rest q v =
    let busy : is_nil s.station.send_buffer.items ≡ false = ap is_nil v.same in
    rw (busy, q)
      (try_pop_front_lem get_size s.station.send_buffer msg rest v.counted v.same v.positive.1)

not_due :
    (timestamp : Bytes) (rate : ℕ → Bytes) (r : SendRound) (s : Sending)
    → r.now < s.next_status
    → send_status timestamp rate r s ≡ done (returned s)
unfolding send_status
not_due timestamp rate r s h = ground arith

-- The calls that the sender has made, and the messages left in its buffer.
pub record HasSent (calls : List AmqpCall) (left : List Message) (s' : Sending) : Type 0 where
  pub calls_made : s'.link.calls ≡ calls
  pub items_left : s'.station.send_buffer.items ≡ left

module _ (timestamp : Bytes) (rate : ℕ → Bytes) where
  abbrev sent : Sending → SendRound → Message → List Message → Link → Sending
  sent s r msg rest l = count_sent r.sent msg (record (taken s rest) { link = l })

  send_round-returned :
      (s : Sending) (r : SendRound) (msg : Message) (rest : List Message) (l : Link)
      → IsQuiet s.next_status r
      → IsSound s (msg ∷ rest)
      → amqp_call (publishes msg.text msg.type) s.link ≡ returned l
      → send_round timestamp rate r s ≡ done (returned (sent s r msg rest l))
  unfolding send_round send_popped publish count_sent
  send_round-returned s r msg rest l q v e =
      rw (pop_next s r msg rest q.undisturbed v, e)
        (not_due timestamp rate r (sent s r msg rest l) q.early)

  pub send_round-raised :
      (s : Sending) (r : SendRound) (msg : Message) (rest : List Message) (w : Bytes) (l : Link)
      → r.script.before_lock ≡ []
      → IsSound s (msg ∷ rest)
      → amqp_call (publishes msg.text msg.type) s.link ≡ raised w l
      → send_round timestamp rate r s ≡ done (raised w (record (taken s rest) { link = l }))
  unfolding send_round send_popped publish
  send_round-raised s r msg rest w l q v e = rw (pop_next s r msg rest q v, e) refl

  -- A plan without a throw, and then whatever the rounds after it do.
  after_plan :
      (plan : Schedule) (left : List Message) (fate : List (Option Bytes)) (s : Sending)
      → All (λ (p : Message × SendRound). IsQuiet s.next_status p.1) plan
      → IsSound s (messages plan ++ left)
      → s.link.fate ≡ no_throws plan fate
      → (s' : Sending) × ((later : List SendRound)
          → send_rounds timestamp rate (rounds plan ++ later) s
            ≡ send_rounds timestamp rate later s')
        × IsSound s' left
        × (s'.link ≡ record { fate = fate; calls = published (messages plan) s.link.calls })
        × (s'.next_status ≡ s.next_status)
  unfolding send_rounds count_sent amqp_call
  after_plan [] left fate s q v e =
      (s, (λ later. refl), v, ap (λ f. record (s.link) { fate = f }) e, refl)
  after_plan ((msg, r) ∷ plan) left fate s q v e =
      let l : Link = record {
        fate = no_throws plan fate;
        calls = publishes msg.text msg.type ∷ s.link.calls;
      } in
      let s1 : Sending = sent s r msg (messages plan ++ left) l in
      let w = taken-IsSound s msg (messages plan ++ left) v in
      let (s', ran, sound, link, next) =
        after_plan plan left fate s1 q.1
          (record { same = w.same; counted = w.counted; positive = w.positive }) refl in
      let first = send_round-returned s r msg (messages plan ++ left) l q.0 v (rw e refl) in
      (s', (λ later. rw first (ran later)), sound, link, next)

  -- A backlog of messages is published oldest first, each exactly once, when no call throws and
  -- nothing else happens: the rounds of the plan return, with the backlog published and the rest
  -- of the buffer left. The buffer counts its bytes, and each of its messages has some.
  pub send_rounds-published :
      (plan : Schedule) (left : List Message) (fate : List (Option Bytes)) (s : Sending)
      → All (λ (p : Message × SendRound). IsQuiet s.next_status p.1) plan
      → IsSound s (messages plan ++ left)
      → s.link.fate ≡ no_throws plan fate
      → (s' : Sending) × (send_rounds timestamp rate (rounds plan) s ≡ done (returned s'))
        × HasSent (published (messages plan) s.link.calls) left s'
  unfolding send_rounds
  send_rounds-published plan left fate s q v e =
      let (s', ran, sound, link, next) = after_plan plan left fate s q v e in
      (
        s',
        rw⁻¹ (append-nil (rounds plan)) (ran []),
        record { calls_made = ap (λ l. l.calls) link; items_left = sound.same },
      )

  -- In rounds in which no other thread calls the buffer before the sender has its lock, and no status
  -- message is due, and on a buffer that counts its bytes and each of whose messages has some: when
  -- the publishing of a message throws, behind a backlog that is published without a throw, the
  -- sender has the exception, and the message is lost: it has not been published, and only those
  -- behind it are left in the buffer.
  pub send_rounds-loses :
      (plan : Schedule) (msg : Message) (r : SendRound) (left : List Message) (w : Bytes)
      (fate : List (Option Bytes)) (later : List SendRound) (s : Sending)
      → All (λ (p : Message × SendRound). IsQuiet s.next_status p.1) plan
      → IsQuiet s.next_status r
      → IsSound s (messages plan ++ (msg ∷ left))
      → s.link.fate ≡ no_throws plan (some w ∷ fate)
      → (s' : Sending) × (send_rounds timestamp rate (rounds plan ++ (r ∷ later)) s
          ≡ done (raised w s'))
        × HasSent (published (messages plan) s.link.calls) left s'
  unfolding send_rounds amqp_call
  send_rounds-loses plan msg r left w fate later s q q' v e =
      let (s1, ran, sound, link, next) = after_plan plan (msg ∷ left) (some w ∷ fate) s q v e in
      let l : Link = record { fate = fate; calls = published (messages plan) s.link.calls } in
      let thrown = send_round-raised s1 r msg left w l q'.undisturbed sound (rw link refl) in
      (
        record (taken s1 left) { link = l },
        ran (r ∷ later) ∙ rw thrown refl,
        record { calls_made = refl; items_left = refl },
      )
