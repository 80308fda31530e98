-- ===== src/Numrabw/PostOffice/Receiver.antt =====
-- The receiver's thread, `RunReceiverThread`. The messages that a `Consume` hands over are in
-- Handling; here it returns or throws.
pub mod Bindings
pub mod Actions
pub mod Session
pub mod Interruptions
pub mod Rounds
pub mod Recovery
use numcore_messaging_librar.Common.{
  ℕ, zero, suc, ◌≡◌, Bool, true, false, List, [], ◌∷◌, ◌++◌, Option, none, some, Bytes, codes,
  length, if◌then◌else◌,
}
use numcore_messaging_librar.OrderedMap.{OrderedMap, assign, erase}
use numcore_messaging_librar.Numrabw.PostOffice.{
  AmqpCall, connects, declares_exchange, declares_queue, binds, unbinds, consumes, exchange_name,
  Link, Reply, returned, raised, waiting, amqp_call, ◌>>=◌,
}

pub record SubscribeAction : Type 0 where
  pub subscribe : Bool
  pub message_type : Bytes

-- shared_buffer/shared_buffer.h, a library that the repository does not hold: a queue, first in
-- first out.
pub record SharedBuffer {ℓ} (A : Type ℓ) (Q : Type ℓ) : Type ℓ where
  pub items : Q → List A
  pub push_back : Q → A → Q
  pub pop_front : Q → Option (A × Q)
  pub items-push_back : (q : Q) (a : A) → items (push_back q a) ≡ items q ++ (a ∷ [])
  pub pop_front-none : (q : Q) → pop_front q ≡ none → items q ≡ []
  pub pop_front-some :
      (q : Q) (a : A) (q' : Q) → pop_front q ≡ some (a, q') → items q ≡ a ∷ items q'

-- `std::set<MessageType>`
abbrev pub Subscriptions : Type 0
Subscriptions = OrderedMap (Unit {0})

pub record Receiving (Q : Type 0) : Type 0 where
  pub link : Link
  pub subscriptions : Subscriptions
  pub pending : Q

module _ {Q : Type 0} where
  abbrev pub with_link : Receiving Q → Reply Link → Reply (Receiving Q)
  with_link s (returned l) = returned (record s { link = l })
  with_link s (raised w l) = raised w (record s { link = l })
  with_link s (waiting l) = waiting (record s { link = l })

  unfoldable pub call : AmqpCall → Receiving Q → Reply (Receiving Q)
  unfolding amqp_call
  call c s = with_link s (amqp_call c s.link)

  unfoldable pub bind_all : Subscriptions → Receiving Q → Reply (Receiving Q)
  unfolding call
  bind_all [] s = returned s
  bind_all ((message_type, _) ∷ subs) s = call (binds message_type) s >>= bind_all subs

  -- The part of the outer loop in front of `receiverOk = true`.
  unfoldable pub open_session : Bytes → Bytes → Receiving Q → Reply (Receiving Q)
  unfolding call bind_all
  open_session connect_string activity_key s =
      call (connects connect_string) s
      >>= call (declares_exchange exchange_name)
      >>= call declares_queue
      >>= call (binds activity_key)
      >>= bind_all s.subscriptions

module _ {Q : Type 0} (shared : SharedBuffer SubscribeAction Q) where
  -- The set changes before the call that may throw.
  unfoldable pub take_action : SubscribeAction → Receiving Q → Reply (Receiving Q)
  unfolding call
  take_action a s =
      if a.subscribe
      then call (binds a.message_type)
          (record s { subscriptions = assign a.message_type tt s.subscriptions })
      else call (unbinds a.message_type)
          (record s { subscriptions = erase a.message_type s.subscriptions })

  abbrev pub take_next :
      (Receiving Q → Reply (Receiving Q))
      → Receiving Q
      → Option (SubscribeAction × Q)
      → Reply (Receiving Q)
  take_next continue s none = returned s
  take_next continue s (some (a, q)) = take_action a (record s { pending = q }) >>= continue

  -- `while (pendingSubscribeActions.pop_front(subscribeAction))`
  unfoldable pub take_actions : ℕ → Receiving Q → Reply (Receiving Q)
  unfolding take_action
  take_actions zero s = waiting s
  take_actions (suc fuel) s = take_next (take_actions fuel) s (shared.pop_front s.pending)

  unfoldable pub arrive : List SubscribeAction → Q → Q
  arrive [] q = q
  arrive (a ∷ more) q = arrive more (shared.push_back q a)

  -- The inner loop. A round has the actions that other threads have pushed since the one before; one
  -- that is pushed while the round empties the buffer is taken as if it were there at the start. The
  -- list ends where `killed` is seen.
  unfoldable pub consume_rounds : List (List SubscribeAction) → Receiving Q → Reply (Receiving Q)
  unfolding take_actions arrive call
  consume_rounds [] s = returned s
  consume_rounds (fresh ∷ rounds) s =
      let q = arrive fresh s.pending in
      take_actions (suc (length (shared.items q))) (record s { pending = q })
      >>= call consumes
      >>= consume_rounds rounds

  -- The body of the `try` block, without the reports.
  unfoldable pub session :
      Bytes → Bytes → List (List SubscribeAction) → Receiving Q → Reply (Receiving Q)
  unfolding open_session consume_rounds
  session connect_string activity_key rounds s =
      open_session connect_string activity_key s >>= consume_rounds rounds
