-- ===== src/Numrabw/PostOffice/Receiver/Bindings.antt =====
-- The bindings of the queue, as the calls so far leave them, and what subscriptions mean.
use numcore_messaging_librar.Common.{
  ◌≡◌, ◌≢◌, inl, inr, refl, sym, Bool, true, false, List, [], ◌∷◌, Option, none, some, Bytes,
  bytes_eq, bytes_eq_iff, if◌then◌else◌, arith, Bool-cases,
}
use numcore_messaging_librar.OrderedMap.{assign, erase, find}
use numcore_messaging_librar.OrderedMap.Laws.{
  IsSorted, compare_keys-same_iff, find-assign, find-erase,
}
use numcore_messaging_librar.Numrabw.PostOffice.{
  AmqpCall, connects, declares_exchange, declares_queue, binds, unbinds, consumes, publishes, Reply,
  returned, raised, waiting, answer, amqp_call, Ends,
}
use numcore_messaging_librar.Numrabw.PostOffice.Receiver.{
  SubscribeAction, Subscriptions, Receiving, with_link, call,
}

-- Whether messages with the key reach the queue, by the calls so far, the newest first. A queue
-- starts with no bindings, and ends with its connection.
abbrev pub bound_after : Bytes → AmqpCall → Bool → Bool
bound_after k (binds k') b = if bytes_eq k' k then true else b
bound_after k (unbinds k') b = if bytes_eq k' k then false else b
bound_after k declares_queue b = false
bound_after k (connects to) b = false
bound_after k (declares_exchange name) b = b
bound_after k consumes b = b
bound_after k (publishes key text) b = b

unfoldable pub is_bound : Bytes → List AmqpCall → Bool
is_bound k [] = false
is_bound k (c ∷ cs) = bound_after k c (is_bound k cs)

abbrev pub is_some {ℓ} : {A : Type ℓ} → Option A → Bool
is_some none = false
is_some (some a) = true

abbrev pub has : Bytes → Subscriptions → Bool
has k subs = is_some (find k subs)

-- What the client means by its calls.
abbrev pub apply : SubscribeAction → Subscriptions → Subscriptions
apply a subs = if a.subscribe then assign a.message_type tt subs else erase a.message_type subs

unfoldable pub replay : List SubscribeAction → Subscriptions → Subscriptions
replay [] subs = subs
replay (a ∷ acts) subs = replay acts (apply a subs)

-- The queue has the activity key and the subscriptions, and nothing else.
abbrev pub IsBound : {Q : Type 0} → Bytes → Receiving Q → Type 0
IsBound act s =
    (k : Bytes) → is_bound k s.link.calls ≡ (if bytes_eq act k then true else has k s.subscriptions)

module _ {Q : Type 0} where
  -- A call changes the link only.
  abbrev pub Called : AmqpCall → Receiving Q → Receiving Q → Type 0
  Called c s s' =
      (s'.link.calls ≡ c ∷ s.link.calls)
      × (s'.subscriptions ≡ s.subscriptions)
      × (s'.pending ≡ s.pending)

  abbrev pub Kept : Receiving Q → Receiving Q → Type 0
  Kept s s' = (s'.subscriptions ≡ s.subscriptions) × (s'.pending ≡ s.pending)

  answered :
      (c : AmqpCall) (s : Receiving Q) (fate : List (Option Bytes))
      → Ends (Called c s) (Kept s) (with_link s (answer c s.link.calls fate))
  answered c s [] = (refl, refl, refl)
  answered c s (none ∷ fate) = (refl, refl, refl)
  answered c s (some w ∷ fate) = (refl, refl)

  pub call-Called : (c : AmqpCall) (s : Receiving Q) → Ends (Called c s) (Kept s) (call c s)
  unfolding call amqp_call
  call-Called c s = answered c s s.link.fate

pub has-assign :
    (t k : Bytes) (subs : Subscriptions)
    → has k (assign t tt subs) ≡ (if bytes_eq t k then true else has k subs)
has-assign t k subs = elim (Bool-cases (bytes_eq t k)) [
  | inl e ↦ rw (e, (find-assign t k tt subs).0 (sym ((bytes_eq_iff t k).0 e)))
  | inr e ↦ rw (e, (find-assign t k tt subs).1 (λ p. (ground (arith, p, e, bytes_eq_iff t k))))
]

pub has-erase :
    (t k : Bytes) (subs : Subscriptions)
    → IsSorted subs
    → has k (erase t subs) ≡ (if bytes_eq t k then false else has k subs)
has-erase t k subs o = elim (Bool-cases (bytes_eq t k)) [
  | inl e ↦ rw (e, (find-erase t k subs o).0 (sym ((bytes_eq_iff t k).0 e)))
  | inr e ↦ rw (e, (find-erase t k subs o).1 (λ p. (ground (arith, p, e, bytes_eq_iff t k))))
]

pub has-cons :
    (t k : Bytes) (u : Unit {0}) (subs : Subscriptions)
    → has k ((t, u) ∷ subs) ≡ (if bytes_eq t k then true else has k subs)
unfolding find
has-cons t k u subs = ground (arith, bytes_eq_iff t k, compare_keys-same_iff k t)

module _ (act t k : Bytes) (cs : List AmqpCall) (subs : Subscriptions) where
  pub bound-assign :
      is_bound k cs ≡ (if bytes_eq act k then true else has k subs)
      → is_bound k (binds t ∷ cs) ≡ (if bytes_eq act k then true else has k (assign t tt subs))
  unfolding is_bound
  bound-assign h = rw (has-assign t k subs) (ground (arith, h))

  pub bound-erase :
      t ≢ act
      → IsSorted subs
      → is_bound k cs ≡ (if bytes_eq act k then true else has k subs)
      → is_bound k (unbinds t ∷ cs) ≡ (if bytes_eq act k then true else has k (erase t subs))
  unfolding is_bound
  bound-erase ne o h =
      rw (has-erase t k subs o) (ground (arith, h, ne, bytes_eq_iff act k, bytes_eq_iff t k))

pub Ends-map :
    {S : Type 0} (P R P' R' : S → Type 0) (m : Reply S)
    → Ends P R m
    → ((s : S) → P s → P' s)
    → ((s : S) → R s → R' s)
    → Ends P' R' m
Ends-map P R P' R' (returned s) h p r = p s h
Ends-map P R P' R' (raised w s) h p r = r s h
Ends-map P R P' R' (waiting s) h p r = elim h [ ]
