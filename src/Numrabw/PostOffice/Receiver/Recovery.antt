-- ===== src/Numrabw/PostOffice/Receiver/Recovery.antt =====
-- A session after one that an exception ended.
use numcore_messaging_librar.Common.{
  ℕ, zero, suc, ◌≡◌, refl, sym, ap, ◌∙◌, Bool, true, false, List, [], ◌∷◌, ◌++◌, Option, none, some,
  Bytes, length, Bool-cases, All-append, inl, inr, if◌then◌else◌,
}
use numcore_messaging_librar.OrderedMap.Laws.{IsSorted, assign-IsSorted, erase-IsSorted}
use numcore_messaging_librar.Numrabw.PostOffice.{
  AmqpCall, binds, unbinds, consumes, Reply, returned, raised, waiting, ◌>>=◌, amqp_call, Ends,
}
use numcore_messaging_librar.Numrabw.PostOffice.Receiver.{
  SubscribeAction, SharedBuffer, Subscriptions, Receiving, call, bind_all, open_session,
  take_action, take_next, take_actions, arrive, consume_rounds, session,
}
use numcore_messaging_librar.Numrabw.PostOffice.Receiver.Bindings.{IsBound, replay}
use numcore_messaging_librar.Numrabw.PostOffice.Receiver.Actions.{Drained, Interrupted}
use numcore_messaging_librar.Numrabw.PostOffice.Receiver.Session.{replay-append, concat}
use numcore_messaging_librar.Numrabw.PostOffice.Receiver.Interruptions.{
  AllOther, AllOther-left, AllOther-right,
}
use numcore_messaging_librar.Numrabw.PostOffice.Receiver.Rounds.{open_session-consume_rounds}
use mathlib.Core.Path.{subst}
use numcore_messaging_librar.OrderedMap.{assign, erase}

module _ {Q : Type 0} where
  -- A new connection, on which no call throws.
  abbrev pub reconnected : Receiving Q → Receiving Q
  reconnected s = record s { link = record { fate = []; calls = [] } }

  -- No call throws any more.
  abbrev IsCalm : Receiving Q → Type 0
  IsCalm s = s.link.fate ≡ []

  abbrev Unthrown : Reply (Receiving Q) → Type 0
  Unthrown (returned s) = IsCalm s
  Unthrown (raised w s) = ⊥
  Unthrown (waiting s) = Unit

  Unthrown->>= :
      (m : Reply (Receiving Q)) (f : Receiving Q → Reply (Receiving Q))
      → Unthrown m
      → ((s : Receiving Q) → IsCalm s → Unthrown (f s))
      → Unthrown (m >>= f)
  Unthrown->>= (returned s) f h k = k s h
  Unthrown->>= (raised w s) f h k = elim h [ ]
  Unthrown->>= (waiting s) f h k = tt

  call-Unthrown : (c : AmqpCall) (s : Receiving Q) → IsCalm s → Unthrown (call c s)
  unfolding call amqp_call
  call-Unthrown c s e = rw e refl

  bind_all-Unthrown :
      (subs : Subscriptions) (s : Receiving Q) → IsCalm s → Unthrown (bind_all subs s)
  unfolding bind_all
  bind_all-Unthrown [] s e = e
  bind_all-Unthrown ((message_type, unit) ∷ subs) s e =
      Unthrown->>= _ (bind_all subs) (call-Unthrown _ s e) (bind_all-Unthrown subs)

  open_session-Unthrown :
      (connect_string act : Bytes) (s : Receiving Q)
      → IsCalm s
      → Unthrown (open_session connect_string act s)
  unfolding open_session
  open_session-Unthrown connect_string act s e =
      Unthrown->>= _ (bind_all s.subscriptions)
        (Unthrown->>= _ (call _)
          (Unthrown->>= _ (call _) (Unthrown->>= _ (call _) (call-Unthrown _ s e) (call-Unthrown _))
            (call-Unthrown _))
          (call-Unthrown _))
        (bind_all-Unthrown s.subscriptions)

module _ {Q : Type 0} (shared : SharedBuffer SubscribeAction Q) where
  take_action-Unthrown :
      (a : SubscribeAction) (s : Receiving Q) → IsCalm s → Unthrown (take_action shared a s)
  unfolding take_action
  take_action-Unthrown a s e = elim (Bool-cases a.subscribe) [
    | inl subs ↦ rw subs (call-Unthrown (binds a.message_type) _ e)
    | inr unsubs ↦ rw unsubs (call-Unthrown (unbinds a.message_type) _ e)
  ]

  take_next-Unthrown :
      (continue : Receiving Q → Reply (Receiving Q)) (s : Receiving Q)
      (next : Option (SubscribeAction × Q))
      → IsCalm s
      → ((s' : Receiving Q) → IsCalm s' → Unthrown (continue s'))
      → Unthrown (take_next shared continue s next)
  take_next-Unthrown continue s none e h = e
  take_next-Unthrown continue s (some (a, q)) e h =
      Unthrown->>= _ continue (take_action-Unthrown a (record s { pending = q }) e) h

  take_actions-Unthrown :
      (fuel : ℕ) (s : Receiving Q) → IsCalm s → Unthrown (take_actions shared fuel s)
  unfolding take_actions
  take_actions-Unthrown zero s e = tt
  take_actions-Unthrown (suc fuel) s e =
      take_next-Unthrown _ s (shared.pop_front s.pending) e (take_actions-Unthrown fuel)

  consume_rounds-Unthrown :
      (rounds : List (List SubscribeAction)) (s : Receiving Q)
      → IsCalm s
      → Unthrown (consume_rounds shared rounds s)
  unfolding consume_rounds
  consume_rounds-Unthrown [] s e = e
  consume_rounds-Unthrown (fresh ∷ rounds) s e =
      Unthrown->>= _ (consume_rounds shared rounds)
        (Unthrown->>= _ (call consumes)
          (take_actions-Unthrown (suc (length (shared.items (arrive shared fresh s.pending))))
            (record s { pending = arrive shared fresh s.pending }) e)
          (call-Unthrown consumes))
        (consume_rounds-Unthrown rounds)

apply-IsSorted :
    (b : Bool) (t : Bytes) (subs : Subscriptions)
    → IsSorted subs
    → IsSorted (if b then assign t tt subs else erase t subs)
apply-IsSorted true t subs o = assign-IsSorted t tt subs o
apply-IsSorted false t subs o = erase-IsSorted t subs o

replay-IsSorted :
    (acts : List SubscribeAction) (subs : Subscriptions)
    → IsSorted subs
    → IsSorted (replay acts subs)
unfolding replay
replay-IsSorted [] subs o = o
replay-IsSorted (a ∷ acts) subs o =
    replay-IsSorted acts _ (apply-IsSorted a.subscribe a.message_type subs o)

module _ {Q : Type 0} (shared : SharedBuffer SubscribeAction Q) (act connect_string : Bytes) where
  returned-session :
      (acts : List SubscribeAction) (s : Receiving Q) (m : Reply (Receiving Q))
      → Ends (Drained shared act acts s) (Interrupted shared act acts s) m
      → Unthrown m
      → (s' : Receiving Q) × (m ≡ returned s') × Drained shared act acts s s'
  returned-session acts s (returned s') d u = (s', refl, d)
  returned-session acts s (raised w s') d u = elim u [ ]
  returned-session acts s (waiting s') d u = elim d [ ]

  raised-session :
      (acts : List SubscribeAction) (s : Receiving Q) (m : Reply (Receiving Q)) (w : Bytes)
      (s' : Receiving Q)
      → Ends (Drained shared act acts s) (Interrupted shared act acts s) m
      → m ≡ raised w s'
      → Interrupted shared act acts s s'
  raised-session acts s m w s' d e =
      subst (Ends (Drained shared act acts s) (Interrupted shared act acts s)) e d

  -- A session that an exception ends loses nothing. The next one, over a connection on which no
  -- call throws, returns: the queue is bound to exactly the activity key and the subscriptions,
  -- and these are what the actions say that the first session took, then those it left pending,
  -- and then those that arrive in the second. The subscriptions are in order, as in a `std::set`,
  -- and no action is about the activity key.
  pub session-recovers :
      (fresh fresh' : List SubscribeAction) (rounds rounds' : List (List SubscribeAction))
      (s s1 : Receiving Q) (w : Bytes)
      → IsSorted s.subscriptions
      → AllOther act (shared.items s.pending ++ concat (fresh ∷ rounds))
      → AllOther act (concat (fresh' ∷ rounds'))
      → session shared connect_string act (fresh ∷ rounds) s ≡ raised w s1
      → (taken later : List SubscribeAction) × (s' : Receiving Q) × (taken
            ++ (shared.items s1.pending ++ later)
          ≡ shared.items s.pending ++ concat (fresh ∷ rounds))
        × (session shared connect_string act (fresh' ∷ rounds') (reconnected s1) ≡ returned s')
        × IsBound act s'
        × (s'.subscriptions
            ≡ replay
                (taken ++ (shared.items s1.pending ++ concat (fresh' ∷ rounds')))
                s.subscriptions)
        × (shared.items s'.pending ≡ [])
  unfolding session
  session-recovers fresh fresh' rounds rounds' s s1 w o ne ne' e =
      let acts : List SubscribeAction = shared.items s.pending ++ concat (fresh ∷ rounds) in
      let acts' : List SubscribeAction = shared.items s1.pending ++ concat (fresh' ∷ rounds') in
      let i : Interrupted shared act acts s s1 =
        raised-session acts s _ w s1
          (open_session-consume_rounds shared act connect_string fresh rounds s o ne) e in
      let left : AllOther act (shared.items s1.pending ++ i.later) =
        AllOther-right act i.taken _ (subst (AllOther act) (sym i.conserved) ne) in
      let (s', ran, d) =
        returned-session acts' (reconnected s1) _
          (open_session-consume_rounds shared act connect_string fresh' rounds' (reconnected s1)
            (rw i.replayed (replay-IsSorted i.taken s.subscriptions o))
            (All-append _ (shared.items s1.pending) _
              (AllOther-left act (shared.items s1.pending) i.later left) ne'))
          (Unthrown->>= _ (consume_rounds shared (fresh' ∷ rounds'))
            (open_session-Unthrown connect_string act (reconnected s1) refl)
            (consume_rounds-Unthrown shared (fresh' ∷ rounds'))) in
      (
        i.taken,
        i.later,
        s',
        i.conserved,
        ran,
        d.bound,
        d.replayed
            ∙ ap (replay acts') i.replayed
            ∙ sym (replay-append i.taken acts' s.subscriptions),
        d.none_left,
      )
