-- ===== src/Numrabw/PostOffice/Receiver/Session.antt =====
-- Opening a session of the receiver.
use numcore_messaging_librar.Common.{
  ◌≡◌, refl, sym, ap, ◌∙◌, Bool, true, false, List, [], ◌∷◌, ◌++◌, Bytes, bytes_eq, if◌then◌else◌,
  arith,
}
use numcore_messaging_librar.OrderedMap.{find}
use numcore_messaging_librar.Numrabw.PostOffice.{
  AmqpCall, connects, declares_exchange, declares_queue, binds, exchange_name, Reply, returned,
  ◌>>=◌, Ends, Ends->>=,
}
use numcore_messaging_librar.Numrabw.PostOffice.Receiver.{
  SubscribeAction, Subscriptions, Receiving, call, bind_all, open_session,
}
use mathlib.Core.Path.{subst}
use numcore_messaging_librar.Numrabw.PostOffice.Receiver.Bindings.{
  is_bound, has, apply, replay, IsBound, Called, Kept, call-Called, Ends-map, has-cons,
}

pub replay-append :
    (xs ys : List SubscribeAction) (subs : Subscriptions)
    → replay (xs ++ ys) subs ≡ replay ys (replay xs subs)
unfolding replay
replay-append [] ys subs = refl
replay-append (x ∷ xs) ys subs = replay-append xs ys (apply x subs)

abbrev pub concat : List (List SubscribeAction) → List SubscribeAction
concat [] = []
concat (fresh ∷ rounds) = fresh ++ concat rounds

bound_next :
    (t k : Bytes) (cs : List AmqpCall) (b : Bool)
    → (if b then true else is_bound k (binds t ∷ cs))
      ≡ (if (if bytes_eq t k then true else b) then true else is_bound k cs)
unfolding is_bound
bound_next t k cs b = ground arith

or_swap : (a b : Bool) → (if a then true else if b then true else false) ≡ (if b then true else a)
or_swap a b = ground arith

module _ {Q : Type 0} (act : Bytes) where
  bind_all-Ends :
      (subs : Subscriptions) (s : Receiving Q)
      → Ends
          (λ s'.
            ((k : Bytes)
              → is_bound k s'.link.calls ≡ (if has k subs then true else is_bound k s.link.calls))
            × Kept s s')
          (Kept s)
          (bind_all subs s)
  unfolding bind_all find
  bind_all-Ends [] s = (λ k. refl, (refl, refl))
  bind_all-Ends ((t, u) ∷ subs) s =
      Ends->>= (Called (binds t) s) (Kept s) _ _ (call (binds t) s) (bind_all subs)
        (call-Called (binds t) s)
        (λ s1 h.
          Ends-map
            (λ s'.
              ((k : Bytes)
                → is_bound k s'.link.calls
                  ≡ (if has k subs then true else is_bound k s1.link.calls))
              × Kept s1 s')
            (Kept s1) _ _ (bind_all subs s1) (bind_all-Ends subs s1)
            (λ s' b. (
              λ k. b.0 k ∙ rw (h.0, has-cons t k u subs) (bound_next t k s.link.calls (has k subs)),
              (b.1.0 ∙ h.1, b.1.1 ∙ h.2),
            ))
            (λ s' b. (b.0 ∙ h.1, b.1 ∙ h.2)))
        (λ s1 h. h)

  -- A further call, behind calls that changed the link only.
  call_after :
      (s : Receiving Q) (m : Reply (Receiving Q)) (c : AmqpCall) (P P' : List AmqpCall → Type 0)
      → Ends (λ s1. Kept s s1 × P s1.link.calls) (Kept s) m
      → ((cs : List AmqpCall) → P cs → P' (c ∷ cs))
      → Ends (λ s2. Kept s s2 × P' s2.link.calls) (Kept s) (m >>= call c)
  call_after s m c P P' h next =
      Ends->>= (λ s1. Kept s s1 × P s1.link.calls) (Kept s) _ _ m (call c) h
        (λ s1 k.
          Ends-map (Called c s1) (Kept s1) _ _ (call c s1) (call-Called c s1)
            (λ s2 b. ((b.1 ∙ k.0.0, b.2 ∙ k.0.1), subst P' (sym b.0) (next s1.link.calls k.1)))
            (λ s2 b. (b.0 ∙ k.0.0, b.1 ∙ k.0.1)))
        (λ s1 k. k)

  pub open_session-Ends :
      (connect_string : Bytes) (s : Receiving Q)
      → Ends (λ s'. IsBound act s' × Kept s s') (Kept s) (open_session connect_string act s)
  unfolding open_session is_bound
  open_session-Ends connect_string s =
      let nothing : List AmqpCall → Type 0 = λ cs. Unit {0} in
      let unbound : List AmqpCall → Type 0 = λ cs. (k : Bytes) → is_bound k cs ≡ false in
      let active : List AmqpCall → Type 0 =
        λ cs. (k : Bytes) → is_bound k cs ≡ (if bytes_eq act k then true else false) in
      let connected =
        call_after s (returned s) (connects connect_string) nothing nothing ((refl, refl), tt)
          (λ cs h. tt) in
      let exchanged =
        call_after s _ (declares_exchange exchange_name) nothing nothing connected (λ cs h. tt) in
      let queued = call_after s _ declares_queue nothing unbound exchanged (λ cs h k. refl) in
      let bound =
        call_after s _ (binds act) unbound active queued
          (λ cs h k. ap (λ b. if bytes_eq act k then true else b) (h k)) in
      Ends->>= (λ s1. Kept s s1 × active s1.link.calls) (Kept s) _ _ _ (bind_all s.subscriptions)
        bound
        (λ s1 h.
          Ends-map _ (Kept s1) _ _ (bind_all s.subscriptions s1) (bind_all-Ends s.subscriptions s1)
            (λ s' b. (
              λ k.
                  b.0 k
                  ∙ ap (λ v. if has k s.subscriptions then true else v) (h.1 k)
                  ∙ or_swap (has k s.subscriptions) (bytes_eq act k)
                  ∙ ap (λ subs. if bytes_eq act k then true else has k subs) (sym (b.1.0 ∙ h.0.0)),
              (b.1.0 ∙ h.0.0, b.1.1 ∙ h.0.1),
            ))
            (λ s' b. (b.0 ∙ h.0.0, b.1 ∙ h.0.1)))
        (λ s1 h. h)
