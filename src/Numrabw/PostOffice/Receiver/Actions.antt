-- ===== src/Numrabw/PostOffice/Receiver/Actions.antt =====
-- Emptying the buffer of subscribe actions.
use numcore_messaging_librar.Common.{
  ℕ, zero, suc, ◌<◌, ◌≡◌, ◌≢◌, refl, sym, ap, ◌∙◌, Bool, true, false, List, [], ◌∷◌, ◌++◌,
  append-nil, Option, none, some, Bytes, All, length, arith,
}
use numcore_messaging_librar.OrderedMap.{assign, erase}
use numcore_messaging_librar.OrderedMap.Laws.{IsSorted, assign-IsSorted, erase-IsSorted}
use numcore_messaging_librar.Numrabw.PostOffice.{binds, unbinds, Reply, Ends, Ends->>=}
use numcore_messaging_librar.Numrabw.PostOffice.Receiver.{
  SubscribeAction, SharedBuffer, Receiving, call, take_action, take_actions,
}
use mathlib.Core.List.{cons≢nil}
use mathlib.Core.Path.{subst}
use numcore_messaging_librar.Numrabw.PostOffice.Receiver.{take_next}
use numcore_messaging_librar.Numrabw.PostOffice.Receiver.Bindings.{
  apply, replay, IsBound, Called, Kept, call-Called, bound-assign, bound-erase, Ends-map,
}

module _ {Q : Type 0} (shared : SharedBuffer SubscribeAction Q) (act : Bytes) where
  -- The actions `acts` are all taken.
  pub record Drained (acts : List SubscribeAction) (s s' : Receiving Q) : Type 0 where
    pub bound : IsBound act s'
    pub sorted : IsSorted s'.subscriptions
    pub replayed : s'.subscriptions ≡ replay acts s.subscriptions
    pub none_left : shared.items s'.pending ≡ []

  -- Some of the actions are taken, and the others are still pending, or have not arrived yet.
  pub record Interrupted (acts : List SubscribeAction) (s s' : Receiving Q) : Type 0 where
    pub taken : List SubscribeAction
    pub later : List SubscribeAction
    pub conserved : taken ++ (shared.items s'.pending ++ later) ≡ acts
    pub replayed : s'.subscriptions ≡ replay taken s.subscriptions

  abbrev Applied : SubscribeAction → Receiving Q → Receiving Q → Type 0
  Applied a s s' = (s'.subscriptions ≡ apply a s.subscriptions) × (s'.pending ≡ s.pending)

  applied_bind :
      (t : Bytes) (s : Receiving Q)
      → IsBound act s
      → IsSorted s.subscriptions
      → (s' : Receiving Q)
      → Called (binds t) (record s { subscriptions = assign t tt s.subscriptions }) s'
      → IsBound act s' × IsSorted s'.subscriptions
  applied_bind t s b o s' h = (
    λ k. rw (h.0, h.1) (bound-assign act t k s.link.calls s.subscriptions (b k)),
    rw h.1 (assign-IsSorted t tt s.subscriptions o),
  )

  applied_unbind :
      (t : Bytes) (s : Receiving Q)
      → t ≢ act
      → IsBound act s
      → IsSorted s.subscriptions
      → (s' : Receiving Q)
      → Called (unbinds t) (record s { subscriptions = erase t s.subscriptions }) s'
      → IsBound act s' × IsSorted s'.subscriptions
  applied_unbind t s ne b o s' h = (
    λ k. rw (h.0, h.1) (bound-erase act t k s.link.calls s.subscriptions ne o (b k)),
    rw h.1 (erase-IsSorted t s.subscriptions o),
  )

  abbrev pub Sound : Receiving Q → Type 0
  Sound s = IsBound act s × IsSorted s.subscriptions

  take_action-Ends :
      (subscribe : Bool) (t : Bytes) (s : Receiving Q)
      → t ≢ act
      → Sound s
      → let a : SubscribeAction = record { subscribe = subscribe; message_type = t } in
        Ends (λ s'. Sound s' × Applied a s s') (Applied a s) (take_action shared a s)
  unfolding take_action
  take_action-Ends true t s ne v =
      let s1 : Receiving Q = record s { subscriptions = assign t tt s.subscriptions } in
      Ends-map (Called (binds t) s1) (Kept s1) _ _ (call (binds t) s1) (call-Called (binds t) s1)
        (λ s' h. (applied_bind t s v.0 v.1 s' h, (h.1, h.2))) (λ s' h. h)
  take_action-Ends false t s ne v =
      let s1 : Receiving Q = record s { subscriptions = erase t s.subscriptions } in
      Ends-map (Called (unbinds t) s1) (Kept s1) _ _ (call (unbinds t) s1)
        (call-Called (unbinds t) s1) (λ s' h. (applied_unbind t s ne v.0 v.1 s' h, (h.1, h.2)))
        (λ s' h. h)

  -- One action, and then what becomes of the rest.
  Drained-after :
      (a : SubscribeAction) (acts : List SubscribeAction) (s s1 s' : Receiving Q)
      → s1.subscriptions ≡ apply a s.subscriptions
      → Drained acts s1 s'
      → Drained (a ∷ acts) s s'
  unfolding replay
  Drained-after a acts s s1 s' e d = record {
    bound = d.bound;
    sorted = d.sorted;
    replayed = d.replayed ∙ ap (replay acts) e;
    none_left = d.none_left;
  }

  Interrupted-after :
      (a : SubscribeAction) (acts : List SubscribeAction) (s s1 s' : Receiving Q)
      → s1.subscriptions ≡ apply a s.subscriptions
      → Interrupted acts s1 s'
      → Interrupted (a ∷ acts) s s'
  unfolding replay
  Interrupted-after a acts s s1 s' e d = record {
    taken = a ∷ d.taken;
    later = d.later;
    conserved = ap (◌∷◌ a) d.conserved;
    replayed = d.replayed ∙ ap (replay d.taken) e;
  }

  Interrupted-first :
      (a : SubscribeAction) (s s' : Receiving Q) (q : Q)
      → s'.pending ≡ q
      → s'.subscriptions ≡ apply a s.subscriptions
      → Interrupted (a ∷ shared.items q) s s'
  unfolding replay
  Interrupted-first a s s' q e h = record {
    taken = a ∷ [];
    later = [];
    conserved = ap (◌∷◌ a) (append-nil (shared.items s'.pending) ∙ ap shared.items e);
    replayed = h;
  }

  nothing_to_take : (s : Receiving Q) → Sound s → shared.items s.pending ≡ [] → Drained [] s s
  unfolding replay
  nothing_to_take s v e = record { bound = v.0; sorted = v.1; replayed = refl; none_left = e }

  take_next-Ends :
      (s : Receiving Q) (acts : List SubscribeAction) (o : Option (SubscribeAction × Q))
      (continue : Receiving Q → Reply (Receiving Q))
      → ((s1 : Receiving Q) (rest : List SubscribeAction)
          → shared.items s1.pending ≡ rest
          → length rest < length acts
          → All (λ a. a.message_type ≢ act) rest
          → Sound s1
          → Ends (Drained rest s1) (Interrupted rest s1) (continue s1))
      → shared.pop_front s.pending ≡ o
      → shared.items s.pending ≡ acts
      → All (λ a. a.message_type ≢ act) acts
      → Sound s
      → Ends (Drained acts s) (Interrupted acts s) (take_next shared continue s o)
  take_next-Ends s [] none continue ih p e ne v = nothing_to_take s v e
  take_next-Ends s (a ∷ acts) none continue ih p e ne v =
      absurd (cons≢nil (sym e ∙ shared.pop_front-none s.pending p))
  take_next-Ends s [] (some (a, q)) continue ih p e ne v =
      absurd (cons≢nil (sym (shared.pop_front-some s.pending a q p) ∙ e))
  take_next-Ends s (b ∷ acts) (some (a, q)) continue ih p e ne v =
      let front : b ∷ acts ≡ a ∷ shared.items q = sym e ∙ shared.pop_front-some s.pending a q p in
      let ne' : All (λ a. a.message_type ≢ act) (a ∷ shared.items q) =
        subst (All (λ a. a.message_type ≢ act)) front ne in
      let s0 : Receiving Q = record s { pending = q } in
      rw front (
        Ends->>= (λ s1. Sound s1 × Applied a s0 s1) (Applied a s0) _ _ (take_action shared a s0)
          continue (take_action-Ends a.subscribe a.message_type s0 ne'.0 v)
          (λ s1 h.
            Ends-map (Drained (shared.items q) s1) (Interrupted (shared.items q) s1) _ _
              (continue s1)
              (ih s1 (shared.items q) (ap shared.items h.1.1) (omega (arith, ap length front)) ne'.1
                h.0)
              (λ s' d. Drained-after a (shared.items q) s s1 s' h.1.0 d)
              (λ s' d. Interrupted-after a (shared.items q) s s1 s' h.1.0 d))
          (λ s1 h. Interrupted-first a s s1 q h.1 h.0))

  pub take_actions-Ends :
      (fuel : ℕ) (s : Receiving Q) (acts : List SubscribeAction)
      → shared.items s.pending ≡ acts
      → length acts < fuel
      → All (λ a. a.message_type ≢ act) acts
      → Sound s
      → Ends (Drained acts s) (Interrupted acts s) (take_actions shared fuel s)
  unfolding take_actions
  take_actions-Ends zero s acts e lt ne v = elim lt [ ]
  take_actions-Ends (suc fuel) s acts e lt ne v =
      take_next-Ends s acts (shared.pop_front s.pending) (take_actions shared fuel)
        (λ s1 rest e' lt' ne' v'. take_actions-Ends fuel s1 rest e' (omega (arith, lt, lt')) ne' v')
        refl e ne v
