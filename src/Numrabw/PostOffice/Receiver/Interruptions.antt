-- ===== src/Numrabw/PostOffice/Receiver/Interruptions.antt =====
-- Putting parts of a session together, those that an exception ends included.
use numcore_messaging_librar.Common.{
  ◌≡◌, ◌≢◌, sym, ap, ◌∙◌, List, [], ◌∷◌, ◌++◌, append_assoc, append-nil, Bytes, All,
}
use numcore_messaging_librar.Numrabw.PostOffice.{consumes}
use numcore_messaging_librar.Numrabw.PostOffice.Receiver.{
  SubscribeAction, SharedBuffer, Receiving, arrive,
}
use numcore_messaging_librar.Numrabw.PostOffice.Receiver.Bindings.{is_bound, replay, Called, Kept}
use numcore_messaging_librar.Numrabw.PostOffice.Receiver.Actions.{Drained, Interrupted}
use numcore_messaging_librar.Numrabw.PostOffice.Receiver.Session.{replay-append}

-- No action is about the activity key.
abbrev pub AllOther : Bytes → List SubscribeAction → Type 0
AllOther act acts = All (λ a. a.message_type ≢ act) acts

pub AllOther-left :
    (act : Bytes) (xs ys : List SubscribeAction) → AllOther act (xs ++ ys) → AllOther act xs
AllOther-left act [] ys h = tt
AllOther-left act (x ∷ xs) ys h = (h.0, AllOther-left act xs ys h.1)

pub AllOther-right :
    (act : Bytes) (xs ys : List SubscribeAction) → AllOther act (xs ++ ys) → AllOther act ys
AllOther-right act [] ys h = h
AllOther-right act (x ∷ xs) ys h = AllOther-right act xs ys h.1

module _ {Q : Type 0} (shared : SharedBuffer SubscribeAction Q) (act : Bytes) where
  pub items-arrive :
      (fresh : List SubscribeAction) (q : Q)
      → shared.items (arrive shared fresh q) ≡ shared.items q ++ fresh
  unfolding arrive
  items-arrive [] q = sym (append-nil (shared.items q))
  items-arrive (a ∷ fresh) q =
      items-arrive fresh (shared.push_back q a)
      ∙ ap (λ l. l ++ fresh) (shared.items-push_back q a)
      ∙ append_assoc (shared.items q) (a ∷ []) fresh

  -- What has arrived is taken, and then what arrives later.
  pub Drained-both :
      (xs ys : List SubscribeAction) (s s1 s2 s' : Receiving Q)
      → Drained shared act xs s s1
      → s2.subscriptions ≡ s1.subscriptions
      → Drained shared act ys s2 s'
      → Drained shared act (xs ++ ys) s s'
  Drained-both xs ys s s1 s2 s' d e d' = record {
    bound = d'.bound;
    sorted = d'.sorted;
    replayed =
        d'.replayed ∙ ap (replay ys) (e ∙ d.replayed) ∙ sym (replay-append xs ys s.subscriptions);
    none_left = d'.none_left;
  }

  pub Interrupted-later :
      (xs ys : List SubscribeAction) (s s1 s2 s' : Receiving Q)
      → Drained shared act xs s s1
      → s2.subscriptions ≡ s1.subscriptions
      → Interrupted shared act ys s2 s'
      → Interrupted shared act (xs ++ ys) s s'
  Interrupted-later xs ys s s1 s2 s' d e d' = record {
    taken = xs ++ d'.taken;
    later = d'.later;
    conserved = append_assoc xs d'.taken _ ∙ ap (λ l. xs ++ l) d'.conserved;
    replayed =
        d'.replayed
        ∙ ap (replay d'.taken) (e ∙ d.replayed)
        ∙ sym (replay-append xs d'.taken s.subscriptions);
  }

  pub Interrupted-sooner :
      (xs ys : List SubscribeAction) (s s' : Receiving Q)
      → Interrupted shared act xs s s'
      → Interrupted shared act (xs ++ ys) s s'
  Interrupted-sooner xs ys s s' d = record {
    taken = d.taken;
    later = d.later ++ ys;
    conserved =
        ap (λ l. d.taken ++ l) (sym (append_assoc (shared.items s'.pending) d.later ys))
        ∙ sym (append_assoc d.taken (shared.items s'.pending ++ d.later) ys)
        ∙ ap (λ l. l ++ ys) d.conserved;
    replayed = d.replayed;
  }

  pub stopped_between :
      (xs ys : List SubscribeAction) (s s1 s' : Receiving Q)
      → Drained shared act xs s s1
      → Kept s1 s'
      → Interrupted shared act (xs ++ ys) s s'
  stopped_between xs ys s s1 s' d k = record {
    taken = xs;
    later = ys;
    conserved = ap (λ l. xs ++ (l ++ ys)) (ap shared.items k.1 ∙ d.none_left);
    replayed = k.0 ∙ d.replayed;
  }

  pub consumed :
      (xs : List SubscribeAction) (s s1 s' : Receiving Q)
      → Drained shared act xs s s1
      → Called consumes s1 s'
      → Drained shared act xs s s'
  unfolding is_bound
  consumed xs s s1 s' d c = record {
    bound = λ k. rw (c.0, c.1) (d.bound k);
    sorted = rw c.1 d.sorted;
    replayed = c.1 ∙ d.replayed;
    none_left = ap shared.items c.2 ∙ d.none_left;
  }

  -- The state to start from counts by its subscriptions only.
  pub Drained-from :
      (xs : List SubscribeAction) (s s0 s' : Receiving Q)
      → s0.subscriptions ≡ s.subscriptions
      → Drained shared act xs s0 s'
      → Drained shared act xs s s'
  Drained-from xs s s0 s' e d = record {
    bound = d.bound;
    sorted = d.sorted;
    replayed = d.replayed ∙ ap (replay xs) e;
    none_left = d.none_left;
  }

  pub Interrupted-from :
      (xs : List SubscribeAction) (s s0 s' : Receiving Q)
      → s0.subscriptions ≡ s.subscriptions
      → Interrupted shared act xs s0 s'
      → Interrupted shared act xs s s'
  Interrupted-from xs s s0 s' e d = record {
    taken = d.taken;
    later = d.later;
    conserved = d.conserved;
    replayed = d.replayed ∙ ap (replay d.taken) e;
  }
