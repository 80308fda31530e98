-- ===== src/Numrabw/PostOffice/Receiver/Rounds.antt =====
-- A whole session of the receiver, from the connection to its end.
use numcore_messaging_librar.Common.{
  suc, ◌≡◌, refl, sym, ap, ◌∙◌, List, [], ◌∷◌, ◌++◌, append_assoc, append-nil, Bytes, length, arith,
}
use numcore_messaging_librar.OrderedMap.Laws.{IsSorted}
use numcore_messaging_librar.Numrabw.PostOffice.{consumes, ◌>>=◌, Ends, Ends->>=}
use numcore_messaging_librar.Numrabw.PostOffice.Receiver.{
  SubscribeAction, SharedBuffer, Receiving, call, open_session, take_actions, arrive,
  consume_rounds,
}
use mathlib.Core.Path.{subst}
use numcore_messaging_librar.Numrabw.PostOffice.Receiver.Bindings.{
  replay, IsBound, Called, Kept, call-Called, Ends-map,
}
use numcore_messaging_librar.Numrabw.PostOffice.Receiver.Actions.{
  Drained, Interrupted, Sound, take_actions-Ends,
}
use numcore_messaging_librar.Numrabw.PostOffice.Receiver.Session.{concat, open_session-Ends}
use numcore_messaging_librar.Numrabw.PostOffice.Receiver.Interruptions.{
  items-arrive, Drained-both, Interrupted-later, Interrupted-sooner, stopped_between, consumed,
  Drained-from, Interrupted-from, AllOther, AllOther-left, AllOther-right,
}

module _ {Q : Type 0} (shared : SharedBuffer SubscribeAction Q) (act : Bytes) where
  -- One round, with the actions `ys` still to arrive.
  round-Ends :
      (s : Receiving Q) (q : Q) (ys : List SubscribeAction)
      → Sound shared act s
      → AllOther act (shared.items q)
      → Ends
          (Drained shared act (shared.items q) s)
          (Interrupted shared act (shared.items q ++ ys) s)
          (take_actions shared (suc (length (shared.items q))) (record s { pending = q })
            >>= call consumes)
  round-Ends s q ys v ne =
      let s0 : Receiving Q = record s { pending = q } in
      let xs : List SubscribeAction = shared.items q in
      Ends->>= (Drained shared act xs s0) (Interrupted shared act xs s0) _ _
        (take_actions shared (suc (length xs)) s0) (call consumes)
        (take_actions-Ends shared act (suc (length xs)) s0 xs refl (omega arith) ne v)
        (λ s1 d.
          Ends-map (Called consumes s1) (Kept s1) _ _ (call consumes s1) (call-Called consumes s1)
            (λ s' c. Drained-from shared act xs s s0 s' refl (consumed shared act xs s0 s1 s' d c))
            (λ s' k.
              Interrupted-from shared act (xs ++ ys) s s0 s' refl
                (stopped_between shared act xs ys s0 s1 s' d k)))
        (λ s' d.
          Interrupted-from shared act (xs ++ ys) s s0 s' refl
            (Interrupted-sooner shared act xs ys s0 s' d))

  -- The rounds of a session.
  consume_rounds-Ends :
      (fresh : List SubscribeAction) (rounds : List (List SubscribeAction)) (s : Receiving Q)
      (acts : List SubscribeAction)
      → acts ≡ (shared.items s.pending ++ fresh) ++ concat rounds
      → Sound shared act s
      → AllOther act acts
      → Ends
          (Drained shared act acts s)
          (Interrupted shared act acts s)
          (consume_rounds shared (fresh ∷ rounds) s)
  unfolding consume_rounds
  consume_rounds-Ends fresh [] s acts e v ne =
      let q : Q = arrive shared fresh s.pending in
      let xs : List SubscribeAction = shared.items q in
      let e' : acts ≡ xs ++ concat [] =
        e ∙ ap (λ l. l ++ concat []) (sym (items-arrive shared act fresh s.pending)) in
      let ne' = subst (AllOther act) e' ne in
      rw e' (
        Ends->>= (Drained shared act xs s) (Interrupted shared act (xs ++ concat []) s) _ _ _
          (consume_rounds shared [])
          (round-Ends s q (concat []) v (AllOther-left act xs (concat []) ne'))
          (λ s1 d. rw (append-nil xs) d) (λ s' d. d))
  consume_rounds-Ends fresh (next ∷ rounds) s acts e v ne =
      let q : Q = arrive shared fresh s.pending in
      let xs : List SubscribeAction = shared.items q in
      let e' : acts ≡ xs ++ concat (next ∷ rounds) =
        e ∙ ap (λ l. l ++ concat (next ∷ rounds)) (sym (items-arrive shared act fresh s.pending)) in
      let ys : List SubscribeAction = concat (next ∷ rounds) in
      let ne' = subst (AllOther act) e' ne in
      rw e' (
        Ends->>= (Drained shared act xs s) (Interrupted shared act (xs ++ concat (next ∷ rounds)) s)
          _ _ _ (consume_rounds shared (next ∷ rounds))
          (round-Ends s q (concat (next ∷ rounds)) v
            (AllOther-left act xs (concat (next ∷ rounds)) ne'))
          (λ s1 d.
            Ends-map (Drained shared act ys s1) (Interrupted shared act ys s1) _ _
              (consume_rounds shared (next ∷ rounds) s1)
              (consume_rounds-Ends next rounds s1 ys
                (ap (λ l. (l ++ next) ++ concat rounds) (sym d.none_left)) (d.bound, d.sorted)
                (AllOther-right act xs ys ne'))
              (λ s' d'. Drained-both shared act xs ys s s1 s1 s' d refl d')
              (λ s' d'. Interrupted-later shared act xs ys s s1 s1 s' d refl d'))
          (λ s' d. d))

  never_connected :
      (fresh : List SubscribeAction) (rounds : List (List SubscribeAction)) (s s' : Receiving Q)
      → Kept s s'
      → Interrupted shared act (shared.items s.pending ++ concat (fresh ∷ rounds)) s s'
  unfolding replay
  never_connected fresh rounds s s' k = record {
    taken = [];
    later = concat (fresh ∷ rounds);
    conserved = ap (λ p. shared.items p ++ concat (fresh ∷ rounds)) k.1;
    replayed = k.0;
  }

  -- A session that connects, binds and consumes, with rounds in which actions arrive, ends. If no
  -- call throws, every action has been taken in its order, none is left, and the queue is bound
  -- to exactly the activity key and the subscriptions. If one throws, the subscriptions are what
  -- the actions taken so far say, and the others are still there in their order. The
  -- subscriptions are in order, as in a `std::set`, and no action is about the activity key.
  pub open_session-consume_rounds :
      (connect_string : Bytes) (fresh : List SubscribeAction) (rounds : List (List SubscribeAction))
      (s : Receiving Q)
      → IsSorted s.subscriptions
      → AllOther act (shared.items s.pending ++ concat (fresh ∷ rounds))
      → let acts = shared.items s.pending ++ concat (fresh ∷ rounds) in
        Ends
          (Drained shared act acts s)
          (Interrupted shared act acts s)
          (open_session connect_string act s >>= consume_rounds shared (fresh ∷ rounds))
  open_session-consume_rounds connect_string fresh rounds s o ne =
      let acts : List SubscribeAction = shared.items s.pending ++ concat (fresh ∷ rounds) in
      Ends->>= (λ s1. IsBound act s1 × Kept s s1) (Kept s) _ _ (open_session connect_string act s)
        (consume_rounds shared (fresh ∷ rounds)) (open_session-Ends act connect_string s)
        (λ s1 h.
          Ends-map (Drained shared act acts s1) (Interrupted shared act acts s1) _ _
            (consume_rounds shared (fresh ∷ rounds) s1)
            (consume_rounds-Ends fresh rounds s1 acts
              (sym (append_assoc (shared.items s.pending) fresh (concat rounds))
                ∙ ap (λ p. (shared.items p ++ fresh) ++ concat rounds) (sym h.1.1))
              (h.0, rw h.1.0 o) ne)
            (λ s' d. Drained-from shared act acts s s1 s' h.1.0 d)
            (λ s' d. Interrupted-from shared act acts s s1 s' h.1.0 d))
        (λ s1 k. never_connected fresh rounds s s1 k)
