-- ===== src/Numrabw/LimitedSizeBuffer/History.antt =====
-- Any sequence of calls against the buffer as a queue.
use numcore_messaging_librar.Common.{
  ℕ, ◌+◌, ◌^◌, ◌≤◌, ◌<◌, ◌≡◌, inl, inr, refl, sym, ap, ◌∙◌, Bool, true, false, List, [], ◌∷◌, ◌++◌,
  append_assoc, append-nil, Option, none, some, arith, All-append, Bool-cases,
}
use numcore_messaging_librar.Outcome.{done}
use numcore_messaging_librar.Numrabw.LimitedSizeBuffer.{
  LimitedSizeBuffer, Call, pushes, pops, push_back, take_front, try_pop_front, run_call, run_calls,
}
use numcore_messaging_librar.Numrabw.LimitedSizeBuffer.Invariant.{
  total, total-append, IsCounted, IsWithin, push_back-IsCounted, push_back-IsWithin, front_removed,
  ArePositive, try_pop_front_lem, front_removed-IsCounted, front_removed-IsWithin,
}

-- What a sequence of calls has let in and given out, in order, and the buffer it leaves.
pub record History {ℓ} (A : Type ℓ) : Type ℓ where
  pub accepted : List A
  pub popped : List A
  pub buffer : LimitedSizeBuffer A

module _ {ℓ} {A : Type ℓ} where
  abbrev pub if_accepted : Bool → A → List A
  if_accepted true item = item ∷ []
  if_accepted false item = []

  abbrev pub if_popped : Option A → List A
  if_popped none = []
  if_popped (some item) = item ∷ []

  -- The items that the pushes offer.
  abbrev pub offered : List (Call A) → List A
  offered [] = []
  offered (pushes item ∷ cs) = item ∷ offered cs
  offered (pops ∷ cs) = offered cs

module _ {ℓ} {A : Type ℓ} (size : A → ℕ) where
  pub data Happens : LimitedSizeBuffer A → List (Call A) → History A → Type ℓ where
    stop :
        (b : LimitedSizeBuffer A) → Happens b [] (record { accepted = []; popped = []; buffer = b })
    push :
        {b : LimitedSizeBuffer A} {item : A} {cs : List (Call A)} {h : History A}
        → Happens (push_back size b item).1 cs h
        → Happens b
            (pushes item ∷ cs)
            (record h { accepted = if_accepted (push_back size b item).0 item ++ h.accepted })
    pop :
        {b b' : LimitedSizeBuffer A} {got : Option A} {cs : List (Call A)} {h : History A}
        → try_pop_front size b ≡ done (got, b')
        → Happens b' cs h
        → Happens b (pops ∷ cs) (record h { popped = if_popped got ++ h.popped })

  -- The history is that of `run_calls`.
  pub Happens-run_calls :
      {b : LimitedSizeBuffer A} {cs : List (Call A)} {h : History A}
      → Happens b cs h
      → run_calls size b cs ≡ done h.buffer
  unfolding run_calls run_call
  Happens-run_calls (stop b) = refl
  Happens-run_calls (push r) = Happens-run_calls r
  Happens-run_calls (pop e r) = rw e (Happens-run_calls r)

  pub items-push_back :
      (b : LimitedSizeBuffer A) (item : A)
      → (push_back size b item).1.items ≡ b.items ++ if_accepted (push_back size b item).0 item
  unfolding push_back
  items-push_back b item = ground (arith, append-nil b.items)

  items-take_front :
      (b b' : LimitedSizeBuffer A) (xs : List A) (got : Option A)
      → b.items ≡ xs
      → take_front size b xs ≡ done (got, b')
      → xs ≡ if_popped got ++ b'.items
  unfolding take_front
  items-take_front b b' [] got e h = ground arith
  items-take_front b b' (x ∷ xs) got e h = ground arith

  -- First in, first out, with nothing lost and nothing made up: what was given out, followed by what
  -- is left, is what was there, followed by what was let in.
  pub Happens_fifo :
      {b : LimitedSizeBuffer A} {cs : List (Call A)} {h : History A}
      → Happens b cs h
      → h.popped ++ h.buffer.items ≡ b.items ++ h.accepted
  unfolding try_pop_front
  Happens_fifo (stop b) = sym (append-nil b.items)
  Happens_fifo (push {b} {item} r) = Happens_fifo r ∙ rw (items-push_back b item, append_assoc)
  Happens_fifo (pop {b} {b'} {got} {h = h} e r) =
      append_assoc (if_popped got) h.popped h.buffer.items
      ∙ ap (◌++◌ (if_popped got)) (Happens_fifo r)
      ∙ sym (append_assoc (if_popped got) b'.items h.accepted)
      ∙ ap (λ l. l ++ h.accepted) (sym (items-take_front b b' b.items got refl e))

  total-push_back :
      (b : LimitedSizeBuffer A) (item : A)
      → total size (push_back size b item).1.items ≤ total size b.items + size item
  total-push_back b item = elim (Bool-cases (push_back size b item).0) [
    | inl accepted ↦
        rw (items-push_back b item, accepted) (omega (arith, total-append size b.items (item ∷ [])))
    | inr refused ↦ rw (items-push_back b item, refused, append-nil) (omega arith)
  ]

  ArePositive-push_back :
      (b : LimitedSizeBuffer A) (item : A)
      → ArePositive size b.items
      → 0 < size item
      → ArePositive size (push_back size b item).1.items
  ArePositive-push_back b item p h = elim (Bool-cases (push_back size b item).0) [
    | inl accepted ↦
        rw (items-push_back b item, accepted) (All-append _ b.items (item ∷ []) p (h, tt))
    | inr refused ↦ rw (items-push_back b item, refused, append-nil) p
  ]

  -- A buffer that is sound, with room in `size_t` for all that is still offered.
  pub record IsReady (b : LimitedSizeBuffer A) (cs : List (Call A)) : Type ℓ where
    pub counted : IsCounted size b
    pub within : IsWithin size b
    pub positive : ArePositive size b.items
    pub offers : ArePositive size (offered cs)
    pub room : total size b.items + total size (offered cs) < 2 ^ 64

  -- How a run that is ready goes: it has a history, and leaves a sound buffer.
  pub record Succeeds (b : LimitedSizeBuffer A) (cs : List (Call A)) : Type ℓ where
    pub history : History A
    pub happens : Happens b cs history
    pub counted : IsCounted size history.buffer
    pub within : IsWithin size history.buffer

  after_push :
      (b : LimitedSizeBuffer A) (item : A) (cs : List (Call A))
      → IsReady b (pushes item ∷ cs)
      → IsReady (push_back size b item).1 cs
  after_push b item cs r = record {
    counted = push_back-IsCounted size b item r.counted (omega (arith, r.room));
    within = push_back-IsWithin size b item r.counted r.within (omega (arith, r.room));
    positive = ArePositive-push_back b item r.positive r.offers.0;
    offers = r.offers.1;
    room = omega (arith, r.room, total-push_back b item);
  }

  after_pop :
      (b : LimitedSizeBuffer A) (item : A) (rest : List A) (cs : List (Call A))
      → b.items ≡ item ∷ rest
      → IsReady b (pops ∷ cs)
      → IsReady (front_removed size b rest) cs
  after_pop b item rest cs e r = record {
    counted = front_removed-IsCounted size b item rest r.counted e;
    within = front_removed-IsWithin size b item rest r.within e;
    positive = (rw e at r.positive).1;
    offers = r.offers;
    room = omega (arith, r.room, ap (total size) e);
  }

  pops_Succeeds :
      (xs : List A) (b : LimitedSizeBuffer A) (cs : List (Call A))
      → b.items ≡ xs
      → IsReady b (pops ∷ cs)
      → ((b' : LimitedSizeBuffer A) → IsReady b' cs → Succeeds b' cs)
      → Succeeds b (pops ∷ cs)
  unfolding try_pop_front take_front
  pops_Succeeds [] b cs e r later =
      let s = later b (record {
        counted = r.counted;
        within = r.within;
        positive = r.positive;
        offers = r.offers;
        room = r.room;
      }) in
      record {
        history = _;
        happens = pop {b' = b} {got = none} (ap (take_front size b) e) s.happens;
        counted = s.counted;
        within = s.within;
      }
  pops_Succeeds (x ∷ rest) b cs e r later =
      let s = later (front_removed size b rest) (after_pop b x rest cs e r) in
      record {
        history = _;
        happens =
            pop (try_pop_front_lem size b x rest r.counted e (rw e at r.positive).1) s.happens;
        counted = s.counted;
        within = s.within;
      }

  -- A buffer that counts its bytes, is within its limits, and has only items with a positive size
  -- keeps its count and its limits through any calls that offer only such items, if the bytes of its
  -- items and of all that the calls offer, added up, are fewer than 2^64; no assert fails, and the
  -- calls have a history.
  pub run_calls_total :
      (cs : List (Call A)) (b : LimitedSizeBuffer A) → IsReady b cs → Succeeds b cs
  run_calls_total [] b r = record {
    history = _;
    happens = stop b;
    counted = r.counted;
    within = r.within;
  }
  run_calls_total (pushes item ∷ cs) b r =
      let s = run_calls_total cs (push_back size b item).1 (after_push b item cs r) in
      record { history = _; happens = push s.happens; counted = s.counted; within = s.within }
  run_calls_total (pops ∷ cs) b r = pops_Succeeds b.items b cs refl r (run_calls_total cs)
