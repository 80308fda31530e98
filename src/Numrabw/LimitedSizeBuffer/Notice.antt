-- ===== src/Numrabw/LimitedSizeBuffer/Notice.antt =====
-- Waiting in `pop_front`, and the flag `m_notified` that ends it.
use numcore_messaging_librar.Common.{
  ℕ, ◌*◌, leb, lt→leb, ◌+◌, ◌-◌, ◌%◌, ◌^◌, le→leb, ◌≤◌, ◌<◌, ◌≡◌, ◌≢◌, refl, Bool, true, false,
  List, [], ◌∷◌, ◌++◌, none, some, arith, ◌==◌, if◌then◌else◌,
}
use numcore_messaging_librar.Outcome.{Outcome, done, throws, aborts, undefined, out_of_fuel, ◌>>=◌}
use numcore_messaging_librar.Numrabw.LimitedSizeBuffer.{
  LimitedSizeBuffer, bytes_without, Call, pushes, pops, Wake, push_back, take_front, try_pop_front,
  run_call, run_calls, time_left, wait_for, wait_loop, after_wait, pop_front,
}

bind-ne-out_of_fuel {ℓ κ} :
    {A : Type ℓ} {B : Type κ} (m : Outcome A) (f : A → Outcome B)
    → m ≢ out_of_fuel
    → ((a : A) → f a ≢ out_of_fuel)
    → (m >>= f) ≢ out_of_fuel
bind-ne-out_of_fuel (done a) f h k = k a
bind-ne-out_of_fuel (throws x) f h k = λ e. cc
bind-ne-out_of_fuel aborts f h k = λ e. cc
bind-ne-out_of_fuel undefined f h k = λ e. cc
bind-ne-out_of_fuel out_of_fuel f h k = absurd (h refl)

done-ne-out_of_fuel {ℓ} : {A : Type ℓ} (a : A) → done a ≢ out_of_fuel
done-ne-out_of_fuel a = λ e. cc

if_ne {ℓ} : {A : Type ℓ} (c : Bool) (x y : A) {z : A} → x ≢ z → y ≢ z → (if c then x else y) ≢ z
if_ne true x y h k = h
if_ne false x y h k = k

module _ {ℓ} {A : Type ℓ} where
  -- A buffer with nothing in it, and no notice.
  abbrev pub waiting : ℕ → ℕ → LimitedSizeBuffer A
  waiting m n = record {
    max_item_count = m;
    max_byte_count = n;
    current_byte_count = 0;
    items = [];
    notified = false;
  }

module _ {ℓ} {A : Type ℓ} (size : A → ℕ) where
  take_front-ne-out_of_fuel :
      (b : LimitedSizeBuffer A) (xs : List A) → take_front size b xs ≢ out_of_fuel
  unfolding take_front
  take_front-ne-out_of_fuel b [] = λ e. cc
  take_front-ne-out_of_fuel b (x ∷ xs) = ground arith

  run_calls-ne-out_of_fuel :
      (cs : List (Call A)) (b : LimitedSizeBuffer A) → run_calls size b cs ≢ out_of_fuel
  unfolding run_calls run_call try_pop_front
  run_calls-ne-out_of_fuel [] b = λ e. cc
  run_calls-ne-out_of_fuel (pushes x ∷ cs) b = run_calls-ne-out_of_fuel cs _
  run_calls-ne-out_of_fuel (pops ∷ cs) b =
      bind-ne-out_of_fuel _ _
        (bind-ne-out_of_fuel _ _ (take_front-ne-out_of_fuel b b.items) (λ r e. cc))
        (run_calls-ne-out_of_fuel cs)

  wait_for-ne-out_of_fuel :
      (left : ℕ) (waited : Outcome (LimitedSizeBuffer A))
      → waited ≢ out_of_fuel
      → wait_for left waited ≢ out_of_fuel
  unfolding wait_for
  wait_for-ne-out_of_fuel left waited h =
      if_ne (leb (2 ^ 31 * 1000) left) undefined waited (λ e. cc) h

  -- `secondsLeft` is not positive at a wake by which the time is over.
  last_wake :
      (w : Wake A) (max_wait left : ℕ) (b : LimitedSizeBuffer A)
      → max_wait ≤ w.elapsed
      → wait_loop size max_wait (if b.notified then left else time_left max_wait w) b []
        ≢ out_of_fuel
  unfolding wait_loop time_left wait_for
  last_wake w max_wait left b h = ground arith

  wait_loop_ends :
      (ws : List (Wake A)) (w : Wake A) (max_wait left : ℕ) (b : LimitedSizeBuffer A)
      → max_wait ≤ w.elapsed
      → wait_loop size max_wait left b (ws ++ (w ∷ [])) ≢ out_of_fuel
  unfolding wait_loop
  wait_loop_ends [] w max_wait left b h = if_ne _ _ _ (done-ne-out_of_fuel _) (
      wait_for-ne-out_of_fuel left _ (
        bind-ne-out_of_fuel _ _ (run_calls-ne-out_of_fuel w.meanwhile b)
          (λ b'. last_wake w max_wait left b' h)))
  wait_loop_ends (v ∷ ws) w max_wait left b h = if_ne _ _ _ (done-ne-out_of_fuel _) (
      wait_for-ne-out_of_fuel left _ (
        bind-ne-out_of_fuel _ _ (run_calls-ne-out_of_fuel v.meanwhile b)
          (λ b'. wait_loop_ends ws w max_wait _ b' h)))

  after_wait-ne-out_of_fuel :
      (b : LimitedSizeBuffer A) (cs : List (Call A)) → after_wait size b cs ≢ out_of_fuel
  unfolding after_wait try_pop_front
  after_wait-ne-out_of_fuel b cs =
      if_ne _ _ _
        (bind-ne-out_of_fuel _ _ (run_calls-ne-out_of_fuel cs _)
          (λ b'. take_front-ne-out_of_fuel b' b'.items))
        (done-ne-out_of_fuel _)

  -- A waiting `pop_front` does not go on waiting after a wake by which its time is over, whatever the
  -- other threads do: by then it has returned, or an assert has failed, or the wait was too long for
  -- the cast to `int` and the call is undefined.
  pub pop_front_ends :
      (b : LimitedSizeBuffer A) (max_wait : ℕ) (ws : List (Wake A)) (w : Wake A)
      (cs : List (Call A))
      → max_wait ≤ w.elapsed
      → pop_front size b max_wait (record { wakes = ws ++ (w ∷ []); before_lock = cs })
        ≢ out_of_fuel
  unfolding pop_front try_pop_front
  pop_front_ends b max_wait ws w cs h =
      if_ne _ _ _
        (if_ne _ _ _ (done-ne-out_of_fuel _) (
          bind-ne-out_of_fuel _ _ (wait_loop_ends ws w max_wait max_wait b h)
            (λ b'. after_wait-ne-out_of_fuel b' cs)))
        (bind-ne-out_of_fuel _ _ (run_calls-ne-out_of_fuel cs b)
          (λ b'. take_front-ne-out_of_fuel b' b'.items))

  wait_loop_noticed :
      (max_wait left : ℕ) (b : LimitedSizeBuffer A) (ws : List (Wake A))
      → b.notified ≡ true
      → wait_loop size max_wait left b ws ≡ done b
  unfolding wait_loop
  wait_loop_noticed max_wait left b [] h = ground arith
  wait_loop_noticed max_wait left b (w ∷ ws) h = ground arith

  abbrev holding : ℕ → ℕ → A → LimitedSizeBuffer A
  holding m n item = record (waiting m n) { current_byte_count = size item; items = item ∷ [] }

  push_back-waiting :
      (m n : ℕ) (item : A)
      → 0 < m
      → size item < 2 ^ 64
      → push_back size (waiting m n) item ≡ (true, record (holding m n item) { notified = true })
  unfolding push_back
  push_back-waiting m n item room small = ground arith

  after_wait-holding :
      (m n : ℕ) (item : A)
      → size item < 2 ^ 64
      → after_wait size (record (holding m n item) { notified = true }) []
        ≡ done (some item, waiting m n)
  unfolding after_wait take_front bytes_without
  after_wait-holding m n item small =
      let none_left : (size item + 2 ^ 64 - size item) % 2 ^ 64 ≡ 0 = omega arith in
      rw (none_left, le→leb 0 (size item) (omega arith))

  -- On an empty buffer that has no notice yet, that counts no bytes and has a positive item limit, and
  -- with a positive wait of less than 2^31 milliseconds: when no other thread calls before `pop_front` has the lock, and the only
  -- call during its first wait is the push of an item that has less than 2^64 bytes, the item is
  -- returned, and the notice is used up.
  pub pop_front_gets_pushed :
      (m n max_wait : ℕ) (item : A) (e e' : ℕ) (ws : List (Wake A))
      → 0 < m
      → size item < 2 ^ 64
      → 0 < max_wait
      → max_wait < 2 ^ 31 * 1000
      → pop_front size (waiting m n) max_wait (record {
        wakes = record { meanwhile = pushes item ∷ []; elapsed = e; elapsed_after_sleep = e' } ∷ ws;
        before_lock = [];
      })
        ≡ done (some item, waiting m n)
  unfolding pop_front wait_loop wait_for
  pop_front_gets_pushed m n max_wait item e e' ws room small h short =
      let waits : (max_wait == 0) ≡ false = ground arith in
      let in_int : leb (2 ^ 31 * 1000) max_wait ≡ false = lt→leb (2 ^ 31 * 1000) max_wait short in
      rw
        (
          waits,
          in_int,
          push_back-waiting m n item room small,
          wait_loop_noticed max_wait max_wait (record (holding m n item) { notified = true }) ws
              refl,
        )
        (after_wait-holding m n item small)

  stale :
      (b b' : LimitedSizeBuffer A) (item : A)
      → b.items ≡ []
      → (push_back size b item).0 ≡ true
      → try_pop_front size (push_back size b item).1 ≡ done (some item, b')
      → (b'.items ≡ []) × (b'.notified ≡ true)
  unfolding push_back try_pop_front take_front
  stale b b' item empty accepted popped = ground arith

  pop_front_noticed :
      (b : LimitedSizeBuffer A) (max_wait : ℕ)
      → b.items ≡ []
      → b.notified ≡ true
      → 0 < max_wait
      → pop_front size b max_wait (record { wakes = []; before_lock = [] })
        ≡ done (none, record b { notified = false })
  unfolding pop_front wait_loop after_wait
  pop_front_noticed b max_wait empty noticed h = ground arith

  -- A stale notice: an item that is pushed into the empty buffer and popped without waiting leaves
  -- `m_notified` set, so the next call, which asks to wait, returns false before any wait.
  pub pop_front_skips_wait :
      (b b' : LimitedSizeBuffer A) (item : A) (max_wait : ℕ)
      → b.items ≡ []
      → (push_back size b item).0 ≡ true
      → try_pop_front size (push_back size b item).1 ≡ done (some item, b')
      → 0 < max_wait
      → pop_front size b' max_wait (record { wakes = []; before_lock = [] })
        ≡ done (none, record b' { notified = false })
  pop_front_skips_wait b b' item max_wait empty accepted popped h =
      let (empty', noticed) = stale b b' item empty accepted popped in
      pop_front_noticed b' max_wait empty' noticed h
