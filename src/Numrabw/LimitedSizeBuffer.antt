-- ===== src/Numrabw/LimitedSizeBuffer.antt =====
-- messaging/numrabw/LimitedSizeBuffer.h. `size` is the items' `GetSize`. Times are in microseconds.
-- What other threads do while a call waits, and what the clock shows, is a script that the call is
-- given; each of their calls is atomic, as they hold the mutex.
pub mod Invariant
pub mod History
pub mod Notice
use numcore_messaging_librar.Common.{
  ℕ, zero, suc, ◌+◌, ◌-◌, ◌%◌, ◌^◌, Bool, true, false, not, ◌&&◌, ◌||◌, List, [], ◌∷◌, ◌++◌, Option,
  none, some, ltb, leb, ◌==◌, if◌then◌else◌, length, ◌*◌,
}
use numcore_messaging_librar.Outcome.{Outcome, done, aborts, undefined, out_of_fuel, ◌>>=◌}

pub record LimitedSizeBuffer {ℓ} (A : Type ℓ) : Type ℓ where
  pub max_item_count : ℕ
  pub max_byte_count : ℕ
  pub current_byte_count : ℕ
  pub items : List A
  pub notified : Bool

-- A call of another thread.
pub data Call {ℓ} (A : Type ℓ) : Type ℓ where
  pushes : A → Call A
  pops : Call A

-- One return of `wait_for`: the calls made in the meantime, the elapsed time after it, and the
-- elapsed time after the short sleep that may follow.
pub record Wake {ℓ} (A : Type ℓ) : Type ℓ where
  pub meanwhile : List (Call A)
  pub elapsed : ℕ
  pub elapsed_after_sleep : ℕ

pub record Script {ℓ} (A : Type ℓ) : Type ℓ where
  pub wakes : List (Wake A)
  pub before_lock : List (Call A)

-- An item, if `pop_front` returned true, and the buffer.
abbrev pub Popped {ℓ} : Type ℓ → Type ℓ
Popped A = Option A × LimitedSizeBuffer A

module _ {ℓ} {A : Type ℓ} where
  abbrev pub is_nil : List A → Bool
  is_nil [] = true
  is_nil (x ∷ xs) = false

  -- The constructor leaves `m_notified` as the memory was.
  unfoldable pub new_buffer : Bool → LimitedSizeBuffer A
  new_buffer memory = record {
    max_item_count = 1024;
    max_byte_count = 1024 * 1024;
    current_byte_count = 0;
    items = [];
    notified = memory;
  }

  unfoldable pub set_max_item_count : LimitedSizeBuffer A → ℕ → LimitedSizeBuffer A
  set_max_item_count b max_item_count = record b { max_item_count = max_item_count }

  unfoldable pub set_max_byte_count : LimitedSizeBuffer A → ℕ → LimitedSizeBuffer A
  set_max_byte_count b max_byte_count = record b { max_byte_count = max_byte_count }

  unfoldable pub get_item_and_byte_count : LimitedSizeBuffer A → ℕ × ℕ
  get_item_and_byte_count b = (length b.items, b.current_byte_count)

  -- `secondsLeft` after a wake without notice; a time that is used up is 0.
  unfoldable pub time_left : ℕ → Wake A → ℕ
  time_left max_wait w =
      let left = max_wait - w.elapsed in
      if ltb 0 left && leb left 1000000 then max_wait - w.elapsed_after_sleep else left

-- `wait_for` with `static_cast<int>(secondsLeft * 1000)`: undefined on a number of milliseconds that
-- `int` does not hold.
unfoldable pub wait_for {ℓ} : {A : Type ℓ} → ℕ → Outcome A → Outcome A
wait_for left waited = if leb (2 ^ 31 * 1000) left then undefined else waited

module _ {ℓ} {A : Type ℓ} (size : A → ℕ) where
  unfoldable pub push_back : LimitedSizeBuffer A → A → Bool × LimitedSizeBuffer A
  push_back b item =
      if leb b.max_item_count (length b.items)
      then (false, b)
      else if leb b.max_byte_count ((b.current_byte_count + size item) % 2 ^ 64)
          && ltb 0 (length b.items)
      then (false, b)
      else (
        true,
        record b {
          items = b.items ++ (item ∷ []);
          current_byte_count = (b.current_byte_count + size item) % 2 ^ 64;
          notified = true;
        },
      )

  -- `m_currentByteCount - item.GetSize()`, a `size_t`
  unfoldable pub bytes_without : LimitedSizeBuffer A → A → ℕ
  bytes_without b item = (b.current_byte_count + 2 ^ 64 - size item) % 2 ^ 64

  -- The two asserts of `pop_front`.
  unfoldable pub asserts_hold : ℕ → ℕ → List A → Bool
  asserts_hold new_byte_count old_byte_count rest =
      leb new_byte_count old_byte_count
      && (if is_nil rest then new_byte_count == 0 else not (new_byte_count == 0))

  -- The part of `pop_front` under the lock, on the items.
  unfoldable pub take_front : LimitedSizeBuffer A → List A → Outcome (Popped A)
  unfolding asserts_hold
  take_front b [] = done (none, b)
  take_front b (item ∷ rest) =
      let new_byte_count = bytes_without b item in
      if asserts_hold new_byte_count b.current_byte_count rest
      then done (some item, record b { items = rest; current_byte_count = new_byte_count })
      else aborts

  -- A call without waiting.
  unfoldable pub try_pop_front : LimitedSizeBuffer A → Outcome (Popped A)
  unfolding take_front
  try_pop_front b = take_front b b.items

  unfoldable pub run_call : LimitedSizeBuffer A → Call A → Outcome (LimitedSizeBuffer A)
  unfolding push_back try_pop_front
  run_call b (pushes item) = done (push_back b item).1
  run_call b pops = try_pop_front b >>= λ r. done r.1

  unfoldable pub run_calls : LimitedSizeBuffer A → List (Call A) → Outcome (LimitedSizeBuffer A)
  unfolding run_call
  run_calls b [] = done b
  run_calls b (c ∷ cs) = run_call b c >>= λ b'. run_calls b' cs

  -- The `while` loop. It is still waiting when the script ends: `out_of_fuel`.
  unfoldable pub wait_loop :
      ℕ → ℕ → LimitedSizeBuffer A → List (Wake A) → Outcome (LimitedSizeBuffer A)
  unfolding run_calls time_left wait_for
  wait_loop max_wait left b [] =
      if b.notified || left == 0 then done b else wait_for left out_of_fuel
  wait_loop max_wait left b (w ∷ ws) =
      let waited : Outcome (LimitedSizeBuffer A) = run_calls b w.meanwhile >>= λ b'.
      wait_loop max_wait (if b'.notified then left else time_left max_wait w) b' ws in
      if b.notified || left == 0 then done b else wait_for left waited

  -- After the loop: the notice is consumed, or the time is over.
  unfoldable pub after_wait : LimitedSizeBuffer A → List (Call A) → Outcome (Popped A)
  unfolding run_calls try_pop_front
  after_wait b before_lock =
      if b.notified
      then (run_calls (record b { notified = false }) before_lock >>= try_pop_front)
      else done (none, b)

  unfoldable pub pop_front : LimitedSizeBuffer A → ℕ → Script A → Outcome (Popped A)
  unfolding wait_loop after_wait try_pop_front
  pop_front b max_wait script =
      if is_nil b.items
      then (if max_wait == 0
          then done (none, b)
          else (wait_loop max_wait max_wait b script.wakes >>= λ b'.
              after_wait b' script.before_lock))
      else (run_calls b script.before_lock >>= try_pop_front)
