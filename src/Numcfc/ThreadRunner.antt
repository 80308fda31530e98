-- ===== src/Numcfc/ThreadRunner.antt =====
-- numcfc/ThreadRunner.h and numcfc/ThreadRunner.cpp: a thread, its stop flag and its notice. Calls
-- are atomic, as they hold a mutex. Times are in microseconds.
pub mod LifeCycle
pub mod Waits
pub mod Multi
mod Tests
use numcore_messaging_librar.Common.{ℕ, Bool, true, false, ◌||◌, List, [], ◌∷◌, leb, if◌then◌else◌}
use numcore_messaging_librar.Outcome.{Outcome, done, aborts, out_of_fuel, ◌>>=◌}

-- A `std::thread`, and whether its function has returned.
pub data Thread : Type 0 where
  no_thread running finished : Thread

abbrev pub joinable : Thread → Bool
joinable no_thread = false
joinable running = true
joinable finished = true

pub record Impl : Type 0 where
  pub thread : Thread
  pub supposed_to_stop : Bool
  pub notified : Bool
  pub joined_already : Bool

unfoldable pub new_impl : Impl
new_impl = record {
  thread = no_thread;
  supposed_to_stop = false;
  notified = false;
  joined_already = false;
}

unfoldable pub notify : Impl → Impl
notify i = record i { notified = true }

unfoldable pub ask_thread_to_stop : Impl → Impl
unfolding notify
ask_thread_to_stop i = notify (record i { supposed_to_stop = true })

unfoldable pub is_supposed_to_stop : Impl → Bool
is_supposed_to_stop i = i.supposed_to_stop

-- The assert comes after the flag is cleared.
unfoldable pub start_thread : Impl → Outcome Impl
start_thread i =
    if joinable i.thread
    then aborts
    else done (record i { supposed_to_stop = false; thread = running })

-- The thread's function returns, or throws, which `RunThread` catches.
abbrev pub end_of : Thread → Thread
end_of no_thread = no_thread
end_of running = finished
end_of finished = finished

unfoldable pub run_thread : Impl → Impl
run_thread i = record i { thread = end_of i.thread }

-- `join` waits while the thread runs.
unfoldable pub join_first : Impl → Thread → Outcome Impl
join_first i no_thread = aborts
join_first i running = out_of_fuel
join_first i finished = done (record i { thread = no_thread; joined_already = true })

unfoldable pub join : Impl → Outcome Impl
unfolding join_first
join i =
    if i.joined_already
    then (if joinable i.thread then aborts else done i)
    else join_first i i.thread

-- `~ThreadRunner`
unfoldable pub destroy : Impl → Outcome Impl
unfolding join ask_thread_to_stop
destroy i = join (ask_thread_to_stop i)

-- What the owner and the thread do, in some order.
pub data Event : Type 0 where
  starts stops notifies ends joins : Event

unfoldable pub happen : Impl → Event → Outcome Impl
unfolding start_thread ask_thread_to_stop notify run_thread join
happen i starts = start_thread i
happen i stops = done (ask_thread_to_stop i)
happen i notifies = done (notify i)
happen i ends = done (run_thread i)
happen i joins = join i

unfoldable pub happen_all : Impl → List Event → Outcome Impl
unfolding happen
happen_all i [] = done i
happen_all i (e ∷ es) = happen i e >>= λ i'. happen_all i' es

-- One return of the condition variable's wait: whether another thread has given a notice, and the
-- elapsed time.
pub record Wake : Type 0 where
  pub given : Bool
  pub elapsed : ℕ

-- Still waiting when the wakes are over: `out_of_fuel`.
unfoldable pub wait : Impl → List Wake → Outcome Impl
wait i [] = if i.notified then done (record i { notified = false }) else out_of_fuel
wait i (w ∷ ws) =
    let waited = wait (record i { notified = w.given }) ws in
    if i.notified then done (record i { notified = false }) else waited

unfoldable pub wait_at_most : ℕ → Impl → ℕ → List Wake → Outcome (Bool × Impl)
wait_at_most max_wait i elapsed [] =
    if i.notified || leb max_wait elapsed
    then done (i.notified, record i { notified = false })
    else out_of_fuel
wait_at_most max_wait i elapsed (w ∷ ws) =
    let waited = wait_at_most max_wait (record i { notified = w.given }) w.elapsed ws in
    if i.notified || leb max_wait elapsed
    then done (i.notified, record i { notified = false })
    else waited
