-- ===== src/Numcfc/ThreadRunner/Multi.antt =====
-- `MultiThreadRunner` of numcfc/ThreadRunner.cpp: a map from tasks to threads. A thread that ends
-- erases its own entry.
pub mod Ending
use numcore_messaging_librar.Common.{
  ◌≡◌, ◌≢◌, refl, ap, Bool, true, false, Option, none, some, Bytes, List, [], ◌∷◌, if◌then◌else◌,
  arith,
}
use numcore_messaging_librar.Outcome.{Outcome, done, aborts, out_of_fuel, ◌>>=◌}
use numcore_messaging_librar.OrderedMap.{OrderedMap, assign, find, erase}
use numcore_messaging_librar.OrderedMap.Laws.{find-assign}
use numcore_messaging_librar.Numcfc.ThreadRunner.{joinable, running, Impl, notify, join, Wake, wait}

abbrev pub MultiThreadRunner : Type 0
MultiThreadRunner = OrderedMap Impl

abbrev started : Impl
started = record {
  thread = running;
  supposed_to_stop = false;
  notified = false;
  joined_already = false;
}

abbrev start_missing : MultiThreadRunner → Bytes → Option Impl → Bool × MultiThreadRunner
start_missing m task none = (true, assign task started m)
start_missing m task (some i) = (false, m)

unfoldable pub start_task : MultiThreadRunner → Bytes → Bool × MultiThreadRunner
start_task m task = start_missing m task (find task m)

-- The destructor of the erased entry; that of a joinable `std::thread` ends the program.
abbrev erased : MultiThreadRunner → Bytes → Option Impl → Outcome MultiThreadRunner
erased m task none = done m
erased m task (some i) = if joinable i.thread then aborts else done (erase task m)

-- The end of `RunThread`.
unfoldable pub run_task : MultiThreadRunner → Bytes → Outcome MultiThreadRunner
run_task m task = erased m task (find task m)

abbrev stopped : MultiThreadRunner → Bytes → Option Impl → Bool × MultiThreadRunner
stopped m task none = (false, m)
stopped m task (some i) = (true, assign task (record i { supposed_to_stop = true }) m)

-- The stop flag only: a waiting thread gets no notice.
unfoldable pub ask_task_to_stop : MultiThreadRunner → Bytes → Bool × MultiThreadRunner
ask_task_to_stop m task = stopped m task (find task m)

abbrev stop_flag : Option Impl → Bool
stop_flag none = true
stop_flag (some i) = i.supposed_to_stop

unfoldable pub is_task_supposed_to_stop : MultiThreadRunner → Bytes → Bool
is_task_supposed_to_stop m task = stop_flag (find task m)

abbrev noticed : MultiThreadRunner → Bytes → Option Impl → MultiThreadRunner
unfolding notify
noticed m task none = m
noticed m task (some i) = assign task (notify i) m

unfoldable pub notify_task : MultiThreadRunner → Bytes → MultiThreadRunner
unfolding noticed
notify_task m task = noticed m task (find task m)

abbrev joined : MultiThreadRunner → Bytes → Option Impl → Outcome (Bool × MultiThreadRunner)
unfolding join
joined m task none = done (false, m)
joined m task (some i) = join i >>= λ i'. done (true, assign task i' m)

unfoldable pub join_task : MultiThreadRunner → Bytes → Outcome (Bool × MultiThreadRunner)
unfolding joined
join_task m task = joined m task (find task m)

-- A task that was started ends the program when its thread returns: the thread erases the entry that
-- holds its own handle, which is still joinable.
pub run_task-aborts :
    (m : MultiThreadRunner) (task : Bytes)
    → (start_task m task).0 ≡ true
    → run_task (start_task m task).1 task ≡ aborts
unfolding start_task run_task
run_task-aborts m task h = go (find task m) h
  where
    go :
        (o : Option Impl)
        → (start_missing m task o).0 ≡ true
        → erased (start_missing m task o).1 task (find task (start_missing m task o).1) ≡ aborts
    go none h = rw ((find-assign task task started m).0 refl)
    go (some i) h = ground (arith, h)

-- `AskAllThreadsToStop`
unfoldable pub ask_all_to_stop : MultiThreadRunner → MultiThreadRunner
ask_all_to_stop [] = []
ask_all_to_stop ((task, i) ∷ m) = (task, record i { supposed_to_stop = true }) ∷ ask_all_to_stop m

abbrev waited : MultiThreadRunner → Bytes → Option Impl → List Wake → Outcome MultiThreadRunner
unfolding wait
waited m task none wakes = done m
waited m task (some i) wakes = wait i wakes >>= λ i'. done (assign task i' m)

unfoldable pub wait_task : MultiThreadRunner → Bytes → List Wake → Outcome MultiThreadRunner
unfolding waited
wait_task m task wakes = waited m task (find task m) wakes

-- The loop of the destructor, with the tasks whose threads end meanwhile, in their order; it still
-- waits when these are over: `out_of_fuel`.
unfoldable pub await_all : MultiThreadRunner → List Bytes → Outcome MultiThreadRunner
unfolding run_task
await_all [] tasks = done []
await_all (entry ∷ m) [] = out_of_fuel
await_all (entry ∷ m) (task ∷ tasks) = run_task (entry ∷ m) task >>= λ m'. await_all m' tasks

-- `~MultiThreadRunner`
unfoldable pub destroy_all : MultiThreadRunner → List Bytes → Outcome MultiThreadRunner
unfolding ask_all_to_stop await_all
destroy_all m tasks = await_all (ask_all_to_stop m) tasks

-- Once a task is asked to stop, it is told to stop, whether it is known or not.
pub ask_task_to_stop-stops :
    (m : MultiThreadRunner) (task : Bytes)
    → is_task_supposed_to_stop (ask_task_to_stop m task).1 task ≡ true
unfolding ask_task_to_stop is_task_supposed_to_stop
ask_task_to_stop-stops m task = go (find task m) refl
  where
    go : (o : Option Impl) → find task m ≡ o → stop_flag (find task (stopped m task o).1) ≡ true
    go none e = rw e
    go (some i) e = rw ((find-assign task task (record i { supposed_to_stop = true }) m).0 refl)

-- Asking one task to stop tells no other task to.
pub ask_task_to_stop-other :
    (m : MultiThreadRunner) (task other : Bytes)
    → other ≢ task
    → is_task_supposed_to_stop (ask_task_to_stop m task).1 other ≡ is_task_supposed_to_stop m other
unfolding ask_task_to_stop is_task_supposed_to_stop
ask_task_to_stop-other m task other ne = go (find task m)
  where
    go : (o : Option Impl) → stop_flag (find other (stopped m task o).1) ≡ stop_flag (find other m)
    go none = refl
    go (some i) =
        ap stop_flag ((find-assign task other (record i { supposed_to_stop = true }) m).1 ne)
