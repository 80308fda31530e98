-- ===== src/Numcfc/ThreadRunner/Multi/Ending.antt =====
-- The end of a `MultiThreadRunner`.
use numcore_messaging_librar.Common.{
  ◌≡◌, ◌≢◌, refl, true, List, [], ◌∷◌, some, Bytes, All, arith, inl, inr, Option-cases, Option,
  none, Bool, false, if◌then◌else◌, ap, ◌∙◌,
}
use numcore_messaging_librar.Outcome.{aborts, out_of_fuel}
use numcore_messaging_librar.OrderedMap.{find}
use numcore_messaging_librar.Numcfc.ThreadRunner.{joinable, Impl}
use numcore_messaging_librar.Numcfc.ThreadRunner.Multi.{
  MultiThreadRunner, run_task, ask_all_to_stop, is_task_supposed_to_stop, await_all, destroy_all,
}

-- Every entry has a thread that has not been joined.
abbrev pub IsUnjoined : MultiThreadRunner → Type 0
IsUnjoined = All (λ (e : Bytes × Impl). joinable (e.1.thread) ≡ true)

find-joinable :
    (m : MultiThreadRunner) (task : Bytes) (i : Impl)
    → IsUnjoined m
    → find task m ≡ some i
    → joinable i.thread ≡ true
unfolding find
find-joinable [] task i u e = ground (arith, e)
find-joinable ((k, j) ∷ m) task i u e = ground (arith, e, u.0, find-joinable m task i u.1)

ask_all-IsUnjoined : (m : MultiThreadRunner) → IsUnjoined m → IsUnjoined (ask_all_to_stop m)
unfolding ask_all_to_stop
ask_all-IsUnjoined [] u = tt
ask_all-IsUnjoined ((k, j) ∷ m) u = (u.0, ask_all-IsUnjoined m u.1)

-- Every task is told to stop, whether it has a thread or not.
pub ask_all_to_stop-stops :
    (m : MultiThreadRunner) (task : Bytes)
    → is_task_supposed_to_stop (ask_all_to_stop m) task ≡ true
unfolding ask_all_to_stop is_task_supposed_to_stop find
ask_all_to_stop-stops [] task = refl
ask_all_to_stop-stops ((k, j) ∷ m) task = ground (arith, ask_all_to_stop-stops m task)

abbrev is_there : Option Impl → Bool
is_there none = false
is_there (some i) = true

-- Whether one of these tasks is one of the runner's own.
unfoldable pub any_own : MultiThreadRunner → List Bytes → Bool
any_own m [] = false
any_own m (task ∷ tasks) =
    let rest = any_own m tasks in if is_there (find task m) then true else rest

await_all-owns :
    (tasks : List Bytes) (entry : Bytes × Impl) (m : MultiThreadRunner)
    → IsUnjoined (entry ∷ m)
    → await_all (entry ∷ m) tasks ≡ (if any_own (entry ∷ m) tasks then aborts else out_of_fuel)
unfolding await_all any_own run_task
await_all-owns [] entry m u = refl
await_all-owns (task ∷ tasks) entry m u = elim (Option-cases (find task (entry ∷ m))) [
  | inl none_there ↦ rw none_there (await_all-owns tasks entry m u)
  | inr (i, e) ↦ rw (e, find-joinable (entry ∷ m) task i u e) refl
]

ask_all-is_there :
    (m : MultiThreadRunner) (task : Bytes)
    → is_there (find task (ask_all_to_stop m)) ≡ is_there (find task m)
unfolding ask_all_to_stop find
ask_all-is_there [] task = refl
ask_all-is_there ((k, j) ∷ m) task = ground (arith, ask_all-is_there m task)

ask_all-any_own :
    (m : MultiThreadRunner) (tasks : List Bytes)
    → any_own (ask_all_to_stop m) tasks ≡ any_own m tasks
unfolding any_own
ask_all-any_own m [] = refl
ask_all-any_own m (task ∷ tasks) = rw (ask_all-is_there m task, ask_all-any_own m tasks) refl

-- A runner with tasks none of whose threads has been joined is never destroyed: with the threads of
-- any tasks ending, in whatever order, the program is aborted if one of these is the runner's own,
-- and otherwise its destructor still waits when they have all ended.
pub destroy_all-cases :
    (m : MultiThreadRunner) (tasks : List Bytes)
    → m ≢ []
    → IsUnjoined m
    → destroy_all m tasks ≡ (if any_own m tasks then aborts else out_of_fuel)
unfolding destroy_all ask_all_to_stop
destroy_all-cases [] tasks nonempty u = absurd (nonempty refl)
destroy_all-cases (entry ∷ m) tasks nonempty u =
    await_all-owns tasks _ _ (ask_all-IsUnjoined (entry ∷ m) u)
    ∙ ap (λ own. if own then aborts else out_of_fuel) (ask_all-any_own (entry ∷ m) tasks)
