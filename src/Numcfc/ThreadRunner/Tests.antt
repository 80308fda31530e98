-- ===== src/Numcfc/ThreadRunner/Tests.antt =====
-- The theorems on threads at concrete inputs.
use numcore_messaging_librar.Common.{◌≡◌, refl, arith, [], ◌∷◌, codes}
use numcore_messaging_librar.OrderedMap.{assign, find, compare_keys}
use numcore_messaging_librar.Outcome.{done, aborts}
use numcore_messaging_librar.Numcfc.ThreadRunner.{
  new_impl, starts, stops, notifies, ends, joins, happen_all,
}
use numcore_messaging_librar.Numcfc.ThreadRunner.LifeCycle.{closed, start-destroy}
use numcore_messaging_librar.Numcfc.ThreadRunner.Multi.{MultiThreadRunner, start_task, destroy_all}
use numcore_messaging_librar.Numcfc.ThreadRunner.Multi.Ending.{any_own, destroy_all-cases}

start-destroy_example :
    happen_all new_impl (starts ∷ notifies ∷ stops ∷ ends ∷ stops ∷ joins ∷ []) ≡ done closed
start-destroy_example = start-destroy (notifies ∷ stops ∷ []) refl

abbrev two_tasks : MultiThreadRunner
two_tasks = (start_task (start_task [] (codes "poll")).1 (codes "send")).1

destroy_all-cases_example : destroy_all two_tasks (codes "log" ∷ codes "send" ∷ []) ≡ aborts
unfolding start_task find compare_keys assign any_own
destroy_all-cases_example =
    destroy_all-cases two_tasks (codes "log" ∷ codes "send" ∷ []) (λ e. ground arith)
      (refl, (refl, tt))
