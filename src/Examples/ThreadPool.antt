-- ===== src/Examples/ThreadPool.antt =====
-- A pool with one thread that gets one task.
use cpp.Prelude.{◌⊎◌, ◌+◌, ◌≤◌, ◌≡◌, refl, Option, none, some, List, [], ◌∷◌, arith, length}
use cpp.ThreadPool.{
  Pool, create, Action, owner_enqueues, owner_destroys, owner_pushes, thread_pops, thread_finishes,
  run,
}
use cpp.ThreadPool.Wakeups.{
  Waits, begin, Step, enqueues, destroys, pushes, pops, finishes, sleeps, run_steps,
}
use cpp.ThreadPool.Wakeups.Progress.{Possible, stopping-progress}
use cpp.ThreadPool.Counts.{count, total}
use cpp.ThreadPool.Tasks.{submitted}
use cpp.ThreadPool.Shutdown.{IsJoined, work, joined-finished, run-work}

abbrev actions : List Action
actions =
    owner_enqueues 7
    ∷ owner_destroys
    ∷ owner_pushes
    ∷ thread_pops 0
    ∷ thread_finishes 0
    ∷ thread_pops 0
    ∷ []

abbrev last_of : Option Pool → Pool
last_of none = create 1
last_of (some p) = p

abbrev joined : Pool
joined = last_of (run 1 actions (create 1))

abbrev destroying : List Action
destroying = owner_enqueues 7 ∷ owner_destroys ∷ []

abbrev begun : Pool
begun = last_of (run 1 destroying (create 1))

joined-finished_example : count 7 joined.finished ≡ submitted 7 actions
unfolding run total
joined-finished_example = joined-finished 1 7 actions joined (omega arith) refl (refl, refl)

run-work_example :
    length (owner_pushes ∷ thread_pops 0 ∷ [])
      + work (last_of (run 1 (owner_pushes ∷ thread_pops 0 ∷ []) begun))
    ≤ work begun
unfolding run total
run-work_example =
    run-work 1 (owner_pushes ∷ thread_pops 0 ∷ []) begun
      (last_of (run 1 (owner_pushes ∷ thread_pops 0 ∷ []) begun)) (tt, (tt, tt)) refl

abbrev to_sleep : List Step
to_sleep = sleeps 0 ∷ enqueues 0 7 ∷ pops 0 ∷ finishes 0 ∷ sleeps 0 ∷ destroys ∷ pushes 0 ∷ []

abbrev waits_of : Option Waits → Waits
waits_of none = begin 1
waits_of (some w) = w

abbrev after_sleep : Waits
after_sleep = waits_of (run_steps 1 to_sleep (begin 1))

stopping-progress_example : IsJoined 1 after_sleep.pool ⊎ Possible 1 after_sleep
unfolding run_steps total
stopping-progress_example = stopping-progress 1 0 to_sleep after_sleep refl refl
