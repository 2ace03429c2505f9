-- ===== src/ThreadPool/Wakeups.antt =====
-- The condition variable of the queue, 11_join_server/thread_safe_queue.hpp: the steps of ThreadPool with
-- the threads that sleep in `wait`. `notify_one` wakes one of them, and a thread that sleeps cannot pop.
-- The predicate of `wait` is tested under the mutex, so a thread goes to sleep only at an empty queue.
-- Spurious wakeups are left out.
pub mod Awake
pub mod Kept
pub mod Progress
use cpp.Prelude.{
  ℕ, zero, suc, Bool, true, false, ◌||◌, Option, none, some, List, [], ◌∷◌, get_elem?, set,
  replicate,
}
use cpp.ThreadPool.{
  Task, Worker, waiting, running, stopped, Pool, create, Action, owner_enqueues, owner_destroys,
  owner_pushes, thread_pops, thread_finishes, act,
}

-- The pool, and which of its threads sleep.
pub record Waits : Type 0 where
  pub pool : Pool
  pub asleep : List Bool

abbrev pub begin : ℕ → Waits
begin capacity = record { pool = create capacity; asleep = replicate capacity false }

abbrev pub some_asleep : List Bool → Bool
some_asleep [] = false
some_asleep (b ∷ asleep) = b || some_asleep asleep

-- `ConditionVariable.notify_one()` wakes the thread `i`, which sleeps; nothing happens when none does.
unfoldable pub notify_one : ℕ → Bool → Option Bool → List Bool → Option (List Bool)
notify_one i true (some true) asleep = some (set asleep i false)
notify_one i true _ asleep = none
notify_one i false _ asleep = some asleep

-- What a push leaves, with the wakeup at its end.
unfoldable pub notified : ℕ → Option Pool → List Bool → Option Waits
unfolding notify_one
notified i none asleep = none
notified i (some p) asleep = elim (notify_one i (some_asleep asleep) (get_elem? asleep i) asleep) [
  | none ↦ none
  | some asleep' ↦ some (record { pool = p; asleep = asleep' })
]

-- A step that changes the pool only.
abbrev pub with_pool : Option Pool → List Bool → Option Waits
with_pool none asleep = none
with_pool (some p) asleep = some (record { pool = p; asleep = asleep })

-- The predicate of `wait` is false, and the thread sleeps.
unfoldable pub fall_asleep : ℕ → Option Worker → Option Bool → List Task → Waits → Option Waits
fall_asleep i (some waiting) (some false) [] w = some (record w { asleep = set w.asleep i true })
fall_asleep i _ _ _ w = none

-- `Pop` of a thread that is awake.
unfoldable pub pop_awake : ℕ → ℕ → Option Bool → Waits → Option Waits
unfolding act
pop_awake capacity i (some false) w = with_pool (act capacity (thread_pops i) w.pool) w.asleep
pop_awake capacity i _ w = none

-- The steps; those that push name the thread that is woken up.
pub data Step : Type 0 where
  enqueues : ℕ → ℕ → Step
  destroys : Step
  pushes : ℕ → Step
  pops finishes sleeps : ℕ → Step

unfoldable pub step : ℕ → Step → Waits → Option Waits
unfolding act notified fall_asleep pop_awake
step capacity (enqueues i id) w = notified i (act capacity (owner_enqueues id) w.pool) w.asleep
step capacity destroys w = with_pool (act capacity owner_destroys w.pool) w.asleep
step capacity (pushes i) w = notified i (act capacity owner_pushes w.pool) w.asleep
step capacity (pops i) w = pop_awake capacity i (get_elem? w.asleep i) w
step capacity (finishes i) w = with_pool (act capacity (thread_finishes i) w.pool) w.asleep
step capacity (sleeps i) w =
    fall_asleep i (get_elem? w.pool.workers i) (get_elem? w.asleep i) w.pool.queue w

unfoldable pub run_steps : ℕ → List Step → Waits → Option Waits
unfolding step
run_steps capacity [] w = some w
run_steps capacity (s ∷ steps) w = elim (step capacity s w) [
  | none ↦ none
  | some w' ↦ run_steps capacity steps w'
]
