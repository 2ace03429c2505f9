-- ===== src/ThreadPool.antt =====
-- The thread pool and its queue: 11_join_server/thread_pool.hpp and thread_safe_queue.hpp. The locked
-- sections of `Push` and `Pop` are single steps, and a run is the sequence of the steps of all
-- threads in any order. A task is a number; its handler returns, and that its promise is set is kept
-- in `finished`.
pub mod Counts
pub mod Invariant
pub mod Tasks
pub mod Shutdown
pub mod Wakeups
use cpp.Prelude.{ℕ, zero, suc, Option, none, some, List, [], ◌∷◌, ◌++◌, get_elem?, set, replicate}

-- `TTask`
pub data Task : Type 0 where
  execute : ℕ → Task
  terminate : Task

-- A thread of `MakeThread`: in `queue.Pop()`, in a handler, or after its `return`.
pub data Worker : Type 0 where
  waiting : Worker
  running : ℕ → Worker
  stopped : Worker

-- How many terminations the destructor has still to push, once it has begun.
pub data Phase : Type 0 where
  serving : Phase
  stopping : ℕ → Phase

-- `TThreadPool`
pub record Pool : Type 0 where
  pub queue : List Task
  pub workers : List Worker
  pub phase : Phase
  pub finished : List ℕ

-- `Create`: the constructor starts the threads.
abbrev pub create : ℕ → Pool
create capacity = record {
  queue = [];
  workers = replicate capacity waiting;
  phase = serving;
  finished = [];
}

-- `Push`; the wakeup of a waiting thread is in Wakeups.
abbrev pub push : Task → Pool → Pool
push t p = record p { queue = p.queue ++ t ∷ [] }

-- `Enqueue`: no call is made once the destructor runs.
unfoldable pub enqueue : ℕ → Phase → Pool → Option Pool
enqueue id serving p = some (push (execute id) p)
enqueue id (stopping k) p = none

-- The destructor begins.
unfoldable pub destroy : Phase → ℕ → Pool → Option Pool
destroy serving capacity p = some (record p { phase = stopping capacity })
destroy (stopping k) capacity p = none

-- One round of the first loop of the destructor.
unfoldable pub push_termination : Phase → Pool → Option Pool
push_termination serving p = none
push_termination (stopping zero) p = none
push_termination (stopping (suc k)) p = some (record (push terminate p) { phase = stopping k })

-- What a thread does with the task that it has popped.
abbrev pub started : Task → Worker
started (execute id) = running id
started terminate = stopped

-- `Pop` of a thread: one that waits may pop whenever the queue holds a task. Wakeups says when it
-- is awake.
unfoldable pub pop : ℕ → Option Worker → List Task → Pool → Option Pool
pop i (some waiting) (t ∷ rest) p =
    some (record p { queue = rest; workers = set p.workers i (started t) })
pop i _ _ p = none

-- The handler of a thread returns, and the promise is set.
unfoldable pub finish : ℕ → Option Worker → Pool → Option Pool
finish i (some (running id)) p =
    some (record p { workers = set p.workers i waiting; finished = p.finished ++ id ∷ [] })
finish i _ p = none

-- A step of the owner or of a thread.
pub data Action : Type 0 where
  owner_enqueues : ℕ → Action
  owner_destroys owner_pushes : Action
  thread_pops thread_finishes : ℕ → Action

unfoldable pub act : ℕ → Action → Pool → Option Pool
unfolding enqueue destroy push_termination pop finish
act capacity (owner_enqueues id) p = enqueue id p.phase p
act capacity owner_destroys p = destroy p.phase capacity p
act capacity owner_pushes p = push_termination p.phase p
act capacity (thread_pops i) p = pop i (get_elem? p.workers i) p.queue p
act capacity (thread_finishes i) p = finish i (get_elem? p.workers i) p

unfoldable pub run : ℕ → List Action → Pool → Option Pool
unfolding act
run capacity [] p = some p
run capacity (a ∷ actions) p = elim (act capacity a p) [
  | none ↦ none
  | some p' ↦ run capacity actions p'
]
