-- ===== src/ThreadPool/Wakeups/Progress.antt =====
-- No wakeup is lost: while the destructor runs, some thread can go on.
use native.Mathlib.Decide.{dec_lt}
use cpp.Prelude.{
  ℕ, zero, suc, ◌≤◌, ◌<◌, ◌≡◌, refl, ◌⊎◌, inl, inr, false, Bool-cases, some, List, [], ◌∷◌, ◌++◌,
  arith, get_elem?, set, length,
}
use cpp.ThreadPool.{
  Task, execute, terminate, Worker, waiting, running, stopped, started, stopping, Pool, push,
  push_termination, pop, finish, act,
}
use cpp.ThreadPool.Counts.{total}
use cpp.ThreadPool.Invariant.{terminations, is_stopped}
use cpp.ThreadPool.Shutdown.{IsJoined}
use cpp.ThreadPool.Wakeups.{
  Waits, begin, some_asleep, notify_one, notified, pop_awake, Step, pushes, pops, finishes, step,
  run_steps,
}
use cpp.ThreadPool.Wakeups.Awake.{awake, find_awake, find_asleep, none_asleep}
use cpp.ThreadPool.Wakeups.Kept.{IsWaits, begin-IsWaits, run_steps-IsWaits}

-- A step of the destructor or of a thread that is not asleep and does not fall asleep.
abbrev pub GoesOn : Step → Type 0
GoesOn (pushes i) = Unit
GoesOn (pops i) = Unit
GoesOn (finishes i) = Unit
GoesOn _ = ⊥

abbrev pub Possible : ℕ → Waits → Type 0
Possible n w = (s : Step) × (w' : Waits) × (step n s w ≡ some w') × GoesOn s

find_active :
    (ws : List Worker)
    → total is_stopped ws < length ws
    → (i : ℕ) × (w : Worker) × (get_elem? ws i ≡ some w) × (is_stopped w ≡ 0)
unfolding total
find_active [] h = absurd (omega arith)
find_active (waiting ∷ ws) h = (0, waiting, refl, refl)
find_active (running id ∷ ws) h = (0, running id, refl, refl)
find_active (stopped ∷ ws) h = let (i, w, e, s) = find_active ws (omega arith) in (suc i, w, e, s)

queue_cases :
    (q : List Task) → 0 < terminations q → (t : Task) × (rest : List Task) × (q ≡ t ∷ rest)
unfolding terminations
queue_cases [] h = absurd (omega arith)
queue_cases (t ∷ rest) h = (t, rest, refl)

push-Possible : (n k : ℕ) (w : Waits) → w.pool.phase ≡ stopping (suc k) → Possible n w
unfolding step notified notify_one act push_termination
push-Possible n k w e =
    let p : Pool = record (push terminate w.pool) { phase = stopping k } in
    elim (Bool-cases (some_asleep w.asleep)) [
      | inl h ↦
          let (i, f) = find_asleep w.asleep h in
          (
            pushes i,
            record { pool = p; asleep = set w.asleep i false },
            ground (arith, e, h, f),
            tt,
          )
      | inr h ↦ (pushes 0, record { pool = p; asleep = w.asleep }, ground (arith, e, h), tt)
    ]

finish-Possible :
    (n i id : ℕ) (w : Waits) → get_elem? w.pool.workers i ≡ some (running id) → Possible n w
unfolding step act finish
finish-Possible n i id w e =
    let p = w.pool in
    (
      finishes i,
      record w {
        pool = record p { workers = set p.workers i waiting; finished = p.finished ++ id ∷ [] };
      },
      ground (arith, e),
      tt,
    )

pop-Possible :
    (n : ℕ) (w : Waits)
    → 0 < terminations w.pool.queue
    → 0 < awake w.pool.workers w.asleep
    → Possible n w
unfolding step pop_awake act pop
pop-Possible n w h a =
    let p = w.pool in
    let (t, rest, q) = queue_cases p.queue h in
    let (i, e, f) = find_awake p.workers w.asleep a in
    (
      pops i,
      record w { pool = record p { queue = rest; workers = set p.workers i (started t) } },
      ground (arith, e, f, q),
      tt,
    )

terminations-le : (q : List Task) → terminations q ≤ length q
unfolding terminations
terminations-le [] = omega arith
terminations-le (execute id ∷ q) = omega (arith, terminations-le q)
terminations-le (terminate ∷ q) = omega (arith, terminations-le q)

-- While some thread waits and the queue is not empty, one of those that wait is awake.
waiting-awake :
    (n i : ℕ) (w : Waits)
    → IsWaits n w
    → 0 < terminations w.pool.queue
    → get_elem? w.pool.workers i ≡ some waiting
    → 0 < awake w.pool.workers w.asleep
waiting-awake n i w v h e = elim (Bool-cases (some_asleep w.asleep)) [
  | inl s ↦ omega (arith, v.enough s, terminations-le w.pool.queue, h)
  | inr s ↦ none_asleep i w.pool.workers w.asleep v.flags s e
]

thread-Possible :
    (n i : ℕ) (x : Worker) (w : Waits)
    → IsWaits n w
    → get_elem? w.pool.workers i ≡ some x
    → is_stopped x ≡ 0
    → 0 < terminations w.pool.queue
    → Possible n w
thread-Possible n i waiting w v e s h = pop-Possible n w h (waiting-awake n i w v h e)
thread-Possible n i (running id) w v e s h = finish-Possible n i id w e
thread-Possible n i stopped w v e s h = absurd (omega arith)

-- While the destructor runs, after any steps of the owner and of the threads, threads that fell asleep
-- and were woken up among them, the destructor has returned, or it can push, or some thread that is awake
-- can pop a task or end its handler: no wakeup is lost, and there is no deadlock.
pub stopping-progress :
    (n k : ℕ) (steps : List Step) (w : Waits)
    → run_steps n steps (begin n) ≡ some w
    → w.pool.phase ≡ stopping k
    → IsJoined n w.pool ⊎ Possible n w
stopping-progress n (suc k) steps w h e = inr (push-Possible n k w e)
stopping-progress n zero steps w h e =
    let v = run_steps-IsWaits n steps (begin n) w (begin-IsWaits n) h in
    elim (dec_lt (total is_stopped w.pool.workers) n) [
      | yes l ↦
          let (i, x, f, g) = find_active w.pool.workers (omega (arith, l, v.pool.threads)) in
          inr (thread-Possible n i x w v f g (ground (arith, e, l, v.pool.each_stops)))
      | no l ↦ inl (e, omega (arith, l, v.pool.each_stops))
    ]
