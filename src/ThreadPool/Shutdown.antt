-- ===== src/ThreadPool/Shutdown.antt =====
-- The destructor: it ends, and every task is finished when all threads are joined.
use cpp.Prelude.{
  ℕ, zero, suc, ◌+◌, ◌*◌, ◌≤◌, ◌<◌, ◌≡◌, refl, Option, none, some, List, [], ◌∷◌, arith, get_elem?,
  length, length-append,
}
use cpp.ThreadPool.{
  Task, execute, terminate, Worker, waiting, running, stopped, Phase, serving, stopping, Pool,
  create, push_termination, pop, finish, Action, owner_enqueues, owner_destroys, owner_pushes,
  thread_pops, thread_finishes, act, run,
}
use cpp.ThreadPool.Counts.{queued, total, total-set, total-replicate, runs, count}
use cpp.ThreadPool.Tasks.{present, submitted, present-run, run-cons}
use cpp.ThreadPool.Invariant.{executes, is_stopped, remaining, create-IsPool, run-IsPool}

-- The destructor has returned: all terminations are pushed, and all threads have ended.
abbrev pub IsJoined : ℕ → Pool → Type 0
IsJoined n p = (p.phase ≡ stopping 0) × (total is_stopped p.workers ≡ n)

queued-le : (v : ℕ) (q : List Task) → queued v q ≤ executes q
unfolding queued executes
queued-le v [] = omega arith
queued-le v (execute id ∷ q) = ground (arith, queued-le v q)
queued-le v (terminate ∷ q) = ground (arith, queued-le v q)

total-le-length : (v : ℕ) (ws : List Worker) → total (runs v) ws + total is_stopped ws ≤ length ws
unfolding total
total-le-length v [] = omega arith
total-le-length v (waiting ∷ ws) = omega (arith, total-le-length v ws)
total-le-length v (running id ∷ ws) = ground (arith, total-le-length v ws)
total-le-length v (stopped ∷ ws) = omega (arith, total-le-length v ws)

-- When the destructor of a pool with at least one thread has returned, every task that was enqueued
-- has been run, and exactly as often as it was enqueued, in whatever order the threads ran.
pub joined-finished :
    (n v : ℕ) (actions : List Action) (p : Pool)
    → 0 < n
    → run n actions (create n) ≡ some p
    → IsJoined n p
    → count v p.finished ≡ submitted v actions
joined-finished n v actions p l h j =
    let i = run-IsPool n actions (create n) p (create-IsPool n) h in
    let e = present-run v n actions (create n) p h in
    let z : present v (create n) ≡ 0 =
      unfold queued count in omega (arith, total-replicate (runs v) n refl) in
    let q : queued v p.queue ≡ 0 =
      omega (arith, queued-le v p.queue, i.drained (omega (arith, j.1, l))) in
    omega (arith, e, z, q, total-le-length v p.workers, i.threads, j.1)

-- What the destructor and the threads have still to do.
abbrev pub is_running : Worker → ℕ
is_running (running id) = 1
is_running _ = 0

abbrev pub work : Pool → ℕ
work p = 3 * remaining 0 p.phase + 2 * length p.queue + total is_running p.workers

-- A step of the destructor or of a thread.
abbrev pub IsPoolStep : Action → Type 0
IsPoolStep (owner_enqueues id) = ⊥
IsPoolStep owner_destroys = ⊥
IsPoolStep _ = Unit

abbrev pub ArePoolSteps : List Action → Type 0
ArePoolSteps [] = Unit
ArePoolSteps (a ∷ actions) = IsPoolStep a × ArePoolSteps actions

pop-work :
    (i : ℕ) (w : Option Worker) (q : List Task) (p p' : Pool)
    → get_elem? p.workers i ≡ w
    → p.queue ≡ q
    → pop i w q p ≡ some p'
    → work p' < work p
unfolding pop
pop-work i none q p p' e f h = cc
pop-work i (some waiting) [] p p' e f h = cc
pop-work i (some waiting) (execute id ∷ q) p p' e f h =
    ground (arith, h, f, total-set is_running p.workers i waiting (running id) e)
pop-work i (some waiting) (terminate ∷ q) p p' e f h =
    ground (arith, h, f, total-set is_running p.workers i waiting stopped e)
pop-work i (some (running id)) q p p' e f h = cc
pop-work i (some stopped) q p p' e f h = cc

finish-work :
    (i : ℕ) (w : Option Worker) (p p' : Pool)
    → get_elem? p.workers i ≡ w
    → finish i w p ≡ some p'
    → work p' < work p
unfolding finish
finish-work i none p p' e h = cc
finish-work i (some waiting) p p' e h = cc
finish-work i (some (running id)) p p' e h =
    ground (arith, h, total-set is_running p.workers i (running id) waiting e)
finish-work i (some stopped) p p' e h = cc

push-work :
    (f : Phase) (p p' : Pool) → p.phase ≡ f → push_termination f p ≡ some p' → work p' < work p
unfolding push_termination
push-work serving p p' e h = cc
push-work (stopping zero) p p' e h = cc
push-work (stopping (suc k)) p p' e h =
    ground (arith, h, e, length-append {0} p.queue (terminate ∷ []))

act-work :
    (n : ℕ) (a : Action) (p p' : Pool) → IsPoolStep a → act n a p ≡ some p' → work p' < work p
unfolding act
act-work n (owner_enqueues id) p p' s h = absurd s
act-work n owner_destroys p p' s h = absurd s
act-work n owner_pushes p p' s h = push-work p.phase p p' refl h
act-work n (thread_pops i) p p' s h = pop-work i (get_elem? p.workers i) p.queue p p' refl refl h
act-work n (thread_finishes i) p p' s h = finish-work i (get_elem? p.workers i) p p' refl h

-- However the steps of the destructor and of the threads are ordered, there are at most as many as
-- three for each termination to be pushed, two for each task in the queue and one for each running
-- handler.
pub run-work :
    (n : ℕ) (actions : List Action) (p last : Pool)
    → ArePoolSteps actions
    → run n actions p ≡ some last
    → length actions + work last ≤ work p
run-work n [] p last s h = unfold run in ground (arith, h)
run-work n (a ∷ actions) p last s h =
    let (p', e, f) = run-cons n a actions p last h in
    omega (arith, act-work n a p p' s.0 e, run-work n actions p' last s.1 f)
