-- ===== src/ThreadPool/Tasks.antt =====
-- No task is lost or run twice.
use cpp.Prelude.{
  ℕ, zero, suc, ◌+◌, ◌≡◌, refl, Option, none, some, Option-cases, inl, inr, List, [], ◌∷◌, arith,
  ◌==◌, if◌then◌else◌, get_elem?,
}
use cpp.ThreadPool.{
  Task, execute, terminate, Worker, waiting, running, stopped, Phase, serving, stopping, Pool,
  enqueue, destroy, push_termination, pop, finish, Action, owner_enqueues, owner_destroys,
  owner_pushes, thread_pops, thread_finishes, act, run,
}
use cpp.ThreadPool.Counts.{queued, queued-append, total, total-set, runs, count, count-append}

-- Where the task `v` stands: in the queue, with a thread, or done.
abbrev pub present : ℕ → Pool → ℕ
present v p = queued v p.queue + total (runs v) p.workers + count v p.finished

abbrev pub submitted_one : ℕ → Action → ℕ
submitted_one v (owner_enqueues id) = if v == id then 1 else 0
submitted_one v _ = 0

-- How often the task `v` was given to the pool.
unfoldable pub submitted : ℕ → List Action → ℕ
submitted v [] = 0
submitted v (a ∷ actions) = submitted_one v a + submitted v actions

present-pop :
    (v i : ℕ) (w : Option Worker) (q : List Task) (p p' : Pool)
    → get_elem? p.workers i ≡ w
    → p.queue ≡ q
    → pop i w q p ≡ some p'
    → present v p' ≡ present v p
unfolding pop queued
present-pop v i none q p p' e f h = cc
present-pop v i (some waiting) [] p p' e f h = cc
present-pop v i (some waiting) (execute id ∷ q) p p' e f h =
    ground (arith, e, f, h, total-set (runs v) p.workers i waiting (running id) e)
present-pop v i (some waiting) (terminate ∷ q) p p' e f h =
    ground (arith, e, f, h, total-set (runs v) p.workers i waiting stopped e)
present-pop v i (some (running id)) q p p' e f h = cc
present-pop v i (some stopped) q p p' e f h = cc

present-finish :
    (v i : ℕ) (w : Option Worker) (p p' : Pool)
    → get_elem? p.workers i ≡ w
    → finish i w p ≡ some p'
    → present v p' ≡ present v p
unfolding finish count
present-finish v i none p p' e h = cc
present-finish v i (some waiting) p p' e h = cc
present-finish v i (some (running id)) p p' e h = ground (
  arith,
  e,
  h,
  total-set (runs v) p.workers i (running id) waiting e,
  count-append v p.finished (id ∷ []),
)
present-finish v i (some stopped) p p' e h = cc

present-enqueue :
    (v id : ℕ) (f : Phase) (p p' : Pool)
    → enqueue id f p ≡ some p'
    → present v p' ≡ present v p + (if v == id then 1 else 0)
unfolding enqueue queued
present-enqueue v id serving p p' h = ground (arith, h, queued-append v p.queue (execute id ∷ []))
present-enqueue v id (stopping k) p p' h = cc

present-destroy :
    (v n : ℕ) (f : Phase) (p p' : Pool) → destroy f n p ≡ some p' → present v p' ≡ present v p + 0
unfolding destroy
present-destroy v n serving p p' h = ground (arith, h)
present-destroy v n (stopping k) p p' h = cc

present-push :
    (v : ℕ) (f : Phase) (p p' : Pool)
    → push_termination f p ≡ some p'
    → present v p' ≡ present v p + 0
unfolding push_termination queued
present-push v serving p p' h = cc
present-push v (stopping zero) p p' h = cc
present-push v (stopping (suc k)) p p' h =
    ground (arith, h, queued-append v p.queue (terminate ∷ []))

present-act :
    (v n : ℕ) (a : Action) (p p' : Pool)
    → act n a p ≡ some p'
    → present v p' ≡ present v p + submitted_one v a
unfolding act
present-act v n (owner_enqueues id) p p' h = present-enqueue v id p.phase p p' h
present-act v n owner_destroys p p' h = present-destroy v n p.phase p p' h
present-act v n owner_pushes p p' h = present-push v p.phase p p' h
present-act v n (thread_pops i) p p' h =
    omega (arith, present-pop v i (get_elem? p.workers i) p.queue p p' refl refl h)
present-act v n (thread_finishes i) p p' h =
    omega (arith, present-finish v i (get_elem? p.workers i) p p' refl h)

pub run-cons :
    (n : ℕ) (a : Action) (actions : List Action) (p last : Pool)
    → run n (a ∷ actions) p ≡ some last
    → (p' : Pool) × (act n a p ≡ some p') × (run n actions p' ≡ some last)
unfolding run
run-cons n a actions p last h = elim (Option-cases (act n a p)) [
  | inl e ↦ absurd (ground (arith, e, h))
  | inr (p', e) ↦ (p', e, ground (arith, e, h))
]

-- In whatever order the threads and the owner run, each task stands as often in the queue, with a
-- thread or among the finished ones as it did before and was submitted.
pub present-run :
    (v n : ℕ) (actions : List Action) (p last : Pool)
    → run n actions p ≡ some last
    → present v last ≡ present v p + submitted v actions
unfolding submitted
present-run v n [] p last h = unfold run in ground (arith, h)
present-run v n (a ∷ actions) p last h =
    let (p', e, f) = run-cons n a actions p last h in
    omega (arith, present-act v n a p p' e, present-run v n actions p' last f)
