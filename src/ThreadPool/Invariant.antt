-- ===== src/ThreadPool/Invariant.antt =====
-- What holds in every reachable state of the pool.
use mathlib.Core.Path.{subst}
use cpp.Prelude.{
  ℕ, zero, suc, ◌+◌, ◌<◌, ◌≡◌, refl, ◌∙◌, Option, none, some, List, [], ◌∷◌, ◌++◌, arith, get_elem?,
  length, length-set, length-replicate,
}
use cpp.ThreadPool.{
  Task, execute, terminate, Worker, waiting, running, stopped, Phase, serving, stopping, Pool,
  create, enqueue, destroy, push_termination, pop, finish, Action, owner_enqueues, owner_destroys,
  owner_pushes, thread_pops, thread_finishes, act, run,
}
use cpp.ThreadPool.Counts.{total, total-set, total-replicate}
use cpp.ThreadPool.Tasks.{run-cons}

unfoldable pub executes : List Task → ℕ
executes [] = 0
executes (execute id ∷ q) = 1 + executes q
executes (terminate ∷ q) = executes q

unfoldable pub terminations : List Task → ℕ
terminations [] = 0
terminations (execute id ∷ q) = terminations q
terminations (terminate ∷ q) = 1 + terminations q

-- No task stands behind a termination.
abbrev pub InOrder : List Task → Type 0
InOrder [] = Unit
InOrder (execute id ∷ q) = InOrder q
InOrder (terminate ∷ q) = executes q ≡ 0

abbrev pub is_stopped : Worker → ℕ
is_stopped stopped = 1
is_stopped _ = 0

-- The terminations that are still to be pushed.
abbrev pub remaining : ℕ → Phase → ℕ
remaining n serving = n
remaining n (stopping k) = k

pub record IsPool (n : ℕ) (p : Pool) : Type 0 where
  pub in_order : InOrder p.queue
  pub each_stops : terminations p.queue + total is_stopped p.workers + remaining n p.phase ≡ n
  pub drained : 0 < total is_stopped p.workers → executes p.queue ≡ 0
  pub threads : length p.workers ≡ n

pub create-IsPool : (n : ℕ) → IsPool n (create n)
unfolding terminations executes
create-IsPool n = record {
  in_order = tt;
  each_stops = omega (arith, total-replicate is_stopped n refl);
  drained = λ _. refl;
  threads = length-replicate n waiting;
}

executes-append : (xs ys : List Task) → executes (xs ++ ys) ≡ executes xs + executes ys
unfolding executes
executes-append [] ys = omega arith
executes-append (execute id ∷ xs) ys = omega (arith, executes-append xs ys)
executes-append (terminate ∷ xs) ys = executes-append xs ys

terminations-append :
    (xs ys : List Task) → terminations (xs ++ ys) ≡ terminations xs + terminations ys
unfolding terminations
terminations-append [] ys = omega arith
terminations-append (execute id ∷ xs) ys = terminations-append xs ys
terminations-append (terminate ∷ xs) ys = omega (arith, terminations-append xs ys)

InOrder-execute : (id : ℕ) (q : List Task) → terminations q ≡ 0 → InOrder (q ++ execute id ∷ [])
unfolding terminations
InOrder-execute id [] h = tt
InOrder-execute id (execute j ∷ q) h = InOrder-execute id q h
InOrder-execute id (terminate ∷ q) h = absurd (omega arith)

InOrder-terminate : (q : List Task) → InOrder q → InOrder (q ++ terminate ∷ [])
unfolding executes
InOrder-terminate [] h = refl
InOrder-terminate (execute j ∷ q) h = InOrder-terminate q h
InOrder-terminate (terminate ∷ q) h = omega (arith, h, executes-append q (terminate ∷ []))

some_injective : {p q : Pool} → some p ≡ some q → p ≡ q
some_injective h = cc

enqueue-IsPool :
    (n id : ℕ) (f : Phase) (p p' : Pool)
    → p.phase ≡ f
    → IsPool n p
    → enqueue id f p ≡ some p'
    → IsPool n p'
unfolding enqueue terminations executes
enqueue-IsPool n id serving p p' e i h =
    let none_stop : terminations p.queue + total is_stopped p.workers ≡ 0 =
      ground (arith, e, i.each_stops) in
    subst (IsPool n) (some_injective h) (record {
      in_order = InOrder-execute id p.queue (omega (arith, none_stop));
      each_stops = omega (arith, terminations-append p.queue (execute id ∷ []), i.each_stops);
      drained = λ l. absurd (omega (arith, l, none_stop));
      threads = i.threads;
    })
enqueue-IsPool n id (stopping k) p p' e i h = cc

destroy-IsPool :
    (n : ℕ) (f : Phase) (p p' : Pool)
    → p.phase ≡ f
    → IsPool n p
    → destroy f n p ≡ some p'
    → IsPool n p'
unfolding destroy
destroy-IsPool n serving p p' e i h = subst (IsPool n) (some_injective h) (record {
  in_order = i.in_order;
  each_stops = ground (arith, e, i.each_stops);
  drained = i.drained;
  threads = i.threads;
})
destroy-IsPool n (stopping k) p p' e i h = cc

push-IsPool :
    (n : ℕ) (f : Phase) (p p' : Pool)
    → p.phase ≡ f
    → IsPool n p
    → push_termination f p ≡ some p'
    → IsPool n p'
unfolding push_termination terminations executes
push-IsPool n serving p p' e i h = cc
push-IsPool n (stopping zero) p p' e i h = cc
push-IsPool n (stopping (suc k)) p p' e i h = subst (IsPool n) (some_injective h) (record {
  in_order = InOrder-terminate p.queue i.in_order;
  each_stops = ground (arith, e, i.each_stops, terminations-append p.queue (terminate ∷ []));
  drained = λ l. omega (arith, i.drained l, executes-append p.queue (terminate ∷ []));
  threads = i.threads;
})

InOrder-of_drained : (q : List Task) → executes q ≡ 0 → InOrder q
unfolding executes
InOrder-of_drained [] h = tt
InOrder-of_drained (execute j ∷ q) h = absurd (omega arith)
InOrder-of_drained (terminate ∷ q) h = h

pop-IsPool :
    (n i : ℕ) (w : Option Worker) (q : List Task) (p p' : Pool)
    → get_elem? p.workers i ≡ w
    → p.queue ≡ q
    → IsPool n p
    → pop i w q p ≡ some p'
    → IsPool n p'
unfolding pop terminations executes
pop-IsPool n i none q p p' e f v h = cc
pop-IsPool n i (some waiting) [] p p' e f v h = cc
pop-IsPool n i (some waiting) (execute id ∷ q) p p' e f v h =
    let s = total-set is_stopped p.workers i waiting (running id) e in
    subst (IsPool n) (some_injective h) (record {
      in_order = subst InOrder f v.in_order;
      each_stops = ground (arith, f, s, v.each_stops);
      drained = λ l. absurd (ground (arith, f, s, l, v.drained (omega (arith, s, l))));
      threads = length-set p.workers i (running id) ∙ v.threads;
    })
pop-IsPool n i (some waiting) (terminate ∷ q) p p' e f v h =
    let s = total-set is_stopped p.workers i waiting stopped e in
    let o : executes q ≡ 0 = subst InOrder f v.in_order in
    subst (IsPool n) (some_injective h) (record {
      in_order = InOrder-of_drained q o;
      each_stops = ground (arith, f, s, v.each_stops);
      drained = λ l. o;
      threads = length-set p.workers i stopped ∙ v.threads;
    })
pop-IsPool n i (some (running id)) q p p' e f v h = cc
pop-IsPool n i (some stopped) q p p' e f v h = cc

finish-IsPool :
    (n i : ℕ) (w : Option Worker) (p p' : Pool)
    → get_elem? p.workers i ≡ w
    → IsPool n p
    → finish i w p ≡ some p'
    → IsPool n p'
unfolding finish
finish-IsPool n i none p p' e v h = cc
finish-IsPool n i (some waiting) p p' e v h = cc
finish-IsPool n i (some (running id)) p p' e v h =
    let s = total-set is_stopped p.workers i (running id) waiting e in
    subst (IsPool n) (some_injective h) (record {
      in_order = v.in_order;
      each_stops = omega (arith, s, v.each_stops);
      drained = λ l. v.drained (omega (arith, s, l));
      threads = length-set p.workers i waiting ∙ v.threads;
    })
finish-IsPool n i (some stopped) p p' e v h = cc

pub act-IsPool : (n : ℕ) (a : Action) (p p' : Pool) → IsPool n p → act n a p ≡ some p' → IsPool n p'
unfolding act
act-IsPool n (owner_enqueues id) p p' i h = enqueue-IsPool n id p.phase p p' refl i h
act-IsPool n owner_destroys p p' i h = destroy-IsPool n p.phase p p' refl i h
act-IsPool n owner_pushes p p' i h = push-IsPool n p.phase p p' refl i h
act-IsPool n (thread_pops t) p p' i h =
    pop-IsPool n t (get_elem? p.workers t) p.queue p p' refl refl i h
act-IsPool n (thread_finishes t) p p' i h = finish-IsPool n t (get_elem? p.workers t) p p' refl i h

pub run-IsPool :
    (n : ℕ) (actions : List Action) (p last : Pool)
    → IsPool n p
    → run n actions p ≡ some last
    → IsPool n last
run-IsPool n [] p last i h = unfold run in subst (IsPool n) (some_injective h) i
run-IsPool n (a ∷ actions) p last i h =
    let (p', e, f) = run-cons n a actions p last h in
    run-IsPool n actions p' last (act-IsPool n a p p' i e) f
