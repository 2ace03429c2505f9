-- ===== src/ThreadPool/Wakeups/Kept.antt =====
-- Every step keeps enough threads awake for the tasks of the queue.
use mathlib.Core.Path.{subst}
use cpp.Prelude.{
  ℕ, zero, suc, ◌≤◌, ◌≡◌, refl, ap, sym, inl, inr, Bool, true, false, Option, none, some,
  Option-cases, List, [], ◌∷◌, arith, get_elem?, set, length, length-append,
}
use cpp.ThreadPool.{
  Task, execute, terminate, Worker, waiting, running, stopped, started, Phase, serving, stopping,
  Pool, enqueue, destroy, push_termination, pop, finish, Action, owner_enqueues, owner_destroys,
  owner_pushes, thread_pops, thread_finishes, act,
}
use cpp.ThreadPool.Invariant.{IsPool, create-IsPool, act-IsPool}
use cpp.ThreadPool.Wakeups.{
  Waits, begin, some_asleep, notify_one, notified, with_pool, fall_asleep, pop_awake, Step,
  enqueues, destroys, pushes, pops, finishes, sleeps, step, run_steps,
}
use cpp.ThreadPool.Wakeups.Awake.{
  is_waiting, awake, AreFlags, AreFlags-replicate, replicate-awake, set-AreFlags, awake-set, woken,
  sleep-AreFlags, busy-awake,
}

-- While some thread sleeps, there are as many threads awake that wait as there are tasks in the queue.
pub record IsWaits (n : ℕ) (w : Waits) : Type 0 where
  pub pool : IsPool n w.pool
  pub flags : AreFlags w.pool.workers w.asleep
  pub enough : some_asleep w.asleep ≡ true → length w.pool.queue ≤ awake w.pool.workers w.asleep

pub begin-IsWaits : (n : ℕ) → IsWaits n (begin n)
begin-IsWaits n = record {
  pool = create-IsPool n;
  flags = AreFlags-replicate n;
  enough = λ h. absurd (ground (arith, h, replicate-awake n));
}

-- A push with its wakeup.
notify-IsWaits :
    (n i : ℕ) (w w' : Waits) (p : Pool) (b : Bool) (o : Option Bool)
    → IsWaits n w
    → IsPool n p
    → p.workers ≡ w.pool.workers
    → length p.queue ≡ suc (length w.pool.queue)
    → some_asleep w.asleep ≡ b
    → get_elem? w.asleep i ≡ o
    → (elim (notify_one i b o w.asleep) [
      | none ↦ none
      | some asleep ↦ some (record { pool = p; asleep = asleep })
    ])
      ≡ some w'
    → IsWaits n w'
unfolding notify_one
notify-IsWaits n i w w' p true none v q e l s g h = cc
notify-IsWaits n i w w' p true (some false) v q e l s g h = cc
notify-IsWaits n i w w' p true (some true) v q e l s g h =
    let (a, k) = woken i w.pool.workers w.asleep g v.flags in
    let x : Waits = record { pool = p; asleep = set w.asleep i false } in
    let j : x ≡ w' = ground (arith, h) in
    subst (IsWaits n) j (record {
      pool = q;
      flags = subst (λ ws. AreFlags ws (set w.asleep i false)) (sym e) a;
      enough = λ _. omega (arith, v.enough s, k, l, ap (λ ws. awake ws (set w.asleep i false)) e);
    })
notify-IsWaits n i w w' p false o v q e l s g h =
    let x : Waits = record { pool = p; asleep = w.asleep } in
    let j : x ≡ w' = ground (arith, h) in
    subst (IsWaits n) j (record {
      pool = q;
      flags = subst (λ ws. AreFlags ws w.asleep) (sym e) v.flags;
      enough = λ t. absurd (ground (arith, s, t));
    })

notified-IsWaits :
    (n i : ℕ) (w w' : Waits) (p : Pool)
    → IsWaits n w
    → IsPool n p
    → p.workers ≡ w.pool.workers
    → length p.queue ≡ suc (length w.pool.queue)
    → notified i (some p) w.asleep ≡ some w'
    → IsWaits n w'
unfolding notified
notified-IsWaits n i w w' p v q e l h =
    notify-IsWaits n i w w' p (some_asleep w.asleep) (get_elem? w.asleep i) v q e l refl refl h

enqueue-queue :
    (id : ℕ) (f : Phase) (p p' : Pool)
    → enqueue id f p ≡ some p'
    → (p'.workers ≡ p.workers) × (length p'.queue ≡ suc (length p.queue))
unfolding enqueue
enqueue-queue id serving p p' h =
    (ground (arith, h), ground (arith, h, length-append p.queue (execute id ∷ [])))
enqueue-queue id (stopping k) p p' h = cc

push-queue :
    (f : Phase) (p p' : Pool)
    → push_termination f p ≡ some p'
    → (p'.workers ≡ p.workers) × (length p'.queue ≡ suc (length p.queue))
unfolding push_termination
push-queue serving p p' h = cc
push-queue (stopping zero) p p' h = cc
push-queue (stopping (suc k)) p p' h =
    (ground (arith, h), ground (arith, h, length-append p.queue (terminate ∷ [])))

destroy-queue :
    (f : Phase) (n : ℕ) (p p' : Pool)
    → destroy f n p ≡ some p'
    → (p'.workers ≡ p.workers) × (p'.queue ≡ p.queue)
unfolding destroy
destroy-queue serving n p p' h = (ground (arith, h), ground (arith, h))
destroy-queue (stopping k) n p p' h = cc

pop-queue :
    (i : ℕ) (v : Option Worker) (q : List Task) (p p' : Pool)
    → pop i v q p ≡ some p'
    → (v ≡ some waiting)
      × ((t : Task) × (p'.workers ≡ set p.workers i (started t)) × (q ≡ t ∷ p'.queue))
unfolding pop
pop-queue i none q p p' h = cc
pop-queue i (some waiting) [] p p' h = cc
pop-queue i (some waiting) (t ∷ q) p p' h = (refl, (t, ground (arith, h), ground (arith, h)))
pop-queue i (some (running id)) q p p' h = cc
pop-queue i (some stopped) q p p' h = cc

finish-queue :
    (i : ℕ) (v : Option Worker) (p p' : Pool)
    → finish i v p ≡ some p'
    → (id : ℕ) × (v ≡ some (running id))
      × (p'.workers ≡ set p.workers i waiting)
      × (p'.queue ≡ p.queue)
unfolding finish
finish-queue i none p p' h = cc
finish-queue i (some waiting) p p' h = cc
finish-queue i (some (running id)) p p' h = (id, refl, ground (arith, h), ground (arith, h))
finish-queue i (some stopped) p p' h = cc

moved-IsWaits :
    (n : ℕ) (w w' : Waits) (p : Pool)
    → IsPool n p
    → AreFlags p.workers w.asleep
    → (some_asleep w.asleep ≡ true → length p.queue ≤ awake p.workers w.asleep)
    → with_pool (some p) w.asleep ≡ some w'
    → IsWaits n w'
moved-IsWaits n w w' p q a b h =
    let x : Waits = record { pool = p; asleep = w.asleep } in
    let j : x ≡ w' = ground (arith, h) in
    subst (IsWaits n) j (record { pool = q; flags = a; enough = b })

started_busy : (t : Task) → is_waiting (started t) ≡ 0
started_busy (execute id) = refl
started_busy terminate = refl

enqueues-IsWaits :
    (n i : ℕ) (a : Action) (w w' : Waits)
    → ((p : Pool)
        → act n a w.pool ≡ some p
        → (p.workers ≡ w.pool.workers) × (length p.queue ≡ suc (length w.pool.queue)))
    → IsWaits n w
    → notified i (act n a w.pool) w.asleep ≡ some w'
    → IsWaits n w'
enqueues-IsWaits n i a w w' m v h = elim (Option-cases (act n a w.pool)) [
  | inl e ↦ absurd (unfold notified in ground (arith, e, h))
  | inr (p, e) ↦
      let (k, l) = m p e in
      notified-IsWaits n i w w' p v (act-IsPool n a w.pool p v.pool e) k l
        (subst (λ o. notified i o w.asleep ≡ some w') e h)
]

destroys-IsWaits :
    (n : ℕ) (w w' : Waits)
    → IsWaits n w
    → with_pool (act n owner_destroys w.pool) w.asleep ≡ some w'
    → IsWaits n w'
destroys-IsWaits n w w' v h = elim (Option-cases (act n owner_destroys w.pool)) [
  | inl e ↦ absurd (ground (arith, e, h))
  | inr (p, e) ↦
      let (k, l) = destroy-queue w.pool.phase n w.pool p (unfold act in e) in
      moved-IsWaits n w w' p (act-IsPool n owner_destroys w.pool p v.pool e)
        (subst (λ ws. AreFlags ws w.asleep) (sym k) v.flags)
        (λ s. omega (arith, v.enough s, ap (λ ws. awake ws w.asleep) k, ap length l))
        (subst (λ o. with_pool o w.asleep ≡ some w') e h)
]

pops-IsWaits :
    (n i : ℕ) (b : Option Bool) (w w' : Waits)
    → IsWaits n w
    → get_elem? w.asleep i ≡ b
    → pop_awake n i b w ≡ some w'
    → IsWaits n w'
unfolding pop_awake
pops-IsWaits n i none w w' v f h = cc
pops-IsWaits n i (some true) w w' v f h = cc
pops-IsWaits n i (some false) w w' v f h = elim (Option-cases (act n (thread_pops i) w.pool)) [
  | inl e ↦ absurd (ground (arith, e, h))
  | inr (p, e) ↦
      let (k, (t, l, m)) =
        pop-queue i (get_elem? w.pool.workers i) w.pool.queue w.pool p (unfold act in e) in
      let c = awake-set i waiting (started t) w.pool.workers w.asleep k f in
      moved-IsWaits n w w' p (act-IsPool n (thread_pops i) w.pool p v.pool e)
        (subst (λ ws. AreFlags ws w.asleep) (sym l)
          (set-AreFlags i (started t) w.pool.workers w.asleep f v.flags))
        (λ s.
          omega (arith, v.enough s, ap (λ ws. awake ws w.asleep) l, ap length m, c, started_busy t))
        (subst (λ o. with_pool o w.asleep ≡ some w') e h)
]

finishes-IsWaits :
    (n i : ℕ) (w w' : Waits)
    → IsWaits n w
    → with_pool (act n (thread_finishes i) w.pool) w.asleep ≡ some w'
    → IsWaits n w'
finishes-IsWaits n i w w' v h = elim (Option-cases (act n (thread_finishes i) w.pool)) [
  | inl e ↦ absurd (ground (arith, e, h))
  | inr (p, e) ↦
      let (id, k, l, m) = finish-queue i (get_elem? w.pool.workers i) w.pool p (unfold act in e) in
      let f = busy-awake i (running id) w.pool.workers w.asleep k refl v.flags in
      let c = awake-set i (running id) waiting w.pool.workers w.asleep k f in
      moved-IsWaits n w w' p (act-IsPool n (thread_finishes i) w.pool p v.pool e)
        (subst (λ ws. AreFlags ws w.asleep) (sym l)
          (set-AreFlags i waiting w.pool.workers w.asleep f v.flags))
        (λ s. omega (arith, v.enough s, ap (λ ws. awake ws w.asleep) l, ap length m, c))
        (subst (λ o. with_pool o w.asleep ≡ some w') e h)
]

sleeps-IsWaits :
    (n i : ℕ) (v : Option Worker) (b : Option Bool) (q : List Task) (w w' : Waits)
    → IsWaits n w
    → get_elem? w.pool.workers i ≡ v
    → get_elem? w.asleep i ≡ b
    → w.pool.queue ≡ q
    → fall_asleep i v b q w ≡ some w'
    → IsWaits n w'
unfolding fall_asleep
sleeps-IsWaits n i (some waiting) (some false) [] w w' x e f g h =
    let y : Waits = record w { asleep = set w.asleep i true } in
    let j : y ≡ w' = ground (arith, h) in
    subst (IsWaits n) j (record {
      pool = x.pool;
      flags = sleep-AreFlags i w.pool.workers w.asleep e f x.flags;
      enough = λ _. omega (arith, ap length g);
    })
sleeps-IsWaits n i none b q w w' x e f g h = cc
sleeps-IsWaits n i (some (running id)) b q w w' x e f g h = cc
sleeps-IsWaits n i (some stopped) b q w w' x e f g h = cc
sleeps-IsWaits n i (some waiting) none q w w' x e f g h = cc
sleeps-IsWaits n i (some waiting) (some true) q w w' x e f g h = cc
sleeps-IsWaits n i (some waiting) (some false) (t ∷ q) w w' x e f g h = cc

pub step-IsWaits :
    (n : ℕ) (s : Step) (w w' : Waits) → IsWaits n w → step n s w ≡ some w' → IsWaits n w'
unfolding step
step-IsWaits n (enqueues i id) w w' v h =
    enqueues-IsWaits n i (owner_enqueues id) w w'
      (λ p e. enqueue-queue id w.pool.phase w.pool p (unfold act in e)) v h
step-IsWaits n destroys w w' v h = destroys-IsWaits n w w' v h
step-IsWaits n (pushes i) w w' v h =
    enqueues-IsWaits n i owner_pushes w w'
      (λ p e. push-queue w.pool.phase w.pool p (unfold act in e)) v h
step-IsWaits n (pops i) w w' v h = pops-IsWaits n i (get_elem? w.asleep i) w w' v refl h
step-IsWaits n (finishes i) w w' v h = finishes-IsWaits n i w w' v h
step-IsWaits n (sleeps i) w w' v h =
    sleeps-IsWaits n i (get_elem? w.pool.workers i) (get_elem? w.asleep i) w.pool.queue w w' v refl
      refl refl h

pub run_steps-IsWaits :
    (n : ℕ) (steps : List Step) (w last : Waits)
    → IsWaits n w
    → run_steps n steps w ≡ some last
    → IsWaits n last
unfolding run_steps
run_steps-IsWaits n [] w last v h = let j : w ≡ last = ground (arith, h) in subst (IsWaits n) j v
run_steps-IsWaits n (s ∷ steps) w last v h = elim (Option-cases (step n s w)) [
  | inl e ↦ absurd (ground (arith, e, h))
  | inr (w', e) ↦
      run_steps-IsWaits n steps w' last (step-IsWaits n s w w' v e) (ground (arith, e, h))
]
