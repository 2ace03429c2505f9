-- ===== src/Bayan/Crawler/Store.antt =====
-- The loop keeps the order of the map of files, and registers no empty file.
use mathlib.Core.Path.{subst}
use cpp.Prelude.{
  ℕ, zero, suc, ◌≡◌, ap, Bool-cases, Option, some, Option-cases, List, [], ◌∷◌, arith, inl, inr,
}
use cpp.Prelude.OrdMap.{find, assign-Ascending}
use cpp.Prelude.Result.{ok, ◌>>=◌, >>=-eq-ok}
use cpp.Bayan.Storage.{Node, Storage, RegisterResult, trailing, register, register_below}
use cpp.Bayan.Storage.Groups.{IsStore}
use cpp.Bayan.Crawler.Step.{after}
use cpp.Bayan.Crawler.{Task, Compute, Crawler, is_outdated, handle_task, handle_tasks}

register_below-IsStore :
    (p : Node) (f id y : ℕ) (s : Storage) → IsStore s → IsStore (register_below p f id y s).0
unfolding register_below
register_below-IsStore p f id y s (a, e) = elim (Option-cases (trailing (y ∷ p) s.nodes)) [
  | inl n ↦ (ground (arith, n, assign-Ascending f (y ∷ p) s.filenames a), ground (arith, n, e))
  | inr (files, n) ↦
      (ground (arith, n, assign-Ascending f (y ∷ p) s.filenames a), ground (arith, n, e))
]

register-IsStore :
    (f id y : ℕ) (s s' : Storage) (result : Option RegisterResult)
    → IsStore s
    → register f id y s ≡ ok (s', result)
    → IsStore s'
unfolding register
register-IsStore f id y s s' result i h = elim (Option-cases (find f s.filenames)) [
  | inl n ↦
      let q : register_below [] f id y s ≡ (s', result) = ground (arith, n, h) in
      subst IsStore (ap (λ r. r.0) q) (register_below-IsStore [] f id y s i)
  | inr (p, n) ↦
      let q : register_below p f id y s ≡ (s', result) = ground (arith, n, h) in
      subst IsStore (ap (λ r. r.0) q) (register_below-IsStore p f id y s i)
]

read_task-IsStore :
    (compute : Compute) (t : Task) (c c' : Crawler)
    → IsStore c.storage
    → (compute t.filename t.block_id >>= λ r.
        register t.filename t.block_id r.0 c.storage >>= λ q. ok (after t.filename r.1 c q))
      ≡ ok c'
    → IsStore c'.storage
read_task-IsStore compute t c c' i h =
    let (r, _, g) =
      >>=-eq-ok (compute t.filename t.block_id)
        (λ r. register t.filename t.block_id r.0 c.storage >>= λ q. ok (after t.filename r.1 c q))
        h in
    let (q, e, k) =
      >>=-eq-ok (register t.filename t.block_id r.0 c.storage) (λ q. ok (after t.filename r.1 c q))
        g in
    let m : after t.filename r.1 c q ≡ c' = ground (arith, k) in
    subst (λ d. IsStore d.storage) m
      (register-IsStore t.filename t.block_id r.0 c.storage q.0 q.1 i e)

handle_task-IsStore :
    (compute : Compute) (t : Task) (c c' : Crawler)
    → IsStore c.storage
    → handle_task compute t c ≡ ok c'
    → IsStore c'.storage
unfolding handle_task
handle_task-IsStore compute t c c' i h =
    elim (Bool-cases (is_outdated t.block_id (find t.filename c.file_read_state))) [
      | inl o ↦ let q : c ≡ c' = ground (arith, o, h) in subst (λ d. IsStore d.storage) q i
      | inr o ↦ read_task-IsStore compute t c c' i (ground (arith, o, h))
    ]

pub handle_tasks-IsStore :
    (compute : Compute) (fuel : ℕ) (tasks : List Task) (c last : Crawler)
    → IsStore c.storage
    → handle_tasks compute fuel tasks c ≡ ok (some last)
    → IsStore last.storage
unfolding handle_tasks
handle_tasks-IsStore compute zero tasks c last i h = absurd (ground (arith, h))
handle_tasks-IsStore compute (suc fuel) [] c last i h =
    let q : c ≡ last = ground (arith, h) in subst (λ d. IsStore d.storage) q i
handle_tasks-IsStore compute (suc fuel) (t ∷ rest) c last i h =
    let (c', e, g) =
      >>=-eq-ok (handle_task compute t (record c { tasks = rest }))
        (λ d. handle_tasks compute fuel d.tasks d) h in
    handle_tasks-IsStore compute fuel c'.tasks c' last
      (handle_task-IsStore compute t (record c { tasks = rest }) c' i e) g
