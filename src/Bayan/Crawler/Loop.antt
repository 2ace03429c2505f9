-- ===== src/Bayan/Crawler/Loop.antt =====
-- The loop of `Run` ends: each task is taken away, and only the reading of one more block adds tasks,
-- at most one for each block that is read.
use mathlib.Core.Path.{subst}
use native.Mathlib.Nat.{add-mul}
use cpp.Prelude.{
  ℕ, zero, suc, ◌+◌, ◌*◌, ◌≤◌, ◌<◌, ◌≡◌, ◌≢◌, ◌⊎◌, inl, inr, refl, ap, ◌∙◌, Bool, true, false,
  Bool-cases, ◌&&◌, some, List, [], ◌∷◌, arith, length, ◌==◌,
}
use cpp.Prelude.OrdMap.{find}
use cpp.Prelude.Result.{ok}
use cpp.Bayan.Storage.Maps.{has}
use cpp.Bayan.Crawler.{Task, Compute, Crawler, is_outdated, handle_task, handle_tasks}
use cpp.Bayan.Crawler.View.{IsView, length-reverse_aux}
use cpp.Bayan.Crawler.Advance.{advance-IsView, length_grows}
use cpp.Bayan.Crawler.Skip.{skip-IsView}
use cpp.Bayan.Crawler.Step.{view_of, has_task}
use cpp.Bayan.Crawler.Bounds.{Bounded}
use cpp.Bayan.Crawler.Moves.{task, before}
use cpp.Bayan.Crawler.Handle.{IsComputer, advance, handle_task-ignores}

abbrev pub sum_of : (ℕ → ℕ) → List ℕ → ℕ
sum_of a [] = 0
sum_of a (f ∷ files) = a f + sum_of a files

sum_of_mono :
    (a b : ℕ → ℕ) (files : List ℕ) → ((f : ℕ) → a f ≤ b f) → sum_of a files ≤ sum_of b files
sum_of_mono a b [] h = omega arith
sum_of_mono a b (f ∷ files) h = omega (arith, h f, sum_of_mono a b files h)

sum_of_less :
    (a b : ℕ → ℕ) (f : ℕ) (files : List ℕ)
    → ((g : ℕ) → a g ≤ b g)
    → a f < b f
    → has f files ≡ true
    → sum_of a files < sum_of b files
unfolding has
sum_of_less a b f [] h l e = cc
sum_of_less a b f (g ∷ files) h l e = elim (Bool-cases (f == g)) [
  | inl q ↦
      let same : f ≡ g = ground (arith, q) in
      omega (arith, ap a same, ap b same, l, sum_of_mono a b files h)
  | inr q ↦ omega (arith, h g, sum_of_less a b f files h l (ground (arith, e, q)))
]

module _ (signature : ℕ → List ℕ) (files : List ℕ) (compute : Compute)
    (law : IsComputer signature compute)
    (full : (g : ℕ) → has g files ≡ true → signature g ≢ []) where
  abbrev IsCrawl : Crawler → Type 0
  IsCrawl c = IsView signature (λ g. has g files) (view_of c)

  abbrev blocks_read : Crawler → ℕ
  blocks_read c = sum_of (λ f. length ((view_of c).place f)) files

  abbrev blocks : ℕ
  blocks = sum_of (λ f. length (signature f)) files

  read-le-blocks : (c : Crawler) → IsCrawl c → blocks_read c ≤ blocks
  read-le-blocks c i =
      sum_of_mono (λ f. length ((view_of c).place f)) (λ f. length (signature f)) files
        (λ f.
          let (rest, r, _) = i.reads f in
          omega (arith, ap length r, length-reverse_aux ((view_of c).place f) rest))

  other_kept :
      (id f k g : ℕ) (rest : List Task)
      → has_task k g (task id f ∷ rest) ≡ true
      → ((k ≡ id) × (g ≡ f)) ⊎ (has_task k g rest ≡ true)
  unfolding has_task
  other_kept id f k g rest h = elim (Bool-cases (k == id && g == f)) [
    | inl e ↦ inl (ground (arith, e), ground (arith, e))
    | inr e ↦ inr (ground (arith, e, h))
  ]

  fewer_left :
      (t : Task) (k g : ℕ) (rest : List Task)
      → has_task k g rest ≡ true
      → has_task k g (t ∷ rest) ≡ true
  unfolding has_task
  fewer_left t k g rest h = ground (arith, h)

  handle_tasks-cons :
      (fuel : ℕ) (t : Task) (rest : List Task) (c c' : Crawler)
      → handle_task compute t (record c { tasks = rest }) ≡ ok c'
      → handle_tasks compute (suc fuel) (t ∷ rest) c ≡ handle_tasks compute fuel c'.tasks c'
  unfolding handle_tasks
  handle_tasks-cons fuel t rest c c' e = ground (arith, e)

  abbrev Ends : ℕ → List Task → Crawler → Type 0
  Ends fuel tasks c =
      (last : Crawler) × (handle_tasks compute fuel tasks c ≡ ok (some last))
      × IsCrawl last
      × (last.tasks ≡ [])

  -- What one task leaves: fewer tasks, or one more block that is read.
  abbrev Handled : Task → List Task → Crawler → Crawler → Type 0
  Handled t rest c c' =
      (handle_task compute t (record c { tasks = rest }) ≡ ok c')
      × IsCrawl c'
      × Bounded (blocks_read c') c'
      × (((blocks_read c' ≡ blocks_read c) × (c'.tasks ≡ rest))
          ⊎ ((blocks_read c < blocks_read c') × (length c'.tasks ≤ length rest + blocks)))

  asked_first : (t : Task) (rest : List Task) → has_task t.block_id t.filename (t ∷ rest) ≡ true
  unfolding has_task
  asked_first t rest = ground arith

  handled_ignored :
      (t : Task) (c : Crawler)
      → IsCrawl (before t c)
      → Bounded (blocks_read c) c
      → is_outdated t.block_id (find t.filename c.file_read_state) ≡ true
      → Handled t c.tasks c c
  handled_ignored t c i b o = (
    handle_task-ignores compute t.block_id t.filename c o,
    skip-IsView signature (λ g. has g files) t.block_id t.filename (view_of (before t c))
        (view_of c).asks i o (λ k g h. fewer_left t k g c.tasks h)
        (λ k g h. other_kept t.block_id t.filename k g c.tasks h),
    b,
    inl (refl, refl),
  )

  handled_read :
      (t : Task) (c : Crawler)
      → IsCrawl (before t c)
      → Bounded (blocks_read c) c
      → is_outdated t.block_id (find t.filename c.file_read_state) ≡ false
      → (c' : Crawler) × Handled t c.tasks c c'
  handled_read t c i b o =
      let wanted : ℕ → Bool = λ g. has g files in
      let (y, left, c', (h, s, (b', n))) =
        advance signature wanted compute law full t.block_id t.filename c (blocks_read c) b i o in
      let f = t.filename in
      let p = (view_of c).place f in
      let w = i.meant t.block_id f (asked_first t c.tasks) in
      let j : IsCrawl c' =
        advance-IsView signature wanted f y p left (view_of (before t c)) (view_of c') i w s in
      let up : blocks_read c < blocks_read c' =
        sum_of_less (λ g. length ((view_of c).place g)) (λ g. length ((view_of c').place g)) f files
          (λ g.
            length_grows signature wanted f y p left (view_of (before t c)) (view_of c') i w s g)
          (omega (arith, ap length s.place_self)) w in
      (
        c',
        (
          h,
          j,
          λ m fs q. omega (arith, up, b' m fs q),
          inr (up, omega (arith, up, n, read-le-blocks c' j)),
        ),
      )

  handled :
      (t : Task) (c : Crawler)
      → IsCrawl (before t c)
      → Bounded (blocks_read c) c
      → (c' : Crawler) × Handled t c.tasks c c'
  handled t c i b = elim (Bool-cases (is_outdated t.block_id (find t.filename c.file_read_state))) [
    | inl o ↦ (c, handled_ignored t c i b o)
    | inr o ↦ handled_read t c i b o
  ]

  handle_tasks-nil : (fuel : ℕ) (c : Crawler) → handle_tasks compute (suc fuel) [] c ≡ ok (some c)
  unfolding handle_tasks
  handle_tasks-nil fuel c = refl

  less_left :
      (k : ℕ) (c c' : Crawler) (rest : List Task) (fuel : ℕ)
      → blocks ≤ blocks_read c + k
      → ((blocks_read c' ≡ blocks_read c) × (c'.tasks ≡ rest))
        ⊎ ((blocks_read c < blocks_read c') × (length c'.tasks ≤ length rest + blocks))
      → suc (length rest) + k * (blocks + 1) < suc fuel
      → blocks_read c' ≤ blocks
      → (k' : ℕ) × (blocks ≤ blocks_read c' + k') × (length c'.tasks + k' * (blocks + 1) < fuel)
  less_left k c c' rest fuel l (inl (e, n)) m r =
      (k, omega (arith, l, e), omega (arith, m, ap length n))
  less_left zero c c' rest fuel l (inr (u, n)) m r = absurd (omega (arith, l, u, r))
  less_left (suc k) c c' rest fuel l (inr (u, n)) m r =
      (k, omega (arith, l, u), omega (arith, m, n, add-mul k 1 (blocks + 1)))

  pub handle_tasks-Ends :
      (fuel k : ℕ) (tasks : List Task) (c : Crawler)
      → c.tasks ≡ tasks
      → IsCrawl c
      → Bounded (blocks_read c) c
      → blocks ≤ blocks_read c + k
      → length tasks + k * (blocks + 1) < fuel
      → Ends fuel tasks c
  handle_tasks-Ends zero k tasks c e i b l m = absurd (omega (arith, m))
  handle_tasks-Ends (suc fuel) k [] c e i b l m = (c, handle_tasks-nil fuel c, i, e)
  handle_tasks-Ends (suc fuel) k (t ∷ rest) c e i b l m =
      let at : IsCrawl (record c { tasks = t ∷ rest }) =
        subst (λ q. IsCrawl (record c { tasks = q })) e i in
      let (c', (h, j, b', s)) = handled t (record c { tasks = rest }) at b in
      let (k', d, n) = less_left k c c' rest fuel l s m (read-le-blocks c' j) in
      let (last, g, z, y) = handle_tasks-Ends fuel k' c'.tasks c' refl j b' d n in
      (last, handle_tasks-cons fuel t rest c c' h ∙ g, z, y)
