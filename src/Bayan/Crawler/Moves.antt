-- ===== src/Bayan/Crawler/Moves.antt =====
-- The two cases of `Register` as the step of a file to its next node.
use mathlib.Core.List.{reverse_aux}
use native.Mathlib.Decide.{ℕ_discrete}
use cpp.Prelude.{
  ℕ, suc, ◌+◌, ◌≡◌, ◌≢◌, ◌⊎◌, inl, inr, refl, ap, ◌∙◌, true, false, Bool-cases, ◌&&◌, ◌||◌, none,
  some, List, [], ◌∷◌, ◌++◌, arith, length, ◌==◌,
}
use cpp.Prelude.OrdMap.{OrdMap, find, assign, find-assign}
use cpp.Bayan.Storage.{Node, trailing, emplace, erase_file}
use cpp.Bayan.Storage.Maps.{
  node_cases, has_self, not_erased, erased-has, has, has-emplace, has-erase_file,
}
use cpp.Bayan.Crawler.{Task, Crawler, tasks_of}
use cpp.Bayan.Crawler.View.{state_of, Holds}
use cpp.Bayan.Crawler.Advance.{IsAdvance}
use cpp.Bayan.Crawler.Step

abbrev pub task : ℕ → ℕ → Task
task id f = record { block_id = id; filename = f }

abbrev pub before : Task → Crawler → Crawler
before t c = record c { tasks = t ∷ c.tasks }

module _ (signature : ℕ → List ℕ) (c : Crawler) (f y : ℕ) (p : Node) (left : List ℕ)
    (at : Step.place_of (find f c.storage.filenames) ≡ p)
    (read : reverse_aux p (y ∷ left) ≡ signature f) where
  abbrev after_new : Crawler
  after_new = Step.after f (Step.next_of p left) c (Step.new_node f y p c.storage, none)

  assigned :
      (g : ℕ) (m : OrdMap Node)
      → g ≢ f
      → Step.place_of (find g (assign f (y ∷ p) m)) ≡ Step.place_of (find g m)
  assigned g m n = ground (arith, find-assign g f (y ∷ p) m)

  assigned_self : (m : OrdMap Node) → Step.place_of (find f (assign f (y ∷ p) m)) ≡ y ∷ p
  assigned_self m = ground (arith, find-assign f f (y ∷ p) m)

  state_after : find f (assign f (Step.next_of p left) c.file_read_state) ≡ state_of (y ∷ p) left
  state_after =
      ground (
        arith,
        find-assign f f (Step.next_of p left) c.file_read_state,
        Step.state_of-next y p left,
      )

  state_before :
      (g : ℕ)
      → g ≢ f
      → find g (assign f (Step.next_of p left) c.file_read_state) ≡ find g c.file_read_state
  state_before g n = ground (arith, find-assign g f (Step.next_of p left) c.file_read_state)

  kept_after :
      (k g : ℕ) (new : List Task)
      → g ≢ f
      → Step.has_task k g (task (length p) f ∷ c.tasks) ≡ true
      → Step.has_task k g (c.tasks ++ new) ≡ true
  unfolding Step.has_task
  kept_after k g new n h = ground (arith, Step.has_task-append k g c.tasks new)

  none_asked : (k g : ℕ) → Step.has_task k g [] ≡ false
  unfolding Step.has_task
  none_asked k g = refl

  still_asked :
      (k g : ℕ) (new : List Task)
      → Step.has_task k g (c.tasks ++ new) ≡ true
      → Step.has_task k g new ≡ false
      → Step.has_task k g (task (length p) f ∷ c.tasks) ≡ true
  unfolding Step.has_task
  still_asked k g new h e = ground (arith, h, e, Step.has_task-append k g c.tasks new)

  new-Holds :
      (n : Node) (g : ℕ)
      → trailing (y ∷ p) c.storage.nodes ≡ none
      → g ≢ f
      → Holds (Step.view_of c) n g
      → Holds (Step.view_of after_new) n g
  new-Holds n g e d (files, m, h) = elim (node_cases n (y ∷ p)) [
    | inl q ↦ absurd (ground (arith, q, e, m))
    | inr q ↦ elim (node_cases n p) [
      | inl r ↦ (
        erase_file f files,
        ground (arith, r, m, Step.new_members_parent c f y p),
        ground (arith, h, d, has-erase_file g f files),
      )
      | inr r ↦ (files, ground (arith, m, Step.new_members_other c f y p n q r), h)
    ]
  ]

  new_grows :
      (n : Node)
      → trailing n c.storage.nodes ≢ none
      → trailing n (Step.new_node f y p c.storage).nodes ≢ none
  new_grows n h = elim (node_cases n (y ∷ p)) [
    | inl q ↦ λ z. ground (arith, q, z, Step.new_members_self c f y p)
    | inr q ↦ elim (node_cases n p) [
      | inl r ↦ λ z. h (
          not_erased f (trailing n c.storage.nodes)
            (ground (arith, r, z, Step.new_members_parent c f y p)))
      | inr r ↦ λ z. h (ground (arith, z, Step.new_members_other c f y p n q r))
    ]
  ]

  new_from :
      (n : Node) (g : ℕ)
      → Holds (Step.view_of after_new) n g
      → ((n ≡ y ∷ p) × (g ≡ f)) ⊎ Holds (Step.view_of c) n g
  unfolding has
  new_from n g (files, m, h) = elim (node_cases n (y ∷ p)) [
    | inl q ↦ inl (q, ground (arith, q, m, h, Step.new_members_self c f y p))
    | inr q ↦ elim (node_cases n p) [
      | inl r ↦ inr (
          erased-has n f g files (trailing n c.storage.nodes) (trailing n c.storage.nodes) refl
            (ground (arith, r, m, Step.new_members_parent c f y p)) h)
      | inr r ↦ inr (files, ground (arith, m, Step.new_members_other c f y p n q r), h)
    ]
  ]

  pub new-IsAdvance :
      trailing (y ∷ p) c.storage.nodes ≡ none
      → IsAdvance signature f y p left (Step.view_of (before (task (length p) f) c)) (
          Step.view_of (Step.after f (Step.next_of p left) c (Step.new_node f y p c.storage, none)))
  new-IsAdvance e = record {
    at = at;
    read = read;
    place_self = assigned_self c.storage.filenames;
    place_other = λ g n. assigned g c.storage.filenames n;
    state_self = state_after;
    state_other = state_before;
    holds_self = (f ∷ [], Step.new_members_self c f y p, has_self f []);
    holds_other = λ n g d h. new-Holds n g e d h;
    grows = new_grows;
    holds_from = new_from;
    kept = λ k g n h. kept_after k g [] n h;
    asks_others = λ g (files, m, h). absurd (ground (arith, m, e));
    asks_self = λ h. absurd (h e);
    asks_from = λ k g h. inl (still_asked k g [] h (none_asked k g));
  }

  abbrev after_old : List ℕ → Crawler
  after_old files =
      Step.after f (Step.next_of p left) c
        (Step.old_node f y p files c.storage, Step.request f (length p) files)

  old-Holds :
      (n : Node) (g : ℕ) (old : List ℕ)
      → trailing (y ∷ p) c.storage.nodes ≡ some old
      → Holds (Step.view_of c) n g
      → Holds (Step.view_of (after_old old)) n g
  old-Holds n g old e (files, m, h) = elim (node_cases n (y ∷ p)) [
    | inl q ↦ (
      emplace f old,
      ground (arith, q, Step.old_members_self c f y p old),
      ground (arith, h, has-emplace g f old, q, e, m),
    )
    | inr q ↦ (files, ground (arith, m, Step.old_members_other c f y p old n q), h)
  ]

  old_grows :
      (n : Node) (old : List ℕ)
      → trailing n c.storage.nodes ≢ none
      → trailing n (Step.old_node f y p old c.storage).nodes ≢ none
  old_grows n old h = elim (node_cases n (y ∷ p)) [
    | inl q ↦ λ z. ground (arith, q, z, Step.old_members_self c f y p old)
    | inr q ↦ λ z. h (ground (arith, z, Step.old_members_other c f y p old n q))
  ]

  old_from :
      (n : Node) (g : ℕ) (old : List ℕ)
      → trailing (y ∷ p) c.storage.nodes ≡ some old
      → Holds (Step.view_of (after_old old)) n g
      → ((n ≡ y ∷ p) × (g ≡ f)) ⊎ Holds (Step.view_of c) n g
  old_from n g old e (files, m, h) = elim (node_cases n (y ∷ p)) [
    | inl q ↦
        let k : has g (emplace f old) ≡ true =
          ground (arith, q, m, h, Step.old_members_self c f y p old) in
        elim (ℕ_discrete g f) [
          | yes d ↦ inl (q, d)
          | no d ↦ inr (
            old,
            ap (λ t. trailing t c.storage.nodes) q ∙ e,
            ground (arith, d, k, has-emplace g f old),
          )
        ]
    | inr q ↦ inr (files, ground (arith, m, Step.old_members_other c f y p old n q), h)
  ]

  asked_next :
      (k g : ℕ) (old : List ℕ)
      → Step.has_task k g (after_old old).tasks
        ≡ (Step.has_task k g c.tasks || (k == length p + 1 && (g == f || has g old)))
  asked_next k g old = ground (
    arith,
    Step.has_task-append k g c.tasks (tasks_of (Step.request f (length p) old)),
    Step.has_task-tasks_of k g (length p + 1) (emplace f old),
    has-emplace g f old,
  )

  old_asks-from :
      (k g : ℕ) (old : List ℕ)
      → Step.has_task k g (after_old old).tasks ≡ true
      → (Step.has_task k g (task (length p) f ∷ c.tasks) ≡ true)
        ⊎ ((k ≡ suc (length p)) × Holds (Step.view_of (after_old old)) (y ∷ p) g)
  unfolding Step.has_task
  old_asks-from k g old h = elim (Bool-cases (Step.has_task k g c.tasks)) [
    | inl e ↦ inl (ground (arith, e))
    | inr e ↦ inr (
      ground (arith, h, e, asked_next k g old),
      (
        emplace f old,
        Step.old_members_self c f y p old,
        ground (arith, h, e, asked_next k g old, has-emplace g f old),
      ),
    )
  ]

  pub old-IsAdvance :
      (old : List ℕ)
      → trailing (y ∷ p) c.storage.nodes ≡ some old
      → IsAdvance signature f y p left
          (Step.view_of (before (task (length p) f) c))
          (Step.view_of (after_old old))
  old-IsAdvance old e = record {
    at = at;
    read = read;
    place_self = assigned_self c.storage.filenames;
    place_other = λ g n. assigned g c.storage.filenames n;
    state_self = state_after;
    state_other = state_before;
    holds_self =
        (emplace f old, Step.old_members_self c f y p old, ground (arith, has-emplace f f old));
    holds_other = λ n g d h. old-Holds n g old e h;
    grows = λ n h. old_grows n old h;
    holds_from = λ n g h. old_from n g old e h;
    kept = λ k g n h. kept_after k g (tasks_of (Step.request f (length p) old)) n h;
    asks_others = λ g (files, m, h). ground (arith, m, h, e, asked_next (suc (length p)) g old);
    asks_self = λ h. ground (arith, asked_next (suc (length p)) f old);
    asks_from = λ k g h. old_asks-from k g old h;
  }
