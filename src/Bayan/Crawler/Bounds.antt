-- ===== src/Bayan/Crawler/Bounds.antt =====
-- How many files a node has, and how many tasks a step adds.
use cpp.Prelude.{
  ℕ, suc, ◌+◌, ◌≤◌, ◌≡◌, inl, inr, refl, sym, ◌∙◌, Option, none, some, List, [], ◌∷◌, arith, length,
  length-append,
}
use cpp.Bayan.Storage.{Node, trailing, emplace}
use cpp.Bayan.Storage.Maps.{node_cases, erased, length-emplace, length-erase_file}
use cpp.Bayan.Crawler.{Crawler, tasks_of}
use cpp.Bayan.Crawler.Step.{
  new_node, old_node, request, after, new_members_self, new_members_parent, new_members_other,
  old_members_self, old_members_other,
}

-- No node has more than `m` files.
abbrev pub Bounded : ℕ → Crawler → Type 0
Bounded m c =
    (n : Node) (files : List ℕ) → trailing n c.storage.nodes ≡ some files → length files ≤ m

-- What a step adds.
abbrev pub GrowsByOne : ℕ → Crawler → Crawler → Type 0
GrowsByOne m c c' = Bounded (suc m) c' × (length c'.tasks ≤ length c.tasks + suc m)

length-tasks_of :
    (id : ℕ) (files : List ℕ)
    → length (tasks_of (some (record { block_id = id; files = files }))) ≡ length files
length-tasks_of id [] = refl
length-tasks_of id (f ∷ files) = omega (arith, length-tasks_of id files)

length-erased :
    (f m : ℕ) (old : Option (List ℕ)) (files : List ℕ)
    → ((x : List ℕ) → old ≡ some x → length x ≤ m)
    → erased f old ≡ some files
    → length files ≤ m
length-erased f m none files b h = cc
length-erased f m (some x) files b h = ground (arith, h, b x refl, length-erase_file f x)

module _ (c : Crawler) (f y : ℕ) (p : Node) (next : Option ℕ) (m : ℕ) (b : Bounded m c) where
  pub new-GrowsByOne : GrowsByOne m c (after f next c (new_node f y p c.storage, none))
  new-GrowsByOne = (
    λ n files h. elim (node_cases n (y ∷ p)) [
      | inl q ↦ ground (arith, q, h, new_members_self c f y p)
      | inr q ↦ elim (node_cases n p) [
        | inl r ↦
            let k =
              length-erased f m (trailing p c.storage.nodes) files (b p)
                (ground (arith, r, h, new_members_parent c f y p)) in
            omega (arith, k)
        | inr r ↦ omega (arith, b n files (sym (new_members_other c f y p n q r) ∙ h))
      ]
    ],
    omega (arith, length-append c.tasks []),
  )

  pub old-GrowsByOne :
      (old : List ℕ)
      → trailing (y ∷ p) c.storage.nodes ≡ some old
      → GrowsByOne m c (after f next c (old_node f y p old c.storage, request f (length p) old))
  old-GrowsByOne old e = (
    λ n files h. elim (node_cases n (y ∷ p)) [
      | inl q ↦
          ground (arith, q, h, old_members_self c f y p old, b (y ∷ p) old e, length-emplace f old)
      | inr q ↦ omega (arith, b n files (sym (old_members_other c f y p old n q) ∙ h))
    ],
    omega (
      arith,
      length-append c.tasks (tasks_of (request f (length p) old)),
      length-tasks_of (length p + 1) (emplace f old),
      length-emplace f old,
      b (y ∷ p) old e,
    ),
  )
