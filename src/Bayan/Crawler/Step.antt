-- ===== src/Bayan/Crawler/Step.antt =====
-- The loop's step is one of the two: a task is ignored, or the file goes on to its next node.
use cpp.Prelude.{
  ℕ, suc, ◌+◌, ◌≡◌, ◌≢◌, refl, ap, Bool, false, ◌&&◌, ◌||◌, Option, none, some, List, [], ◌∷◌, ◌++◌,
  arith, length, ◌==◌, str_eq_iff,
}
use cpp.Prelude.OrdMap.{find, assign}
use cpp.Bayan.Storage.{
  Node, Storage, RegisterResult, trailing, set_trailing, emplace, erase_trailing,
}
use cpp.Bayan.Storage.Maps.{has, erased, trailing-set_trailing, trailing-erase_trailing}
use cpp.Bayan.Crawler.{Task, Crawler, tasks_of}
use cpp.Bayan.Crawler.View.{View, state_of}

unfoldable pub has_task : ℕ → ℕ → List Task → Bool
has_task k f [] = false
has_task k f (t ∷ tasks) = (k == t.block_id && f == t.filename) || has_task k f tasks

abbrev pub place_of : Option Node → Node
place_of none = []
place_of (some n) = n

abbrev pub view_of : Crawler → View
view_of c = record {
  place = λ f. place_of (find f c.storage.filenames);
  members = λ n. trailing n c.storage.nodes;
  state = λ f. find f c.file_read_state;
  asks = λ k f. has_task k f c.tasks;
}

-- The number of the block after those of a node, if a checksum is left.
abbrev pub next_of : Node → List ℕ → Option ℕ
next_of p [] = none
next_of p (z ∷ left) = some (suc (length p))

abbrev pub new_node : ℕ → ℕ → Node → Storage → Storage
new_node f y p s = record s {
  nodes = erase_trailing p f (set_trailing (y ∷ p) (f ∷ []) s.nodes);
  filenames = assign f (y ∷ p) s.filenames;
}

abbrev pub old_node : ℕ → ℕ → Node → List ℕ → Storage → Storage
old_node f y p files s = record s {
  nodes = set_trailing (y ∷ p) (emplace f files) s.nodes;
  filenames = assign f (y ∷ p) s.filenames;
}

abbrev pub request : ℕ → ℕ → List ℕ → Option RegisterResult
request f id files = some (record { block_id = id + 1; files = emplace f files })

-- What a task leaves, from what `Register` returns.
abbrev pub after : ℕ → Option ℕ → Crawler → Storage × Option RegisterResult → Crawler
after f next c (s, result) = record {
  storage = s;
  tasks = c.tasks ++ tasks_of result;
  file_read_state = assign f next c.file_read_state;
}

pub has_task-append :
    (k f : ℕ) (a b : List Task) → has_task k f (a ++ b) ≡ (has_task k f a || has_task k f b)
unfolding has_task
has_task-append k f [] b = refl
has_task-append k f (t ∷ a) b = ground (arith, has_task-append k f a b)

pub has_task-tasks_of :
    (k f id : ℕ) (files : List ℕ)
    → has_task k f (tasks_of (some (record { block_id = id; files = files })))
      ≡ (k == id && has f files)
unfolding has_task has
has_task-tasks_of k f id [] = ground arith
has_task-tasks_of k f id (g ∷ files) = ground (arith, has_task-tasks_of k f id files)

pub state_of-next :
    (y : ℕ) (p : Node) (left : List ℕ) → some (next_of p left) ≡ state_of (y ∷ p) left
state_of-next y p [] = refl
state_of-next y p (z ∷ left) = refl

pub not_above : (y : ℕ) (p : Node) → p ≢ y ∷ p
not_above y p e = omega (arith, ap length e)

module _ (c : Crawler) (f y : ℕ) (p : Node) where
  pub new_members_self : trailing (y ∷ p) (new_node f y p c.storage).nodes ≡ some (f ∷ [])
  new_members_self = ground (
    arith,
    trailing-erase_trailing (y ∷ p) p f (set_trailing (y ∷ p) (f ∷ []) c.storage.nodes),
    trailing-set_trailing (y ∷ p) (y ∷ p) (f ∷ []) c.storage.nodes,
    str_eq_iff (y ∷ p) p,
    str_eq_iff (y ∷ p) (y ∷ p),
    not_above y p,
  )

  pub new_members_parent :
      trailing p (new_node f y p c.storage).nodes ≡ erased f (trailing p c.storage.nodes)
  new_members_parent = ground (
    arith,
    trailing-erase_trailing p p f (set_trailing (y ∷ p) (f ∷ []) c.storage.nodes),
    trailing-set_trailing p (y ∷ p) (f ∷ []) c.storage.nodes,
    str_eq_iff p (y ∷ p),
    str_eq_iff p p,
    not_above y p,
  )

  pub new_members_other :
      (n : Node)
      → n ≢ y ∷ p
      → n ≢ p
      → trailing n (new_node f y p c.storage).nodes ≡ trailing n c.storage.nodes
  new_members_other n d e = ground (
    arith,
    trailing-erase_trailing n p f (set_trailing (y ∷ p) (f ∷ []) c.storage.nodes),
    trailing-set_trailing n (y ∷ p) (f ∷ []) c.storage.nodes,
    str_eq_iff n p,
    str_eq_iff n (y ∷ p),
  )

  pub old_members_self :
      (files : List ℕ)
      → trailing (y ∷ p) (old_node f y p files c.storage).nodes ≡ some (emplace f files)
  old_members_self files = ground (
    arith,
    trailing-set_trailing (y ∷ p) (y ∷ p) (emplace f files) c.storage.nodes,
    str_eq_iff (y ∷ p) (y ∷ p),
  )

  pub old_members_other :
      (files : List ℕ) (n : Node)
      → n ≢ y ∷ p
      → trailing n (old_node f y p files c.storage).nodes ≡ trailing n c.storage.nodes
  old_members_other files n d = ground (
    arith,
    trailing-set_trailing n (y ∷ p) (emplace f files) c.storage.nodes,
    str_eq_iff n (y ∷ p),
  )
