-- ===== src/Bayan/Crawler/Whole.antt =====
-- The loop of `Run` from its first tasks on, and the groups of `GetDuplicates` after it.
use cpp.Prelude.{
  ℕ, suc, ◌+◌, ◌*◌, ◌≡◌, ◌≢◌, ◌↔◌, Option-cases, inl, inr, refl, ap, sym, ◌∙◌, Bool, true, false,
  ◌&&◌, Option, none, some, List, [], ◌∷◌, ◌++◌, arith, length, ◌==◌,
}
use cpp.Prelude.OrdMap.{OrdMap, find}
use cpp.Prelude.Result.{ok}
use cpp.Bayan.Storage.{Node, empty_storage, trailing, get_duplicates}
use cpp.Bayan.Storage.Groups.{together, get_duplicates-same}
use cpp.Bayan.Storage.Maps.{has}
use cpp.Bayan.Crawler.{Task, Compute, Crawler, first_tasks, crawl}
use cpp.Bayan.Crawler.View.{IsView, finished-same, placed_somewhere}
use cpp.Bayan.Crawler.Step.{view_of, has_task, place_of}
use cpp.Bayan.Crawler.Store.{handle_tasks-IsStore}
use cpp.Bayan.Crawler.Handle.{IsComputer}
use cpp.Bayan.Crawler.Loop.{sum_of, handle_tasks-Ends}

abbrev pub start : List ℕ → Crawler
start files = record { storage = empty_storage; tasks = first_tasks files; file_read_state = [] }

has_task-first :
    (k f : ℕ) (files : List ℕ) → has_task k f (first_tasks files) ≡ (k == 0 && has f files)
unfolding has_task has
has_task-first k f [] = ground arith
has_task-first k f (g ∷ files) = ground (arith, has_task-first k f files)

length-first_tasks : (files : List ℕ) → length (first_tasks files) ≡ length files
length-first_tasks [] = refl
length-first_tasks (f ∷ files) = omega (arith, length-first_tasks files)

no_end : (xs : List ℕ) (x : ℕ) (p : Node) {n : Option (List ℕ)} → [] ≡ xs ++ x ∷ p → n ≢ none
no_end [] x p h = cc
no_end (y ∷ xs) x p h = cc

start-IsView :
    (signature : ℕ → List ℕ) (files : List ℕ)
    → IsView signature (λ g. has g files) (view_of (start files))
unfolding trailing find
start-IsView signature files = record {
  reads = λ f. (signature f, refl, refl);
  placed = λ f x p h. cc;
  closed = λ f xs x p h. no_end xs x p h;
  reached = λ n fs f h. cc;
  asked = λ f g xs x p d h. cc;
  early = λ k f h. ground (arith, h, has_task-first k f files);
  meant = λ k f h. ground (arith, h, has_task-first k f files);
  known = λ f h. absurd (h refl);
  begun = λ f h. inr (ground (arith, h, has_task-first 0 f files));
}

nothing_asked : (k f : ℕ) (tasks : List Task) → tasks ≡ [] → has_task k f tasks ≡ false
unfolding has_task
nothing_asked k f tasks e = ground (arith, e)

-- Enough fuel for the tasks of the files, when their blocks are so many.
abbrev pub enough : (ℕ → List ℕ) → List ℕ → ℕ
enough signature files =
    let blocks = sum_of (λ f. length (signature f)) files in
    suc (length files + blocks * (blocks + 1))

same_node :
    (f g : ℕ) (m : OrdMap Node)
    → place_of (find f m) ≢ []
    → place_of (find g m) ≢ []
    → (n : Node) × (find f m ≡ some n)
      × ((find g m ≡ some n) ↔ (place_of (find f m) ≡ place_of (find g m)))
same_node f g m a b = elim (Option-cases (find f m)) [
  | inl e ↦ absurd (a (ap place_of e))
  | inr (n, e) ↦ elim (Option-cases (find g m)) [
    | inl d ↦ absurd (b (ap place_of d))
    | inr (k, d) ↦ (
      n,
      e,
      (
        λ h. ap place_of (e ∙ sym h),
        λ h. d ∙ ap some (sym (ap place_of d) ∙ sym h ∙ ap place_of e),
      ),
    )
  ]
]

-- Whatever computes the checksums of the files as their signatures say, two of the files are in one
-- group exactly if they have one signature.
pub crawl-together :
    (signature : ℕ → List ℕ) (files : List ℕ) (compute : Compute)
    → IsComputer signature compute
    → ((g : ℕ) → has g files ≡ true → signature g ≢ [])
    → (last : Crawler) × (crawl compute (enough signature files) files ≡ ok (some last))
      × ((f g : ℕ)
          → has f files ≡ true
          → has g files ≡ true
          → f ≢ g
          → (together f g (get_duplicates last.storage) ≡ true) ↔ (signature f ≡ signature g))
unfolding crawl
crawl-together signature files compute law full =
    let wanted : ℕ → Bool = λ g. has g files in
    let blocks = sum_of (λ f. length (signature f)) files in
    let (last, e, i, z) =
      handle_tasks-Ends signature files compute law full (enough signature files) blocks
        (first_tasks files) (start files) refl (start-IsView signature files) (λ n fs h. cc)
        (omega arith) (omega (arith, length-first_tasks files)) in
    let store =
      handle_tasks-IsStore compute (enough signature files) (first_tasks files) (start files) last
        (tt, refl) e in
    let done : (k h : ℕ) → (view_of last).asks k h ≡ false =
      λ k h. nothing_asked k h last.tasks z in
    (
      last,
      e,
      λ f g a b d.
          let (n, c, p) =
            same_node f g last.storage.filenames
              (placed_somewhere signature wanted (view_of last) i done f a)
              (placed_somewhere signature wanted (view_of last) i done g b) in
          let s = get_duplicates-same f g n last.storage store d c in
          let q = finished-same signature wanted (view_of last) i done f g a b in
          (λ h. q.0 (p.0 (s.0 h)), λ h. s.1 (p.1 (q.1 h))),
    )
