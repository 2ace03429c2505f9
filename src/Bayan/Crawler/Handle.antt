-- ===== src/Bayan/Crawler/Handle.antt =====
-- `HandleNextTask` on a state that stands between two tasks.
use mathlib.Core.List.{reverse_aux}
use mathlib.Core.Path.{subst}
use cpp.Prelude.{
  ℕ, ◌≤◌, ◌≡◌, ◌≢◌, inl, inr, refl, ap, sym, ◌∙◌, Bool, true, false, Option-cases, Option, none,
  some, List, [], ◌∷◌, arith, length,
}
use cpp.Prelude.OrdMap.{find}
use cpp.Prelude.Result.{ok}
use cpp.Bayan.Storage.{Node, Storage, RegisterResult, register_below, register, trailing}
use cpp.Bayan.Crawler.{Compute, Crawler, is_outdated, handle_task}
use cpp.Bayan.Crawler.View.{state_of, IsView}
use cpp.Bayan.Crawler.Advance.{IsAdvance}
use cpp.Bayan.Crawler.Step.{
  place_of, view_of, next_of, new_node, old_node, request, after, has_task,
}
use cpp.Bayan.Crawler.Bounds.{Bounded, GrowsByOne, new-GrowsByOne, old-GrowsByOne}
use cpp.Bayan.Crawler.Moves.{task, before, new-IsAdvance, old-IsAdvance}

-- The files are made of blocks with the checksums of their signature: a block that a file has is
-- read, with its checksum and the number of the next one, if there is one.
abbrev pub IsComputer : (ℕ → List ℕ) → Compute → Type 0
IsComputer signature compute =
    (f y : ℕ) (p : Node) (left : List ℕ)
    → reverse_aux p (y ∷ left) ≡ signature f
    → compute f (length p) ≡ ok (y, next_of p left)

register_from :
    (f id y : ℕ) (s : Storage) (n : Option Node)
    → find f s.filenames ≡ n
    → id ≡ length (place_of n)
    → register f id y s ≡ ok (register_below (place_of n) f id y s)
unfolding register
register_from f id y s none e h = ground (arith, e, h)
register_from f id y s (some p) e h = ground (arith, e)

register_below-new :
    (f id y : ℕ) (p : Node) (s : Storage)
    → trailing (y ∷ p) s.nodes ≡ none
    → register_below p f id y s ≡ (new_node f y p s, none)
unfolding register_below
register_below-new f id y p s e = ground (arith, e)

register_below-old :
    (f id y : ℕ) (p : Node) (old : List ℕ) (s : Storage)
    → trailing (y ∷ p) s.nodes ≡ some old
    → register_below p f id y s ≡ (old_node f y p old s, request f id old)
unfolding register_below
register_below-old f id y p old s e = ground (arith, e)

handle_task-reads :
    (compute : Compute) (id f y : ℕ) (next : Option ℕ) (c : Crawler)
    (r : Storage × Option RegisterResult)
    → is_outdated id (find f c.file_read_state) ≡ false
    → compute f id ≡ ok (y, next)
    → register f id y c.storage ≡ ok r
    → handle_task compute (task id f) c ≡ ok (after f next c r)
unfolding handle_task
handle_task-reads compute id f y next c (s, result) o e g = ground (arith, o, e, g)

pub handle_task-ignores :
    (compute : Compute) (id f : ℕ) (c : Crawler)
    → is_outdated id (find f c.file_read_state) ≡ true
    → handle_task compute (task id f) c ≡ ok c
unfolding handle_task
handle_task-ignores compute id f c o = ground (arith, o)

-- A file that is not ignored has a checksum left, and its next block is the one that is asked for.
unread :
    (id : ℕ) (n rest : List ℕ) (state : Option (Option ℕ))
    → state ≡ state_of n rest
    → is_outdated id state ≡ false
    → id ≤ length n
    → reverse_aux n rest ≢ []
    → (y : ℕ) × (left : List ℕ) × (rest ≡ y ∷ left) × (id ≡ length n)
unfolding is_outdated
unread id [] [] state e o l h = absurd (h refl)
unread id [] (y ∷ rest) state e o l h = (y, rest, refl, omega (arith, l))
unread id (x ∷ n) [] state e o l h = absurd (ground (arith, e, o))
unread id (x ∷ n) (y ∷ rest) state e o l h = (y, rest, refl, ground (arith, e, o, l))

module _ (signature : ℕ → List ℕ) (wanted : ℕ → Bool) (compute : Compute)
    (law : IsComputer signature compute) (full : (g : ℕ) → wanted g ≡ true → signature g ≢ []) where
  -- What a task leaves that reads the checksum `y` of its file.
  abbrev pub IsRead : ℕ → ℕ → Crawler → ℕ → ℕ → List ℕ → Crawler → Type 0
  IsRead id f c m y left c' =
      (handle_task compute (task id f) c ≡ ok c')
      × IsAdvance signature f y (place_of (find f c.storage.filenames)) left
          (view_of (before (task id f) c)) (view_of c')
      × GrowsByOne m c c'

  read_block :
      (f y : ℕ) (p : Node) (left : List ℕ) (c : Crawler) (m : ℕ)
      → Bounded m c
      → is_outdated (length p) (find f c.file_read_state) ≡ false
      → place_of (find f c.storage.filenames) ≡ p
      → reverse_aux p (y ∷ left) ≡ signature f
      → (c' : Crawler) × (handle_task compute (task (length p) f) c ≡ ok c')
        × IsAdvance signature f y p left (view_of (before (task (length p) f) c)) (view_of c')
        × GrowsByOne m c c'
  read_block f y p left c m b o at r =
      let g =
        register_from f (length p) y c.storage (find f c.storage.filenames) refl
          (ap length (sym at)) in
      elim (Option-cases (trailing (y ∷ p) c.storage.nodes)) [
        | inl e ↦ (
          after f (next_of p left) c (new_node f y p c.storage, none),
          handle_task-reads compute (length p) f y (next_of p left) c
              (new_node f y p c.storage, none) o (law f y p left r)
              (ground (arith, g, at, register_below-new f (length p) y p c.storage e)),
          new-IsAdvance signature c f y p left at r e,
          new-GrowsByOne c f y p (next_of p left) m b,
        )
        | inr (old, e) ↦ (
          after f (next_of p left) c (old_node f y p old c.storage, request f (length p) old),
          handle_task-reads compute (length p) f y (next_of p left) c
              (old_node f y p old c.storage, request f (length p) old) o (law f y p left r)
              (ground (arith, g, at, register_below-old f (length p) y p old c.storage e)),
          old-IsAdvance signature c f y p left at r old e,
          old-GrowsByOne c f y p (next_of p left) m b old e,
        )
      ]

  first_asked : (id f : ℕ) (c : Crawler) → has_task id f (task id f ∷ c.tasks) ≡ true
  unfolding has_task
  first_asked id f c = ground arith

  -- A task that is not ignored reads the next checksum `y` of its file.
  pub advance :
      (id f : ℕ) (c : Crawler) (m : ℕ)
      → Bounded m c
      → IsView signature wanted (view_of (before (task id f) c))
      → is_outdated id (find f c.file_read_state) ≡ false
      → (y : ℕ) × (left : List ℕ) × (c' : Crawler) × IsRead id f c m y left c'
  advance id f c m b i o =
      let (rest, r, s) = i.reads f in
      let n = place_of (find f c.storage.filenames) in
      let w = i.meant id f (first_asked id f c) in
      let (y, left, e, k) =
        unread id n rest (find f c.file_read_state) s o (i.early id f (first_asked id f c))
          (λ z. full f w (sym r ∙ z)) in
      let (c', h, j, q) =
        read_block f y n left c m b
          (subst (λ x. is_outdated x (find f c.file_read_state) ≡ false) k o) refl
          (ap (λ x. reverse_aux n x) (sym e) ∙ r) in
      (y, left, c', subst (λ x. IsRead x f c m y left c') (sym k) (h, j, q))
