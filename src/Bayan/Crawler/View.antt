-- ===== src/Bayan/Crawler/View.antt =====
-- What holds of the crawler between two tasks, as properties of four functions: where a file stands
-- in the tree, the files of a node, what is read of a file, and the tasks that wait.
use mathlib.Core.List.{reverse_aux}
use mathlib.Core.Path.{subst}
use native.Mathlib.Decide.{dec_lt, dec_le, ℕ_discrete}
use cpp.Prelude.{
  ℕ, ◌+◌, ◌≤◌, ◌≡◌, ◌≢◌, ◌⊎◌, ◌↔◌, ap, sym, ◌∙◌, inl, inr, refl, Bool, true, false, Option, none,
  some, List, [], ◌∷◌, ◌++◌, arith, length,
}
use cpp.Bayan.Storage.{Node}
use cpp.Bayan.Storage.Maps.{has}

pub record View : Type 0 where
  pub place : ℕ → Node
  pub members : Node → Option (List ℕ)
  pub state : ℕ → Option (Option ℕ)
  pub asks : ℕ → ℕ → Bool

-- What `FileReadState` holds for a file at a node, with the checksums that are not read yet.
abbrev pub state_of : Node → List ℕ → Option (Option ℕ)
state_of [] rest = none
state_of (x ∷ p) [] = some none
state_of (x ∷ p) (y ∷ rest) = some (some (length (x ∷ p)))

-- The files of a node.
abbrev pub Holds : View → Node → ℕ → Type 0
Holds v n f = (files : List ℕ) × (v.members n ≡ some files) × (has f files ≡ true)

pub record IsView (signature : ℕ → List ℕ) (wanted : ℕ → Bool) (v : View) : Type 0 where
  -- A file stands where the checksums that are read of it lead.
  pub reads :
      (f : ℕ)
      → (rest : List ℕ) × (reverse_aux (v.place f) rest ≡ signature f)
        × (v.state f ≡ state_of (v.place f) rest)
  pub placed : (f x : ℕ) (p : Node) → v.place f ≡ x ∷ p → Holds v (x ∷ p) f
  -- The nodes above a file exist.
  pub closed :
      (f : ℕ) (xs : List ℕ) (x : ℕ) (p : Node) → v.place f ≡ xs ++ x ∷ p → v.members (x ∷ p) ≢ none
  -- The files of a node have reached it.
  pub reached :
      (n : Node) (files : List ℕ) (f : ℕ)
      → v.members n ≡ some files
      → has f files ≡ true
      → (xs : List ℕ) × (v.place f ≡ xs ++ n)
  -- A file at a node that another file has reached is read to its end, or asked for its next block.
  pub asked :
      (f g : ℕ) (xs : List ℕ) (x : ℕ) (p : Node)
      → f ≢ g
      → v.place f ≡ x ∷ p
      → v.place g ≡ xs ++ x ∷ p
      → (v.state f ≡ some none) ⊎ (v.asks (length (x ∷ p)) f ≡ true)
  -- No task asks for more than the next block.
  pub early : (k f : ℕ) → v.asks k f ≡ true → k ≤ length (v.place f)
  -- Tasks and nodes are for files that are wanted.
  pub meant : (k f : ℕ) → v.asks k f ≡ true → wanted f ≡ true
  pub known : (f : ℕ) → v.place f ≢ [] → wanted f ≡ true
  -- Each file that is wanted has a block that is read, or a task that asks for the first one.
  pub begun : (f : ℕ) → wanted f ≡ true → (v.place f ≢ []) ⊎ (v.asks 0 f ≡ true)

same-length :
    (p q r s : List ℕ) → length p ≡ length q → reverse_aux p r ≡ reverse_aux q s → (p ≡ q) × (r ≡ s)
same-length [] [] r s l e = (refl, e)
same-length [] (y ∷ q) r s l e = absurd (omega arith)
same-length (x ∷ p) [] r s l e = absurd (omega arith)
same-length (x ∷ p) (y ∷ q) r s l e =
    ground (arith, same-length p q (x ∷ r) (y ∷ s) (omega arith) e)

-- Of two reversed beginnings of one list, the longer one ends in the shorter one.
align :
    (p q r s : List ℕ)
    → length p ≤ length q
    → reverse_aux p r ≡ reverse_aux q s
    → (xs : List ℕ) × (q ≡ xs ++ p) × (r ≡ reverse_aux xs s)
align p [] r s l e = let (a, b) = same-length p [] r s (omega arith) e in ([], sym a, b)
align p (y ∷ q) r s l e = elim (dec_lt (length p) (length (y ∷ q))) [
  | yes lt ↦ let (xs, a, b) = align p q r (y ∷ s) (omega arith) e in (y ∷ xs, ap (λ t. y ∷ t) a, b)
  | no ge ↦ let (a, b) = same-length p (y ∷ q) r s (omega arith) e in ([], sym a, b)
]

pub length-reverse_aux : (xs s : List ℕ) → length (reverse_aux xs s) ≡ length xs + length s
length-reverse_aux [] s = omega arith
length-reverse_aux (x ∷ xs) s = omega (arith, length-reverse_aux xs (x ∷ s))

pub nothing_left : (xs s : List ℕ) → reverse_aux xs s ≡ [] → xs ≡ []
nothing_left [] s h = refl
nothing_left (x ∷ xs) s h = absurd (omega (arith, length-reverse_aux xs (x ∷ s), ap length h))

pub read_up : (n : Node) (rest : List ℕ) → n ≢ [] → state_of n rest ≡ some none → rest ≡ []
read_up [] rest h e = absurd (h refl)
read_up (x ∷ p) [] h e = refl
read_up (x ∷ p) (y ∷ rest) h e = cc

module _ (signature : ℕ → List ℕ) (wanted : ℕ → Bool) (v : View) (i : IsView signature wanted v)
    (done : (k h : ℕ) → v.asks k h ≡ false) where
  ended :
      (f g : ℕ) (xs : List ℕ) (n : Node)
      → f ≢ g
      → n ≢ []
      → v.place f ≡ n
      → v.place g ≡ xs ++ n
      → v.state f ≡ some none
  ended f g xs [] d h a b = absurd (h refl)
  ended f g xs (x ∷ p) d h a b = elim (i.asked f g xs x p d a b) [
    | inl e ↦ e
    | inr e ↦ ground (arith, e, done (length (x ∷ p)) f)
  ]

  -- A file at a node that another file has reached is read to its end.
  complete :
      (f g : ℕ) (xs : List ℕ)
      → f ≢ g
      → v.place f ≢ []
      → v.place g ≡ xs ++ v.place f
      → reverse_aux (v.place f) [] ≡ signature f
  complete f g xs d a b =
      let (rest, r, s) = i.reads f in
      let e = ended f g xs (v.place f) d a refl b in
      let n = read_up (v.place f) rest a (sym s ∙ e) in
      subst (λ x. reverse_aux (v.place f) x ≡ signature f) n r

  level :
      (f g : ℕ)
      → f ≢ g
      → v.place f ≢ []
      → length (v.place f) ≤ length (v.place g)
      → signature f ≡ signature g
      → v.place f ≡ v.place g
  level f g d a l e =
      let (rest, r, s) = i.reads g in
      let (f_rest, q, t) = i.reads f in
      let (xs, b, c) = align (v.place f) (v.place g) f_rest rest l (q ∙ e ∙ sym r) in
      let n = read_up (v.place f) f_rest a (sym t ∙ ended f g xs (v.place f) d a refl b) in
      let z = nothing_left xs rest (sym c ∙ n) in sym (b ∙ ap (λ x. x ++ v.place f) z)

  pub placed_somewhere : (f : ℕ) → wanted f ≡ true → v.place f ≢ []
  placed_somewhere f w = elim (i.begun f w) [ inl h ↦ h | inr e ↦ ground (arith, e, done 0 f) ]

  -- With no task left, two files stand at the same node exactly if they have the same checksums.
  pub finished-same :
      (f g : ℕ)
      → wanted f ≡ true
      → wanted g ≡ true
      → (v.place f ≡ v.place g) ↔ (signature f ≡ signature g)
  finished-same f g a b = elim (ℕ_discrete f g) [
    | yes e ↦ (λ _. ap signature e, λ _. ap v.place e)
    | no d ↦ (
      λ e.
          sym (complete f g [] d (placed_somewhere f a) (sym e))
          ∙ ap (λ n. reverse_aux n []) e
          ∙ complete g f [] (λ q. d (sym q)) (placed_somewhere g b) e,
      λ e. elim (dec_le (length (v.place f)) (length (v.place g))) [
        | yes l ↦ level f g d (placed_somewhere f a) l e
        | no l ↦ sym (level g f (λ q. d (sym q)) (placed_somewhere g b) (omega (arith, l)) (sym e))
      ],
    )
  ]
