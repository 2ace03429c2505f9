-- ===== src/Bayan/Storage/Maps.antt =====
-- Reads of the map of nodes and of sets of files after writes.
use cpp.Prelude.{
  ℕ, ◌+◌, ◌≤◌, ◌≡◌, ◌≢◌, ◌⊎◌, inl, inr, true, Bool-cases, refl, Bool, false, ◌||◌, Option, none,
  some, List, [], ◌∷◌, arith, ◌==◌, if◌then◌else◌, length, str_eq, str_eq_iff,
}
use cpp.Bayan.Storage.{Node, trailing, set_trailing, emplace, erase_file, erase_trailing}

-- Whether a file is in a set.
unfoldable pub has : ℕ → List ℕ → Bool
has f [] = false
has f (g ∷ files) = f == g || has f files

pub has-emplace : (g f : ℕ) (files : List ℕ) → has g (emplace f files) ≡ (g == f || has g files)
unfolding has emplace
has-emplace g f [] = refl
has-emplace g f (h ∷ files) = ground (arith, has-emplace g f files)

pub has-erase_file :
    (g f : ℕ) (files : List ℕ)
    → has g (erase_file f files) ≡ (if g == f then false else has g files)
unfolding has erase_file
has-erase_file g f [] = ground arith
has-erase_file g f (h ∷ files) = ground (arith, has-erase_file g f files)

pub length-emplace : (f : ℕ) (files : List ℕ) → length (emplace f files) ≤ length files + 1
unfolding emplace
length-emplace f [] = omega arith
length-emplace f (g ∷ files) = ground (arith, length-emplace f files)

pub length-erase_file : (f : ℕ) (files : List ℕ) → length (erase_file f files) ≤ length files
unfolding erase_file
length-erase_file f [] = omega arith
length-erase_file f (g ∷ files) = ground (arith, length-erase_file f files)

pub trailing-set_trailing :
    (n m : Node) (files : List ℕ) (nodes : List (Node × List ℕ))
    → trailing n (set_trailing m files nodes)
      ≡ (if str_eq n m then some files else trailing n nodes)
unfolding trailing set_trailing
trailing-set_trailing n m files [] = refl
trailing-set_trailing n m files ((k, old) ∷ nodes) =
    ground
      (arith, trailing-set_trailing n m files nodes, str_eq_iff n m, str_eq_iff m k, str_eq_iff n k)

abbrev pub erased : ℕ → Option (List ℕ) → Option (List ℕ)
erased f none = none
erased f (some files) = some (erase_file f files)

pub trailing-erase_trailing :
    (n m : Node) (f : ℕ) (nodes : List (Node × List ℕ))
    → trailing n (erase_trailing m f nodes)
      ≡ (if str_eq n m then erased f (trailing n nodes) else trailing n nodes)
unfolding trailing erase_trailing
trailing-erase_trailing n m f [] = ground arith
trailing-erase_trailing n m f ((k, old) ∷ nodes) =
    ground
      (arith, trailing-erase_trailing n m f nodes, str_eq_iff n m, str_eq_iff m k, str_eq_iff n k)

pub node_cases : (n m : Node) → (n ≡ m) ⊎ (n ≢ m)
node_cases n m = elim (Bool-cases (str_eq n m)) [
  | inl e ↦ inl ((str_eq_iff n m).0 e)
  | inr e ↦ inr (λ q. ground (arith, e, (str_eq_iff n m).1 q))
]

pub has_self : (f : ℕ) (files : List ℕ) → has f (f ∷ files) ≡ true
unfolding has
has_self f files = ground arith

pub not_erased : (f : ℕ) (files : Option (List ℕ)) → erased f files ≡ none → files ≡ none
not_erased f none h = refl
not_erased f (some files) h = cc

pub erased-has :
    (n : Node) (f g : ℕ) (files : List ℕ) (old all : Option (List ℕ))
    → all ≡ old
    → erased f old ≡ some files
    → has g files ≡ true
    → (some_files : List ℕ) × (all ≡ some some_files) × (has g some_files ≡ true)
erased-has n f g files none all e h k = cc
erased-has n f g files (some old) all e h k = (old, e, ground (arith, h, k, has-erase_file g f old))
