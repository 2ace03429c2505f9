-- ===== src/Bayan/Storage/Groups.antt =====
-- The groups of `GetDuplicates`: two files are in one group exactly if they have one node.
use mathlib.Core.Path.{subst}
use native.Mathlib.Decide.{ℕ_discrete}
use cpp.Prelude.{
  ℕ, ◌<◌, ◌≡◌, ◌≢◌, ◌↔◌, refl, sym, ◌∙◌, Bool, true, false, Bool-cases, ◌&&◌, ◌||◌, inl, inr,
  Option, none, some, List, [], ◌∷◌, ◌++◌, arith, ◌==◌, length, str_eq, str_eq_iff,
}
use cpp.Prelude.OrdMap.{OrdMap, find, Ascending, Above}
use cpp.Bayan.Storage.{
  Node, Storage, trailing, emplace, group, invert, large_groups, get_duplicates,
}
use cpp.Bayan.Storage.Maps.{has, has-emplace}

-- Whether two files are in one of the groups.
unfoldable pub together : ℕ → ℕ → List (List ℕ) → Bool
together f g [] = false
together f g (files ∷ groups) = (has f files && has g files) || together f g groups

unfoldable pub together_at : ℕ → ℕ → List (Node × List ℕ) → Bool
together_at f g [] = false
together_at f g ((n, files) ∷ groups) = (has f files && has g files) || together_at f g groups

unfoldable holds_in : ℕ → Option (List ℕ) → Bool
holds_in f none = false
holds_in f (some files) = has f files

unfoldable assigns : ℕ → Node → OrdMap Node → Bool
assigns g m [] = false
assigns g m ((f, n) ∷ filenames) = (g == f && str_eq m n) || assigns g m filenames

-- Every file of a group has a property together with the node of the group.
abbrev AllAt : (Node → ℕ → Type 0) → List (Node × List ℕ) → Type 0
AllAt P [] = Unit
AllAt P ((n, files) ∷ groups) = ((f : ℕ) → has f files ≡ true → P n f) × AllAt P groups

is_single : (f g : ℕ) → has g (f ∷ []) ≡ true → g ≡ f
unfolding has
is_single f g e = ground (arith, e)

emplaced :
    (P : Node → ℕ → Type 0) (n : Node) (f g : ℕ) (files : List ℕ)
    → P n f
    → ((k : ℕ) → has k files ≡ true → P n k)
    → has g (emplace f files) ≡ true
    → P n g
emplaced P n f g files h b e = elim (ℕ_discrete g f) [
  | yes q ↦ subst (P n) (sym q) h
  | no q ↦ b g (ground (arith, q, e, has-emplace g f files))
]

group-AllAt :
    (P : Node → ℕ → Type 0) (n : Node) (f : ℕ) (groups : List (Node × List ℕ))
    → P n f
    → AllAt P groups
    → AllAt P (group n f groups)
unfolding group
group-AllAt P n f [] h a = (λ g e. subst (P n) (sym (is_single f g e)) h, tt)
group-AllAt P n f ((m, files) ∷ groups) h (b, a) = elim (Bool-cases (str_eq n m)) [
  | inl e ↦
      rw e (λ g q. emplaced P m f g files (subst (λ k. P k f) ((str_eq_iff n m).0 e) h) b q, a)
  | inr e ↦ rw e (b, group-AllAt P n f groups h a)
]

invert-AllAt :
    (P : Node → ℕ → Type 0) (filenames : OrdMap Node) (groups : List (Node × List ℕ))
    → ((f : ℕ) (n : Node) → assigns f n filenames ≡ true → P n f)
    → AllAt P groups
    → AllAt P (invert filenames groups)
unfolding invert assigns
invert-AllAt P [] groups h a = a
invert-AllAt P ((f, n) ∷ filenames) groups h a =
    invert-AllAt P filenames (group n f groups) (λ g m e. h g m (ground (arith, e)))
      (group-AllAt P n f groups (h f n (ground (arith, (str_eq_iff n n).1 refl))) a)

holds_in-group :
    (g f : ℕ) (m n : Node) (groups : List (Node × List ℕ))
    → holds_in g (trailing m (group n f groups))
      ≡ ((str_eq m n && g == f) || holds_in g (trailing m groups))
unfolding group trailing holds_in has
holds_in-group g f m n [] = ground arith
holds_in-group g f m n ((k, files) ∷ groups) = ground (
  arith,
  holds_in-group g f m n groups,
  has-emplace g f files,
  str_eq_iff m k,
  str_eq_iff n k,
  str_eq_iff m n,
)

holds_in-invert :
    (g : ℕ) (m : Node) (filenames : OrdMap Node) (groups : List (Node × List ℕ))
    → holds_in g (trailing m (invert filenames groups))
      ≡ (assigns g m filenames || holds_in g (trailing m groups))
unfolding invert assigns
holds_in-invert g m [] groups = ground arith
holds_in-invert g m ((f, n) ∷ filenames) groups =
    ground (arith, holds_in-invert g m filenames (group n f groups), holds_in-group g f m n groups)

together_at-holds :
    (f g : ℕ) (n : Node) (groups : List (Node × List ℕ))
    → holds_in f (trailing n groups) ≡ true
    → holds_in g (trailing n groups) ≡ true
    → together_at f g groups ≡ true
unfolding together_at trailing holds_in
together_at-holds f g n [] h k = cc
together_at-holds f g n ((m, files) ∷ groups) h k = elim (Bool-cases (str_eq n m)) [
  | inl e ↦ ground (arith, e, h, k)
  | inr e ↦
      ground (arith, together_at-holds f g n groups (ground (arith, e, h)) (ground (arith, e, k)))
]

together_at-common :
    (P : Node → ℕ → Type 0) (f g : ℕ) (groups : List (Node × List ℕ))
    → AllAt P groups
    → together_at f g groups ≡ true
    → (n : Node) × P n f × P n g
unfolding together_at
together_at-common P f g [] a h = cc
together_at-common P f g ((n, files) ∷ groups) (p, a) h =
    elim (Bool-cases (has f files && has g files)) [
      | inl e ↦ (n, p f (ground (arith, e)), p g (ground (arith, e)))
      | inr e ↦ together_at-common P f g groups a (ground (arith, e, h))
    ]

two_long :
    (f g : ℕ) (files : List ℕ) → f ≢ g → has f files ≡ true → has g files ≡ true → 1 < length files
unfolding has
two_long f g [] d h k = cc
two_long f g (a ∷ []) d h k = absurd (d (ground (arith, h, k)))
two_long f g (a ∷ b ∷ files) d h k = omega arith

together-large_groups :
    (f g : ℕ) (groups : List (Node × List ℕ))
    → f ≢ g
    → together f g (large_groups groups) ≡ together_at f g groups
unfolding together together_at large_groups
together-large_groups f g [] d = refl
together-large_groups f g ((n, files) ∷ groups) d = elim (Bool-cases (has f files && has g files)) [
  | inl e ↦ ground (
    arith,
    e,
    together-large_groups f g groups d,
    two_long f g files d (ground (arith, e)) (ground (arith, e)),
  )
  | inr e ↦ ground (arith, e, together-large_groups f g groups d)
]

assigns-Above :
    (i f : ℕ) (n : Node) (filenames : OrdMap Node)
    → Above i filenames
    → assigns f n filenames ≡ true
    → i < f
unfolding assigns
assigns-Above i f n [] a e = cc
assigns-Above i f n ((g, m) ∷ filenames) a e =
    ground (arith, e, a, assigns-Above i f n filenames a.1)

assigns-find :
    (f : ℕ) (n : Node) (filenames : OrdMap Node)
    → Ascending filenames
    → assigns f n filenames ≡ true
    → find f filenames ≡ some n
unfolding assigns find
assigns-find f n [] a e = cc
assigns-find f n ((g, m) ∷ filenames) a e =
    ground (
      arith,
      e,
      a,
      assigns-find f n filenames a.1,
      assigns-Above g f n filenames a.0,
      str_eq_iff n m,
    )

find-assigns :
    (f : ℕ) (n : Node) (filenames : OrdMap Node)
    → find f filenames ≡ some n
    → assigns f n filenames ≡ true
unfolding assigns find
find-assigns f n [] e = cc
find-assigns f n ((g, m) ∷ filenames) e =
    ground (arith, e, find-assigns f n filenames, str_eq_iff n m)

together-append :
    (f g : ℕ) (a b : List (List ℕ)) → together f g (a ++ b) ≡ (together f g a || together f g b)
unfolding together
together-append f g [] b = refl
together-append f g (files ∷ a) b = ground (arith, together-append f g a b)

-- What every call of `Register` keeps, when no empty file is registered.
abbrev pub IsStore : Storage → Type 0
IsStore s = Ascending s.filenames × (s.empty_files ≡ [])

together-get_duplicates :
    (f g : ℕ) (s : Storage)
    → IsStore s
    → f ≢ g
    → together f g (get_duplicates s) ≡ together_at f g (invert s.filenames [])
unfolding get_duplicates together
together-get_duplicates f g s (a, e) d = ground (
  arith,
  e,
  together-append f g (large_groups (invert s.filenames [])) [],
  together-large_groups f g (invert s.filenames []) d,
)

pub get_duplicates-same :
    (f g : ℕ) (n : Node) (s : Storage)
    → IsStore s
    → f ≢ g
    → find f s.filenames ≡ some n
    → (together f g (get_duplicates s) ≡ true) ↔ (find g s.filenames ≡ some n)
unfolding holds_in trailing
get_duplicates-same f g n s i d e = (
  λ h.
      let (m, a, b) =
        together_at-common (λ k q. find q s.filenames ≡ some k) f g (invert s.filenames [])
          (invert-AllAt (λ k q. find q s.filenames ≡ some k) s.filenames []
            (λ q k r. assigns-find q k s.filenames i.0 r) tt)
          (sym (together-get_duplicates f g s i d) ∙ h) in
      ground (arith, a, b, e),
  λ h.
      together-get_duplicates f g s i d
      ∙ together_at-holds f g n (invert s.filenames [])
          (ground (arith, holds_in-invert f n s.filenames [], find-assigns f n s.filenames e))
          (ground (arith, holds_in-invert g n s.filenames [], find-assigns g n s.filenames h)),
)
