-- ===== src/Bayan/Crawler/Advance.antt =====
-- A task that reads the next block of a file keeps what holds between tasks.
use mathlib.Core.List.{reverse_aux}
use mathlib.Core.Path.{subst}
use native.Mathlib.Decide.{ℕ_discrete}
use cpp.Prelude.{
  ℕ, suc, ◌≤◌, ◌≡◌, ◌≢◌, ◌⊎◌, inl, inr, ap, sym, ◌∙◌, Bool, true, none, some, List, [], ◌∷◌, ◌++◌,
  arith, length, length-append,
}
use cpp.Bayan.Storage.{Node}
use cpp.Bayan.Storage.Maps.{has}
use cpp.Bayan.Crawler.View.{View, state_of, Holds, IsView}

-- The file `f` goes on from its node `p` to `y ∷ p`, with the checksums `left` still to be read.
pub record IsAdvance (signature : ℕ → List ℕ) (f y : ℕ) (p : Node) (left : List ℕ) (v v' : View)
    : Type 0 where
  pub at : v.place f ≡ p
  pub read : reverse_aux p (y ∷ left) ≡ signature f
  pub place_self : v'.place f ≡ y ∷ p
  pub place_other : (g : ℕ) → g ≢ f → v'.place g ≡ v.place g
  pub state_self : v'.state f ≡ state_of (y ∷ p) left
  pub state_other : (g : ℕ) → g ≢ f → v'.state g ≡ v.state g
  -- The file is in its new node; other files, and all nodes, stay where they are.
  pub holds_self : Holds v' (y ∷ p) f
  pub holds_other : (n : Node) (g : ℕ) → g ≢ f → Holds v n g → Holds v' n g
  pub grows : (n : Node) → v.members n ≢ none → v'.members n ≢ none
  pub holds_from : (n : Node) (g : ℕ) → Holds v' n g → ((n ≡ y ∷ p) × (g ≡ f)) ⊎ Holds v n g
  -- Tasks of other files stay; a node that was there asks for its files, with the new one.
  pub kept : (k g : ℕ) → g ≢ f → v.asks k g ≡ true → v'.asks k g ≡ true
  pub asks_others : (g : ℕ) → Holds v (y ∷ p) g → v'.asks (suc (length p)) g ≡ true
  pub asks_self : v.members (y ∷ p) ≢ none → v'.asks (suc (length p)) f ≡ true
  pub asks_from :
      (k g : ℕ)
      → v'.asks k g ≡ true
      → (v.asks k g ≡ true) ⊎ ((k ≡ suc (length p)) × Holds v' (y ∷ p) g)

module _ (signature : ℕ → List ℕ) (wanted : ℕ → Bool) (f y : ℕ) (p : Node) (left : List ℕ)
    (v v' : View) (i : IsView signature wanted v) (w : wanted f ≡ true)
    (s : IsAdvance signature f y p left v v') where
  reads :
      (g : ℕ)
      → (rest : List ℕ) × (reverse_aux (v'.place g) rest ≡ signature g)
        × (v'.state g ≡ state_of (v'.place g) rest)
  reads g = elim (ℕ_discrete g f) [
    | yes e ↦ (left, rw (e, s.place_self, s.read), rw (e, s.place_self, s.state_self))
    | no n ↦
        let (rest, a, b) = i.reads g in
        (rest, rw (s.place_other g n, a), rw (s.place_other g n, s.state_other g n, b))
  ]

  placed : (g x : ℕ) (q : Node) → v'.place g ≡ x ∷ q → Holds v' (x ∷ q) g
  placed g x q h = elim (ℕ_discrete g f) [
    | yes e ↦
        let same : y ∷ p ≡ x ∷ q = sym s.place_self ∙ ap v'.place (sym e) ∙ h in
        subst (λ n. Holds v' n g) same (subst (λ a. Holds v' (y ∷ p) a) (sym e) s.holds_self)
    | no n ↦ s.holds_other (x ∷ q) g n (i.placed g x q (sym (s.place_other g n) ∙ h))
  ]

  Holds-members : (w : View) (n : Node) (g : ℕ) → Holds w n g → w.members n ≢ none
  Holds-members w n g (files, m, h) e = ground (arith, m, e)

  above_self : (xs : List ℕ) (x : ℕ) (q : Node) → y ∷ p ≡ xs ++ x ∷ q → v'.members (x ∷ q) ≢ none
  above_self [] x q h = subst (λ n. v'.members n ≢ none) h (Holds-members v' (y ∷ p) f s.holds_self)
  above_self (z ∷ zs) x q h = s.grows (x ∷ q) (i.closed f zs x q (s.at ∙ ground (arith, h)))

  closed :
      (g : ℕ) (xs : List ℕ) (x : ℕ) (q : Node)
      → v'.place g ≡ xs ++ x ∷ q
      → v'.members (x ∷ q) ≢ none
  closed g xs x q h = elim (ℕ_discrete g f) [
    | yes e ↦ above_self xs x q (sym s.place_self ∙ ap v'.place (sym e) ∙ h)
    | no n ↦ s.grows (x ∷ q) (i.closed g xs x q (sym (s.place_other g n) ∙ h))
  ]

  moved :
      (n : Node) (g : ℕ) (xs : List ℕ)
      → v.place g ≡ xs ++ n
      → (ys : List ℕ) × (v'.place g ≡ ys ++ n)
  moved n g xs h = elim (ℕ_discrete g f) [
    | yes e ↦
        (y ∷ xs, ap v'.place e ∙ s.place_self ∙ ap (λ q. y ∷ q) (sym s.at ∙ ap v.place (sym e) ∙ h))
    | no d ↦ (xs, s.place_other g d ∙ h)
  ]

  reached :
      (n : Node) (files : List ℕ) (g : ℕ)
      → v'.members n ≡ some files
      → has g files ≡ true
      → (xs : List ℕ) × (v'.place g ≡ xs ++ n)
  reached n files g m h = elim (s.holds_from n g (files, m, h)) [
    | inl (e, d) ↦ ([], ap v'.place d ∙ s.place_self ∙ sym e)
    | inr (old, o, k) ↦ let (xs, r) = i.reached n old g o k in moved n g xs r
  ]

  pub length_grows : (g : ℕ) → length (v.place g) ≤ length (v'.place g)
  length_grows g = elim (ℕ_discrete g f) [
    | yes e ↦ rw (e, s.place_self, s.at) (omega arith)
    | no n ↦ rw (s.place_other g n) (omega arith)
  ]

  length_reached : (g : ℕ) → Holds v' (y ∷ p) g → suc (length p) ≤ length (v'.place g)
  length_reached g (files, m, h) =
      let (xs, r) = reached (y ∷ p) files g m h in
      omega (arith, ap length r, length-append xs (y ∷ p))

  early : (k g : ℕ) → v'.asks k g ≡ true → k ≤ length (v'.place g)
  early k g h = elim (s.asks_from k g h) [
    | inl a ↦ omega (arith, i.early k g a, length_grows g)
    | inr (e, m) ↦ omega (arith, e, length_reached g m)
  ]

  known : (g : ℕ) → v'.place g ≢ [] → wanted g ≡ true
  known g h = elim (ℕ_discrete g f) [
    | yes e ↦ ap wanted e ∙ w
    | no n ↦ i.known g (λ e. h (s.place_other g n ∙ e))
  ]

  meant : (k g : ℕ) → v'.asks k g ≡ true → wanted g ≡ true
  meant k g h = elim (s.asks_from k g h) [
    | inl a ↦ i.meant k g a
    | inr (_, m) ↦ known g (λ e. omega (arith, length_reached g m, ap length e))
  ]

  begun : (g : ℕ) → wanted g ≡ true → (v'.place g ≢ []) ⊎ (v'.asks 0 g ≡ true)
  begun g u = elim (ℕ_discrete g f) [
    | yes e ↦ inl (λ h. ground (arith, sym s.place_self ∙ ap v'.place (sym e) ∙ h))
    | no n ↦ elim (i.begun g u) [
      | inl h ↦ inl (λ q. h (sym (s.place_other g n) ∙ q))
      | inr a ↦ inr (s.kept 0 g n a)
    ]
  ]

  -- What is asked of another file `a`, which stands at `x ∷ q`.
  asked_other :
      (a b : ℕ) (xs : List ℕ) (x : ℕ) (q : Node)
      → a ≢ f
      → b ≢ f
      → a ≢ b
      → v.place a ≡ x ∷ q
      → v.place b ≡ xs ++ x ∷ q
      → (v'.state a ≡ some none) ⊎ (v'.asks (length (x ∷ q)) a ≡ true)
  asked_other a b xs x q m n d h k = elim (i.asked a b xs x q d h k) [
    | inl e ↦ inl (s.state_other a m ∙ e)
    | inr e ↦ inr (s.kept (length (x ∷ q)) a m e)
  ]

  -- The same where the file that reaches the node is `f`.
  asked_passed :
      (a : ℕ) (xs : List ℕ) (x : ℕ) (q : Node)
      → a ≢ f
      → v.place a ≡ x ∷ q
      → y ∷ p ≡ xs ++ x ∷ q
      → (v'.state a ≡ some none) ⊎ (v'.asks (length (x ∷ q)) a ≡ true)
  asked_passed a [] x q m h k = inr (
      subst (λ n. v'.asks (length n) a ≡ true) k
        (s.asks_others a (subst (λ n. Holds v n a) (sym k) (i.placed a x q h))))
  asked_passed a (z ∷ zs) x q m h k = elim (i.asked a f zs x q m h (s.at ∙ ground (arith, k))) [
    | inl e ↦ inl (s.state_other a m ∙ e)
    | inr e ↦ inr (s.kept (length (x ∷ q)) a m e)
  ]

  asked :
      (a b : ℕ) (xs : List ℕ) (x : ℕ) (q : Node)
      → a ≢ b
      → v'.place a ≡ x ∷ q
      → v'.place b ≡ xs ++ x ∷ q
      → (v'.state a ≡ some none) ⊎ (v'.asks (length (x ∷ q)) a ≡ true)
  asked a b xs x q d h k = elim (ℕ_discrete a f) [
    | yes e ↦
        let same : y ∷ p ≡ x ∷ q = sym s.place_self ∙ ap v'.place (sym e) ∙ h in
        let n : b ≢ f = λ c. d (e ∙ sym c) in
        let up : v.place b ≡ xs ++ y ∷ p =
          sym (s.place_other b n) ∙ k ∙ ap (λ t. xs ++ t) (sym same) in
        inr (
          subst (λ t. v'.asks (length t) a ≡ true) same
            (subst (λ t. v'.asks (suc (length p)) t ≡ true) (sym e)
              (s.asks_self (i.closed b xs y p up))))
    | no m ↦ elim (ℕ_discrete b f) [
      | yes e ↦
          asked_passed a xs x q m (sym (s.place_other a m) ∙ h)
            (sym s.place_self ∙ ap v'.place (sym e) ∙ k)
      | no n ↦
          asked_other a b xs x q m n d (sym (s.place_other a m) ∙ h) (sym (s.place_other b n) ∙ k)
    ]
  ]

  pub advance-IsView : IsView signature wanted v'
  advance-IsView = record {
    reads = reads;
    placed = placed;
    closed = closed;
    reached = reached;
    asked = asked;
    early = early;
    meant = meant;
    known = known;
    begun = begun;
  }
