-- ===== src/Bayan/Crawler/Skip.antt =====
-- A task that is ignored keeps what holds between tasks.
use cpp.Prelude.{
  ℕ, ◌<◌, ◌≡◌, ◌≢◌, ◌⊎◌, inl, inr, ap, sym, ◌∙◌, Bool, true, Option, none, some, List, [], ◌∷◌,
  arith, length,
}
use cpp.Bayan.Storage.{Node}
use cpp.Bayan.Crawler.{is_outdated}
use cpp.Bayan.Crawler.View.{View, state_of, IsView}

-- The state of a file that is read to its end, or beyond a block, is that of a node with more blocks.
outdated_node :
    (k : ℕ) (n : Node) (rest : List ℕ) (state : Option (Option ℕ))
    → state ≡ state_of n rest
    → is_outdated k state ≡ true
    → (n ≢ []) × ((state ≡ some none) ⊎ (k < length n))
unfolding is_outdated
outdated_node k [] rest s e o = ground (arith, e, o)
outdated_node k (x ∷ p) [] s e o = (λ h. cc, inl e)
outdated_node k (x ∷ p) (y ∷ rest) s e o = (λ h. cc, inr (ground (arith, e, o)))

module _ (signature : ℕ → List ℕ) (wanted : ℕ → Bool) (id f : ℕ) (v : View) (asks' : ℕ → ℕ → Bool)
    (i : IsView signature wanted v) (o : is_outdated id (v.state f) ≡ true)
    (fewer : (k g : ℕ) → asks' k g ≡ true → v.asks k g ≡ true)
    (kept : (k g : ℕ) → v.asks k g ≡ true → ((k ≡ id) × (g ≡ f)) ⊎ (asks' k g ≡ true)) where
  read_on : (v.place f ≢ []) × ((v.state f ≡ some none) ⊎ (id < length (v.place f)))
  read_on = let (rest, r, s) = i.reads f in outdated_node id (v.place f) rest (v.state f) s o

  still :
      (a k : ℕ)
      → length (v.place a) ≡ k
      → v.asks k a ≡ true
      → (v.state a ≡ some none) ⊎ (asks' k a ≡ true)
  still a k l h = elim (kept k a h) [
    | inl (e, g) ↦ elim read_on.1 [
      | inl d ↦ inl (ap v.state g ∙ d)
      | inr m ↦ absurd (omega (arith, m, l, e, ap (λ x. length (v.place x)) g))
    ]
    | inr e ↦ inr e
  ]

  pub skip-IsView : IsView signature wanted (record v { asks = asks' })
  skip-IsView = record {
    reads = i.reads;
    placed = i.placed;
    closed = i.closed;
    reached = i.reached;
    asked = λ a b xs x q d h k. elim (i.asked a b xs x q d h k) [
      | inl e ↦ inl e
      | inr e ↦ still a (length (x ∷ q)) (ap length h) e
    ];
    early = λ k g h. i.early k g (fewer k g h);
    meant = λ k g h. i.meant k g (fewer k g h);
    known = i.known;
    begun = λ g w. elim (i.begun g w) [
      | inl h ↦ inl h
      | inr a ↦ elim (kept 0 g a) [
        | inl (e, d) ↦ inl (λ h. read_on.0 (ap v.place (sym d) ∙ h))
        | inr b ↦ inr b
      ]
    ];
  }
