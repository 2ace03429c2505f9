-- ===== src/IpFilter/Sorting.antt =====
-- The sorted list of addresses, and what is filtered of it.
use mathlib.Core.List.{reverse, reverse-cons}
use cpp.Prelude.{
  inl, inr, ℕ, ◌+◌, ◌*◌, ◌≤◌, ◌≡◌, refl, ◌∙◌, Bool, Bool-cases, true, false, ◌&&◌, not, List, [],
  ◌∷◌, ◌++◌, arith, ltb, if◌then◌else◌,
}
use cpp.IpFilter.{Address, address_less, Sort, reverse_lexicographic_sort, apply_filter}
use cpp.IpFilter.RoundTrip.{IsAddress}

-- How many addresses of a list satisfy a test.
unfoldable pub count : (Address → Bool) → List Address → ℕ
count p [] = 0
count p (a ∷ items) = (if p a then 1 else 0) + count p items

-- No address after the first one precedes it, and so on.
abbrev pub NonePrecedes : (Address → Address → Bool) → Address → List Address → Type 0
NonePrecedes less a [] = Unit
NonePrecedes less a (b ∷ items) = (less b a ≡ false) × NonePrecedes less a items

abbrev pub Ordered : (Address → Address → Bool) → List Address → Type 0
Ordered less [] = Unit
Ordered less (a ∷ items) = NonePrecedes less a items × Ordered less items

-- What `std::sort` asks of an order: a strict weak order.
pub record IsStrictWeak (less : Address → Address → Bool) : Type 0 where
  pub asymmetric : (a b : Address) → less a b ≡ true → less b a ≡ false
  pub negatively_transitive :
      (a b c : Address) → less a b ≡ false → less b c ≡ false → less a c ≡ false

-- What `std::sort` promises: the elements are in order, and they are those that were there.
pub record IsSort (sort : Sort) : Type 0 where
  pub ordered :
      (less : Address → Address → Bool) (items : List Address)
      → IsStrictWeak less
      → Ordered less (sort less items)
  pub permutes :
      (less : Address → Address → Bool) (items : List Address) (p : Address → Bool)
      → count p (sort less items) ≡ count p items

address_less-IsStrictWeak : IsStrictWeak address_less
unfolding address_less
address_less-IsStrictWeak = record {
  asymmetric = λ a b h. ground (arith, h);
  negatively_transitive = λ a b c h k. ground (arith, h, k);
}

-- An address as a number of 32 bits.
abbrev pub value : Address → ℕ
value a = ((a.octet_0 * 256 + a.octet_1) * 256 + a.octet_2) * 256 + a.octet_3

address_less-value :
    (a b : Address) → IsAddress a → IsAddress b → address_less b a ≡ false → value a ≤ value b
unfolding address_less
address_less-value a b h k l = ground (arith, h, k, l)

abbrev pub AllAddresses : List Address → Type 0
AllAddresses [] = Unit
AllAddresses (a ∷ items) = IsAddress a × AllAddresses items

abbrev pub AllBelow : ℕ → List Address → Type 0
AllBelow v [] = Unit
AllBelow v (b ∷ items) = (value b ≤ v) × AllBelow v items

-- The numbers of the addresses descend.
abbrev pub Descending : List Address → Type 0
Descending [] = Unit
Descending (a ∷ items) = AllBelow (value a) items × Descending items

-- Whether the octets are those of an address.
is_address : Address → Bool
is_address a = ltb a.octet_0 256 && (ltb a.octet_1 256 && (ltb a.octet_2 256 && ltb a.octet_3 256))

AllAddresses-count :
    (items : List Address) → AllAddresses items → count (λ a. not (is_address a)) items ≡ 0
unfolding count is_address
AllAddresses-count [] h = refl
AllAddresses-count (a ∷ items) h = ground (arith, h.0, AllAddresses-count items h.1)

count-AllAddresses :
    (items : List Address) → count (λ a. not (is_address a)) items ≡ 0 → AllAddresses items
unfolding count is_address
count-AllAddresses [] h = tt
count-AllAddresses (a ∷ items) h = elim (Bool-cases (is_address a)) [
  | inl e ↦ (ground (arith, e), count-AllAddresses items (ground (arith, e, h)))
  | inr e ↦ absurd (ground (arith, e, h))
]

count-append :
    (p : Address → Bool) (xs ys : List Address) → count p (xs ++ ys) ≡ count p xs + count p ys
unfolding count
count-append p [] ys = omega arith
count-append p (a ∷ xs) ys = ground (arith, count-append p xs ys)

count-reverse :
    (p : Address → Bool) (items : List Address) → count p (reverse items) ≡ count p items
unfolding count
count-reverse p [] = refl
count-reverse p (a ∷ items) =
    rw (reverse-cons a items)
      (ground (arith, count-append p (reverse items) (a ∷ []), count-reverse p items))

-- All addresses of a list are at least a number.
abbrev AllAbove : ℕ → List Address → Type 0
AllAbove v [] = Unit
AllAbove v (b ∷ items) = (v ≤ value b) × AllAbove v items

AllAbove-append :
    (v : ℕ) (xs ys : List Address) → AllAbove v xs → AllAbove v ys → AllAbove v (xs ++ ys)
AllAbove-append v [] ys h k = k
AllAbove-append v (a ∷ xs) ys h k = (h.0, AllAbove-append v xs ys h.1 k)

AllAbove-reverse : (v : ℕ) (items : List Address) → AllAbove v items → AllAbove v (reverse items)
AllAbove-reverse v [] h = tt
AllAbove-reverse v (a ∷ items) h =
    rw (reverse-cons a items)
      (AllAbove-append v (reverse items) (a ∷ []) (AllAbove-reverse v items h.1) (h.0, tt))

AllBelow-append :
    (v : ℕ) (xs ys : List Address) → AllBelow v xs → AllBelow v ys → AllBelow v (xs ++ ys)
AllBelow-append v [] ys h k = k
AllBelow-append v (a ∷ xs) ys h k = (h.0, AllBelow-append v xs ys h.1 k)

Descending-append_one :
    (a : Address) (xs : List Address)
    → Descending xs
    → AllAbove (value a) xs
    → Descending (xs ++ a ∷ [])
Descending-append_one a [] d h = (tt, tt)
Descending-append_one a (b ∷ xs) d h =
    (AllBelow-append (value b) xs (a ∷ []) d.0 (h.0, tt), Descending-append_one a xs d.1 h.1)

NonePrecedes-AllAbove :
    (a : Address) (items : List Address)
    → IsAddress a
    → AllAddresses items
    → NonePrecedes address_less a items
    → AllAbove (value a) items
NonePrecedes-AllAbove a [] h k n = tt
NonePrecedes-AllAbove a (b ∷ items) h k n =
    (address_less-value a b h k.0 n.0, NonePrecedes-AllAbove a items h k.1 n.1)

Ordered-Descending :
    (items : List Address)
    → AllAddresses items
    → Ordered address_less items
    → Descending (reverse items)
Ordered-Descending [] h o = tt
Ordered-Descending (a ∷ items) h o = rw (reverse-cons a items) (
    Descending-append_one a (reverse items) (Ordered-Descending items h.1 o.1)
      (AllAbove-reverse (value a) items (NonePrecedes-AllAbove a items h.0 h.1 o.0)))

AllBelow-apply_filter :
    (keeps : Address → Bool) (v : ℕ) (items : List Address)
    → AllBelow v items
    → AllBelow v (apply_filter keeps items)
unfolding apply_filter
AllBelow-apply_filter keeps v [] h = tt
AllBelow-apply_filter keeps v (a ∷ items) h = elim (Bool-cases (keeps a)) [
  | inl e ↦ rw (e) ((h.0, AllBelow-apply_filter keeps v items h.1))
  | inr e ↦ rw (e) (AllBelow-apply_filter keeps v items h.1)
]

Descending-apply_filter :
    (keeps : Address → Bool) (items : List Address)
    → Descending items
    → Descending (apply_filter keeps items)
unfolding apply_filter
Descending-apply_filter keeps [] d = tt
Descending-apply_filter keeps (a ∷ items) d = elim (Bool-cases (keeps a)) [
  | inl e ↦
      rw (e)
        ((AllBelow-apply_filter keeps (value a) items d.0, Descending-apply_filter keeps items d.1))
  | inr e ↦ rw (e) (Descending-apply_filter keeps items d.1)
]

count-apply_filter :
    (p keeps : Address → Bool) (items : List Address)
    → count p (apply_filter keeps items) ≡ count (λ a. keeps a && p a) items
unfolding count apply_filter
count-apply_filter p keeps [] = refl
count-apply_filter p keeps (a ∷ items) = ground (arith, count-apply_filter p keeps items)

-- With a sort that does what std::sort promises, addresses with octets below 256 are sorted by their
-- numbers in descending order, and what a filter takes of them is in that order too; a test holds of as
-- many addresses as before, and of what the filter takes, of as many as satisfy both.
pub sort-Descending :
    (sort : Sort) (items : List Address) (keeps p : Address → Bool)
    → IsSort sort
    → AllAddresses items
    → Descending (reverse_lexicographic_sort sort items)
      × Descending (apply_filter keeps (reverse_lexicographic_sort sort items))
      × (count p (reverse_lexicographic_sort sort items) ≡ count p items)
      × (count p (apply_filter keeps (reverse_lexicographic_sort sort items))
          ≡ count (λ a. keeps a && p a) items)
unfolding reverse_lexicographic_sort
sort-Descending sort items keeps p s h =
    let sorted = sort address_less (reverse items) in
    let same : (q : Address → Bool) → count q (reverse sorted) ≡ count q items = λ q.
      count-reverse q sorted
      ∙ (s.permutes address_less (reverse items) q ∙ count-reverse q items) in
    let a = count-AllAddresses sorted (
      s.permutes address_less (reverse items) (λ b. not (is_address b))
      ∙ (count-reverse (λ b. not (is_address b)) items ∙ AllAddresses-count items h)) in
    let d =
      Ordered-Descending sorted a
        (s.ordered address_less (reverse items) address_less-IsStrictWeak) in
    (
      d,
      Descending-apply_filter keeps (reverse sorted) d,
      same p,
      count-apply_filter p keeps (reverse sorted) ∙ same (λ b. keeps b && p b),
    )
