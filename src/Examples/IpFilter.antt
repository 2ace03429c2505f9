-- ===== src/Examples/IpFilter.antt =====
-- Lines with the addresses 1.2.3.4 and 46.70.0.255.
use cpp.Prelude.{
  inl, inr, refl, Bool, Bool-cases, false, ◌&&◌, if◌then◌else◌, ◌≡◌, List, [], ◌∷◌, map, arith, Str,
  bytes,
}
use cpp.Prelude.Result.{ok}
use cpp.IpFilter.{Sort, Address, parse_lines, has_octet, apply_filter, reverse_lexicographic_sort}
use cpp.IpFilter.Sorting.{
  count, NonePrecedes, Ordered, IsStrictWeak, IsSort, Descending, sort-Descending,
}
use cpp.IpFilter.RoundTrip.{lines_of, parse_lines-lines_of}

abbrev input : List (Address × Str)
input =
    (record { octet_0 = 1; octet_1 = 2; octet_2 = 3; octet_3 = 4 }, bytes "10.20.30.40")
    ∷ (record { octet_0 = 46; octet_1 = 70; octet_2 = 0; octet_3 = 255 }, [])
    ∷ []

parse_lines-lines_of_example : parse_lines (lines_of input) ≡ ok (map (λ line. line.0) input)
parse_lines-lines_of_example = parse_lines-lines_of input (
  (omega arith, omega arith, omega arith, omega arith),
  ((omega arith, omega arith, omega arith, omega arith), tt),
)

-- A sort that inserts one element after another.
abbrev insert : (Address → Address → Bool) → Address → List Address → List Address
insert less a [] = a ∷ []
insert less a (b ∷ items) =
    let rest = insert less a items in if less b a then b ∷ rest else a ∷ b ∷ items

abbrev insertion_sort : Sort
insertion_sort less [] = []
insertion_sort less (a ∷ items) = insert less a (insertion_sort less items)

count-insert :
    (less : Address → Address → Bool) (a : Address) (items : List Address) (p : Address → Bool)
    → count p (insert less a items) ≡ count p (a ∷ items)
unfolding count
count-insert less a [] p = refl
count-insert less a (b ∷ items) p = ground (arith, count-insert less a items p)

count-insertion_sort :
    (less : Address → Address → Bool) (items : List Address) (p : Address → Bool)
    → count p (insertion_sort less items) ≡ count p items
unfolding count
count-insertion_sort less [] p = refl
count-insertion_sort less (a ∷ items) p =
    ground
      (arith, count-insert less a (insertion_sort less items) p, count-insertion_sort less items p)

NonePrecedes-insert :
    (less : Address → Address → Bool) (a b : Address) (items : List Address)
    → less a b ≡ false
    → NonePrecedes less b items
    → NonePrecedes less b (insert less a items)
NonePrecedes-insert less a b [] h n = (h, tt)
NonePrecedes-insert less a b (c ∷ items) h n = elim (Bool-cases (less c a)) [
  | inl e ↦ rw (e) ((n.0, NonePrecedes-insert less a b items h n.1))
  | inr e ↦ rw (e) ((h, n))
]

NonePrecedes-before :
    (less : Address → Address → Bool) (a b : Address) (items : List Address)
    → IsStrictWeak less
    → less b a ≡ false
    → NonePrecedes less b items
    → NonePrecedes less a items
NonePrecedes-before less a b [] s h n = tt
NonePrecedes-before less a b (c ∷ items) s h n =
    (s.negatively_transitive c b a n.0 h, NonePrecedes-before less a b items s h n.1)

insert-Ordered :
    (less : Address → Address → Bool) (a : Address) (items : List Address)
    → IsStrictWeak less
    → Ordered less items
    → Ordered less (insert less a items)
insert-Ordered less a [] s o = (tt, tt)
insert-Ordered less a (b ∷ items) s o = elim (Bool-cases (less b a)) [
  | inl e ↦ rw (e) (
      (
        NonePrecedes-insert less a b items (s.asymmetric b a e) o.0,
        insert-Ordered less a items s o.1,
      ))
  | inr e ↦ rw (e) (((e, NonePrecedes-before less a b items s e o.0), o))
]

insertion_sort-Ordered :
    (less : Address → Address → Bool) (items : List Address)
    → IsStrictWeak less
    → Ordered less (insertion_sort less items)
insertion_sort-Ordered less [] s = tt
insertion_sort-Ordered less (a ∷ items) s =
    insert-Ordered less a (insertion_sort less items) s (insertion_sort-Ordered less items s)

insertion_sort-IsSort : IsSort insertion_sort
insertion_sort-IsSort = record { ordered = insertion_sort-Ordered; permutes = count-insertion_sort }

abbrev items : List Address
items = map (λ line. line.0) input

sort-Descending_example :
    Descending (reverse_lexicographic_sort insertion_sort items)
    × Descending (apply_filter (has_octet 46) (reverse_lexicographic_sort insertion_sort items))
    × (count (has_octet 1) (reverse_lexicographic_sort insertion_sort items)
        ≡ count (has_octet 1) items)
    × (count
          (has_octet 1)
          (apply_filter (has_octet 46) (reverse_lexicographic_sort insertion_sort items))
        ≡ count (λ a. has_octet 46 a && has_octet 1 a) items)
sort-Descending_example =
    sort-Descending insertion_sort items (has_octet 46) (has_octet 1) insertion_sort-IsSort (
      (omega arith, omega arith, omega arith, omega arith),
      ((omega arith, omega arith, omega arith, omega arith), tt),
    )
