-- ===== src/JoinServer/Table/Reads.antt =====
-- What transactions read of a table after each operation, and the invariant of its rows.
use cpp.Prelude.{
  ℕ, suc, ◌≤◌, ◌≡◌, refl, ◌∙◌, ◌&&◌, Option, none, some, [], ◌∷◌, arith, leb, ◌==◌, if◌then◌else◌,
}
use cpp.Prelude.Int.{ℤ, size_of_int}
use cpp.Prelude.OrdMap.{OrdMap, find, assign, Above, Ascending, find-assign, assign-Ascending}
use cpp.Prelude.Result.{ok}
use cpp.JoinServer.Value.{RowData, get_int}
use cpp.JoinServer.Row.{Row, get_version, add_version}
use cpp.JoinServer.Row.Snapshot.{Before, Before-le, IsWritten, add_version-IsWritten}
use cpp.JoinServer.Table.{
  Table, row_or_new, insert_existing, insert_new, insert_row, get_row, truncate_rows, truncate,
}

-- Every row was last written before the transaction `tx`.
abbrev pub RowsBefore : ℕ → OrdMap Row → Type 0
RowsBefore tx [] = Unit
RowsBefore tx ((k, r) ∷ m) = Before tx r.versions × RowsBefore tx m

-- The keys ascend, and every write came before the transaction `tx`.
pub record IsTable (tx : ℕ) (t : Table) : Type 0 where
  pub ascending : Ascending t.rows
  pub before : RowsBefore tx t.rows

RowsBefore-find :
    (tx k : ℕ) (m : OrdMap Row) → RowsBefore tx m → Before tx (row_or_new (find k m)).versions
unfolding find
RowsBefore-find tx k [] b = tt
RowsBefore-find tx k ((j, r) ∷ m) b = ground (arith, RowsBefore-find tx k m b.1)

pub RowsBefore-le : (a b : ℕ) (m : OrdMap Row) → a ≤ b → RowsBefore a m → RowsBefore b m
RowsBefore-le a b [] h k = tt
RowsBefore-le a b ((j, r) ∷ m) h k = (Before-le a b r.versions h k.0, RowsBefore-le a b m h k.1)

RowsBefore-assign :
    (tx k : ℕ) (r : Row) (m : OrdMap Row)
    → Before tx r.versions
    → RowsBefore tx m
    → RowsBefore tx (assign k r m)
unfolding assign
RowsBefore-assign tx k r [] h b = (h, tt)
RowsBefore-assign tx k r ((j, w) ∷ m) h b = ground (arith, RowsBefore-assign tx k r m h b.1)

-- What an insertion by the transaction `tx` makes of the table `t`.
pub record IsInserted (tx id : ℕ) (row : RowData) (t t' : Table) : Type 0 where
  pub table : IsTable (suc tx) t'
  pub reads :
      (x j : ℕ) → get_row x j t' ≡ (if (j == id) && leb tx x then some row else get_row x j t)

insert_new-eq-insert :
    (tx id : ℕ) (row : RowData) (t : Table)
    → elim (insert_existing tx id row t) [ none ↦ insert_new tx id row t | some r ↦ r ]
      ≡ insert_new tx id row t
unfolding insert_existing insert_new
insert_new-eq-insert tx id row t = ground arith

new-reads :
    (x : ℕ) (o : Option Row)
    → get_version x (row_or_new o) ≡ (elim o [ none ↦ none | some r ↦ get_version x r ])
unfolding get_version
new-reads x none = refl
new-reads x (some r) = refl

assigned-IsInserted :
    (tx id : ℕ) (row : RowData) (t : Table) (r' : Row)
    → IsTable tx t
    → IsWritten tx (some row) (row_or_new (find id t.rows)) r'
    → IsInserted tx id row t (record { rows = assign id r' t.rows })
unfolding get_row
assigned-IsInserted tx id row t r' v w = record {
  table = record {
    ascending = assign-Ascending id r' t.rows v.ascending;
    before =
        RowsBefore-assign (suc tx) id r' t.rows w.before
          (RowsBefore-le tx (suc tx) t.rows (omega arith) v.before);
  };
  reads =
      λ x j. ground (arith, find-assign j id r' t.rows, w.reads x, new-reads x (find id t.rows));
}

pub insert_row-eq-insert_new :
    (tx : ℕ) (row : RowData) (key : ℤ) (t : Table)
    → get_int row 0 ≡ ok key
    → insert_row tx row t ≡ insert_new tx (size_of_int key) row t
unfolding insert_row
insert_row-eq-insert_new tx row key t k = rw k (insert_new-eq-insert tx (size_of_int key) row t)

insert_new-assign :
    (tx id : ℕ) (row : RowData) (t : Table) (r' : Row)
    → add_version tx (some row) (row_or_new (find id t.rows)) ≡ ok r'
    → insert_new tx id row t ≡ ok (record { rows = assign id r' t.rows })
unfolding insert_new
insert_new-assign tx id row t r' e = rw e

-- Into a table written before the transaction, a row whose first cell is an int is inserted; the
-- table stays valid, from that transaction on the row is read under its key, and nothing else that
-- any transaction reads changes.
pub insert_row-IsInserted :
    (tx : ℕ) (row : RowData) (key : ℤ) (t : Table)
    → IsTable tx t
    → get_int row 0 ≡ ok key
    → (t' : Table) × (insert_row tx row t ≡ ok t') × IsInserted tx (size_of_int key) row t t'
insert_row-IsInserted tx row key t v k =
    let id = size_of_int key in
    let (r', e, w) =
      add_version-IsWritten tx (some row) (row_or_new (find id t.rows))
        (RowsBefore-find tx id t.rows v.before) (key, k) in
    (
      record { rows = assign id r' t.rows },
      insert_row-eq-insert_new tx row key t k ∙ insert_new-assign tx id row t r' e,
      assigned-IsInserted tx id row t r' v w,
    )

-- What `Truncate` by the transaction `tx` makes of the rows `m`.
record IsTruncated (tx : ℕ) (m m' : OrdMap Row) : Type 0 where
  above : (k : ℕ) → Above k m → Above k m'
  ascending : Ascending m → Ascending m'
  before : RowsBefore (suc tx) m'
  reads :
      (x j : ℕ)
      → get_row x j (record { rows = m' })
        ≡ (if leb tx x then none else get_row x j (record { rows = m }))

truncate_rows-IsTruncated :
    (tx : ℕ) (m : OrdMap Row)
    → RowsBefore tx m
    → (m' : OrdMap Row) × (truncate_rows tx m ≡ ok m') × IsTruncated tx m m'
unfolding truncate_rows get_row find
truncate_rows-IsTruncated tx [] b = (
  [],
  refl,
  record { above = λ k a. tt; ascending = λ a. tt; before = tt; reads = λ x j. ground arith },
)
truncate_rows-IsTruncated tx ((k, r) ∷ m) b =
    let (r', e, w) = add_version-IsWritten tx none r b.0 tt in
    let (m', f, u) = truncate_rows-IsTruncated tx m b.1 in
    (
      (k, r') ∷ m',
      rw (e, f),
      record {
        above = λ i a. (a.0, u.above i a.1);
        ascending = λ a. (u.above k a.0, u.ascending a.1);
        before = (w.before, u.before);
        reads = λ x j. ground (arith, w.reads x, u.reads x j);
      },
    )

-- TRUNCATE of a table written before the transaction is accepted; from that transaction on no row
-- is read, earlier transactions read what they read before, and the table stays valid.
pub truncate-reads :
    (tx : ℕ) (t : Table)
    → IsTable tx t
    → (t' : Table) × (truncate tx t ≡ ok t')
      × IsTable (suc tx) t'
      × ((x j : ℕ) → get_row x j t' ≡ (if leb tx x then none else get_row x j t))
unfolding truncate
truncate-reads tx t v =
    let (m', e, u) = truncate_rows-IsTruncated tx t.rows v.before in
    (
      record { rows = m' },
      rw e,
      record { ascending = u.ascending v.ascending; before = u.before },
      u.reads,
    )
