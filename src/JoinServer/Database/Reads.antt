-- ===== src/JoinServer/Database/Reads.antt =====
-- What transactions read of the database's tables, and the invariant of the tables.
use cpp.Prelude.{
  ℕ, suc, ◌≤◌, ◌<◌, ◌≡◌, refl, ◌&&◌, Option, none, some, List, [], ◌∷◌, arith, leb, ◌==◌,
  if◌then◌else◌, length, Str, str_eq, str_eq_iff, Bool-cases, inl, inr,
}
use mathlib.Core.Path.{subst}
use cpp.Prelude.Int.{ℤ, size_of_int}
use cpp.Prelude.OrdMap.{find}
use cpp.Prelude.Result.{ok}
use cpp.JoinServer.Value.{Value, RowData, get_int}
use cpp.JoinServer.Table.{Table, make_table, insert_row, get_row, truncate}
use cpp.JoinServer.Table.Reads.{IsTable, RowsBefore-le, insert_row-IsInserted, truncate-reads}
use cpp.JoinServer.Database.{Tables, find_table, update_table}

-- The row under the key `j` of the table `name`, as the transaction `x` reads it.
abbrev pub get_row_of : ℕ → ℕ → Option Table → Option RowData
get_row_of x j none = none
get_row_of x j (some t) = get_row x j t

unfoldable pub read : ℕ → Tables → Str → ℕ → Option RowData
read x ts name j = get_row_of x j (find_table name ts)

-- A table that was written before `tx`, and whose rows are never without a cell.
pub record IsStored (tx : ℕ) (t : Table) : Type 0 where
  pub table : IsTable tx t
  pub filled : (x j : ℕ) (row : RowData) → get_row x j t ≡ some row → 0 < length row.values

abbrev pub AllStored : ℕ → Tables → Type 0
AllStored tx [] = Unit
AllStored tx ((name, t) ∷ ts) = IsStored tx t × AllStored tx ts

pub AllStored-find :
    (tx : ℕ) (name : Str) (ts : Tables) (t : Table)
    → AllStored tx ts
    → find_table name ts ≡ some t
    → IsStored tx t
unfolding find_table
AllStored-find tx name [] t a e = cc
AllStored-find tx name ((other, u) ∷ ts) t a e = elim (Bool-cases (str_eq name other)) [
  | inl p ↦ subst (IsStored tx) (ground (arith, e, p)) a.0
  | inr p ↦ AllStored-find tx name ts t a.1 (rw p at e)
]

AllStored-update :
    (tx : ℕ) (name : Str) (ts : Tables) (t : Table)
    → AllStored tx ts
    → IsStored tx t
    → AllStored tx (update_table name t ts)
unfolding update_table
AllStored-update tx name [] t a s = tt
AllStored-update tx name ((other, u) ∷ ts) t a s =
    ground (arith, AllStored-update tx name ts t a.1 s)

find_table-update_table :
    (name n : Str) (ts : Tables) (t t' : Table)
    → find_table name ts ≡ some t
    → find_table n (update_table name t' ts) ≡ (if str_eq n name then some t' else find_table n ts)
unfolding find_table update_table
find_table-update_table name n [] t t' e = cc
find_table-update_table name n ((other, u) ∷ ts) t t' e = ground (
  arith,
  find_table-update_table name n ts t t',
  str_eq_iff n other,
  str_eq_iff name other,
  str_eq_iff n name,
)

pub read-update_table :
    (x j : ℕ) (name n : Str) (ts : Tables) (t t' : Table)
    → find_table name ts ≡ some t
    → read x (update_table name t' ts) n j
      ≡ (if str_eq n name then get_row x j t' else read x ts n j)
unfolding read
read-update_table x j name n ts t t' e =
    rw (find_table-update_table name n ts t t' e) (ground arith)

IsStored-le : (a b : ℕ) (t : Table) → a ≤ b → IsStored a t → IsStored b t
IsStored-le a b t h s = record {
  table = record {
    ascending = s.table.ascending;
    before = RowsBefore-le a b t.rows h s.table.before;
  };
  filled = s.filled;
}

pub AllStored-le : (a b : ℕ) (ts : Tables) → a ≤ b → AllStored a ts → AllStored b ts
AllStored-le a b [] h s = tt
AllStored-le a b ((name, t) ∷ ts) h s = (IsStored-le a b t h s.0, AllStored-le a b ts h s.1)

read-found :
    (x j : ℕ) (name : Str) (ts : Tables) (t : Table)
    → find_table name ts ≡ some t
    → read x ts name j ≡ get_row x j t
unfolding read
read-found x j name ts t e = rw e

-- Row data that `InsertRow` accepts: the first cell is the key.
abbrev pub HasKey : RowData → Type 0
HasKey row = (key : ℤ) × (get_int row 0 ≡ ok key)

HasKey-length : (row : RowData) (key : ℤ) → get_int row 0 ≡ ok key → 0 < length row.values
unfolding get_int
HasKey-length row key k = go row.values k
  where
    go : (vs : List Value) → get_int (record { values = vs }) 0 ≡ ok key → 0 < length vs
    go [] e = cc
    go (v ∷ vs) e = omega arith

-- The tables after a write by `tx` to the table `name`, as a function of the reads before.
pub record IsUpdated (tx : ℕ) (name : Str) (written : ℕ → Option RowData → Option RowData)
    (ts ts' : Tables) : Type 0 where
  pub stored : AllStored (suc tx) ts'
  pub reads :
      (x : ℕ) (n : Str) (j : ℕ)
      → read x ts' n j
        ≡ (if str_eq n name && leb tx x then written j (read x ts n j) else read x ts n j)

abbrev pub write_row : ℤ → RowData → ℕ → Option RowData → Option RowData
write_row key row j old = if j == size_of_int key then some row else old

pub insert_row-IsUpdated :
    (tx : ℕ) (name : Str) (row : RowData) (key : ℤ) (ts : Tables) (t : Table)
    → AllStored tx ts
    → find_table name ts ≡ some t
    → get_int row 0 ≡ ok key
    → (t' : Table) × (insert_row tx row t ≡ ok t')
      × IsUpdated tx name (write_row key row) ts (update_table name t' ts)
insert_row-IsUpdated tx name row key ts t a e k =
    let s = AllStored-find tx name ts t a e in
    let (t', f, i) = insert_row-IsInserted tx row key t s.table k in
    (
      t',
      f,
      record {
        stored =
            AllStored-update (suc tx) name ts t' (AllStored-le tx (suc tx) ts (omega arith) a)
              (record {
                table = i.table;
                filled =
                    λ x j r p. ground (arith, i.reads x j, s.filled x j r, HasKey-length row key k);
              });
        reads = λ x n j. ground (
          arith,
          read-update_table x j name n ts t t' e,
          i.reads x j,
          str_eq_iff n name,
          read-found x j n ts t,
        );
      },
    )

pub truncate-IsUpdated :
    (tx : ℕ) (name : Str) (ts : Tables) (t : Table)
    → AllStored tx ts
    → find_table name ts ≡ some t
    → (t' : Table) × (truncate tx t ≡ ok t')
      × IsUpdated tx name (λ j old. none) ts (update_table name t' ts)
truncate-IsUpdated tx name ts t a e =
    let s = AllStored-find tx name ts t a e in
    let (t', f, v, r) = truncate-reads tx t s.table in
    (
      t',
      f,
      record {
        stored =
            AllStored-update (suc tx) name ts t' (AllStored-le tx (suc tx) ts (omega arith) a)
              (record { table = v; filled = λ x j row p. ground (arith, r x j, s.filled x j row) });
        reads = λ x n j. ground (
          arith,
          read-update_table x j name n ts t t' e,
          r x j,
          str_eq_iff n name,
          read-found x j n ts t,
        );
      },
    )

read-make_table : (x j : ℕ) → get_row x j make_table ≡ none
unfolding get_row find
read-make_table x j = refl

-- The first row of a table that is not there yet makes the table.
pub make_table-IsUpdated :
    (tx : ℕ) (name : Str) (row : RowData) (key : ℤ) (ts : Tables)
    → AllStored tx ts
    → find_table name ts ≡ none
    → get_int row 0 ≡ ok key
    → (t' : Table) × (insert_row tx row make_table ≡ ok t')
      × IsUpdated tx name (write_row key row) ts ((name, t') ∷ ts)
unfolding read find_table
make_table-IsUpdated tx name row key ts a e k =
    let (t', f, i) =
      insert_row-IsInserted tx row key make_table (record { ascending = tt; before = tt }) k in
    (
      t',
      f,
      record {
        stored = (
          record {
            table = i.table;
            filled = λ x j r p.
                ground (arith, i.reads x j, read-make_table x j, HasKey-length row key k);
          },
          AllStored-le tx (suc tx) ts (omega arith) a,
        );
        reads = λ x n j. ground (arith, i.reads x j, str_eq_iff n name, read-make_table x j);
      },
    )
