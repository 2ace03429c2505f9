-- ===== src/JoinServer/Row/Snapshot.antt =====
-- What a transaction sees of a row: the version written by the last transaction not after it.
use cpp.Prelude.{
  ℕ, suc, ◌≤◌, ◌<◌, ◌≡◌, refl, Option, none, some, List, [], ◌∷◌, ◌++◌, arith, leb, if◌then◌else◌,
}
use cpp.Prelude.Int.{ℤ}
use cpp.Prelude.Result.{ok, throw, assertion_failed}
use cpp.JoinServer.Value.{RowData, get_int}
use cpp.JoinServer.Row.{RowVersion, Row, find_version, get_version, back, push_version, add_version}

-- Every version was written before the transaction `tx`.
abbrev pub Before : ℕ → List RowVersion → Type 0
Before tx [] = Unit
Before tx (v ∷ rest) = (v.tx_id < tx) × Before tx rest

-- The first cell is an `int`: `add_version` accepts such data, and removals.
abbrev pub HasKey : Option RowData → Type 0
HasKey none = Unit
HasKey (some row) = (k : ℤ) × (get_int row 0 ≡ ok k)

appended : ℕ → Option RowData → Row → Row
appended tx row r = record { versions = r.versions ++ record { tx_id = tx; row_data = row } ∷ [] }

find_version-append :
    (tx : ℕ) (last : Option RowVersion) (vs : List RowVersion) (v : RowVersion)
    → Before v.tx_id vs
    → find_version tx last (vs ++ v ∷ [])
      ≡ (if leb v.tx_id tx then some v else find_version tx last vs)
unfolding find_version
find_version-append tx last [] v b = refl
find_version-append tx last (w ∷ vs) v b = ground (arith, find_version-append tx (some w) vs v b.1)

Before-back :
    (tx : ℕ) (v : RowVersion) (rest : List RowVersion)
    → Before tx (v ∷ rest)
    → (back v rest).tx_id < tx
Before-back tx v [] b = b.0
Before-back tx v (w ∷ rest) b = Before-back tx w rest b.1

pub Before-le : (a b : ℕ) (vs : List RowVersion) → a ≤ b → Before a vs → Before b vs
Before-le a b [] h k = tt
Before-le a b (v ∷ vs) h k = (omega arith, Before-le a b vs h k.1)

pub Before-append :
    (tx : ℕ) (vs : List RowVersion) (v : RowVersion)
    → v.tx_id < tx
    → Before tx vs
    → Before tx (vs ++ v ∷ [])
Before-append tx [] v h b = (h, tt)
Before-append tx (w ∷ vs) v h b = (b.0, Before-append tx vs v h b.1)

-- What a write by the transaction `tx` makes of the row `r`.
pub record IsWritten (tx : ℕ) (row : Option RowData) (r r' : Row) : Type 0 where
  pub before : Before (suc tx) r'.versions
  pub reads : (t : ℕ) → get_version t r' ≡ (if leb tx t then row else get_version t r)

push_version-append :
    (tx : ℕ) (row : Option RowData) (vs : List RowVersion)
    → Before tx vs
    → push_version tx row vs
      ≡ ok (record { versions = vs ++ record { tx_id = tx; row_data = row } ∷ [] })
push_version-append tx row [] b = refl
push_version-append tx row (v ∷ rest) b = ground (arith, Before-back tx v rest b)

add_version-append :
    (tx : ℕ) (row : Option RowData) (r : Row)
    → Before tx r.versions
    → HasKey row
    → add_version tx row r ≡ ok (appended tx row r)
unfolding add_version appended
add_version-append tx none r b k = push_version-append tx none r.versions b
add_version-append tx (some row) r b k = rw k.1 (push_version-append tx (some row) r.versions b)

appended-IsWritten :
    (tx : ℕ) (row : Option RowData) (r : Row)
    → Before tx r.versions
    → IsWritten tx row r (appended tx row r)
unfolding get_version appended
appended-IsWritten tx row r b = record {
  before =
      Before-append (suc tx) r.versions (record { tx_id = tx; row_data = row }) (omega arith)
        (Before-le tx (suc tx) r.versions (omega arith) b);
  reads = λ t.
      ground
        (arith, find_version-append t none r.versions (record { tx_id = tx; row_data = row }) b);
}

-- A version added to a row after all its versions is accepted; from its transaction on the row
-- reads as what was written, and earlier transactions read what they read before.
pub add_version-IsWritten :
    (tx : ℕ) (row : Option RowData) (r : Row)
    → Before tx r.versions
    → HasKey row
    → (r' : Row) × (add_version tx row r ≡ ok r') × IsWritten tx row r r'
add_version-IsWritten tx row r b k =
    (appended tx row r, add_version-append tx row r b k, appended-IsWritten tx row r b)

-- A write by a transaction that is not after the last version fails the assertion.
pub add_version-assertion_failed :
    (tx : ℕ) (row : Option RowData) (v : RowVersion) (rest : List RowVersion)
    → HasKey row
    → tx ≤ (back v rest).tx_id
    → add_version tx row (record { versions = v ∷ rest }) ≡ throw assertion_failed
unfolding add_version
add_version-assertion_failed tx none v rest k h = ground arith
add_version-assertion_failed tx (some row) v rest k h = rw k.1 (ground arith)
