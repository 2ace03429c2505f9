-- ===== src/JoinServer/Row.antt =====
-- The versions of one row: 11_join_server/table.hpp and table.cpp (`TRowVersion`, `TRow`).
-- The mutex is not modelled: each operation is one atomic step.
pub mod Snapshot
use cpp.Prelude.{
  ℕ, ◌≤◌, ◌<◌, ◌≡◌, refl, Bool, true, false, Option, none, some, List, [], ◌∷◌, ◌++◌, arith, ltb,
  leb, if◌then◌else◌,
}
use cpp.Prelude.Int.{ℤ, pos, negsuc}
use cpp.Prelude.Result.{Result, ok, throw, assertion_failed, ◌>>=◌, ◌>>◌}
use cpp.JoinServer.Value.{RowData, get_int}

pub record RowVersion : Type 0 where
  pub tx_id : ℕ
  pub row_data : Option RowData

pub record Row : Type 0 where
  pub versions : List RowVersion

abbrev pub new_row : Row
new_row = record { versions = [] }

-- The loop of `GetVersion`; `last_valid` is the iterator, with `none` for `end()`.
unfoldable pub find_version : ℕ → Option RowVersion → List RowVersion → Option RowVersion
find_version tx last_valid [] = last_valid
find_version tx last_valid (current ∷ rest) =
    let further = find_version tx (some current) rest in
    if leb current.tx_id tx then further else last_valid

-- The data of the version found; a removed row and a missing version both give `nullopt`.
abbrev data_of : Option RowVersion → Option RowData
data_of none = none
data_of (some v) = v.row_data

unfoldable pub get_version : ℕ → Row → Option RowData
unfolding find_version
get_version tx r = data_of (find_version tx none r.versions)

-- `Versions_.back()`
abbrev pub back : RowVersion → List RowVersion → RowVersion
back v [] = v
back v (w ∷ rest) = back w rest

-- `rowData->Get<int>(0)` for a row that is present, -1 for a removal.
abbrev pub key_or_minus_one : Option RowData → Result ℤ
key_or_minus_one none = ok (negsuc 0)
key_or_minus_one (some row) = get_int row 0

abbrev pub push_version : ℕ → Option RowData → List RowVersion → Result Row
push_version tx row [] = ok (record { versions = record { tx_id = tx; row_data = row } ∷ [] })
push_version tx row (v ∷ rest) =
    if ltb (back v rest).tx_id tx
    then ok (record { versions = (v ∷ rest) ++ record { tx_id = tx; row_data = row } ∷ [] })
    else throw assertion_failed

-- `AddVesion`: versions are appended, and must come in the order of their transactions.
unfoldable pub add_version : ℕ → Option RowData → Row → Result Row
add_version tx row r = do t ← key_or_minus_one row; push_version tx row r.versions
