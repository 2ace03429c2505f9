-- ===== src/Bayan/Storage.antt =====
-- The tree of block checksums: 08_bayan/block_checksum_storage.hpp and block_checksum_storage.cpp.
-- Files and checksums are numbers. A node is named by the checksums from it up to the root, which is
-- `[]`; the map of nodes gives the files for which a node is the last block.
pub mod Maps
pub mod Groups
use cpp.Prelude.{
  ℕ, ◌+◌, Bool, Option, none, some, List, [], ◌∷◌, ◌++◌, ltb, ◌==◌, if◌then◌else◌, length, str_eq,
}
use cpp.Prelude.OrdMap.{OrdMap, find, assign}
use cpp.Prelude.Result.{Result, ok, throw, assertion_failed}

abbrev pub Node : Type 0
Node = List ℕ

-- `TBlockChecksumStorage`
pub record Storage : Type 0 where
  pub nodes : List (Node × List ℕ)
  pub filenames : OrdMap Node
  pub empty_files : List ℕ

abbrev pub empty_storage : Storage
empty_storage = record { nodes = []; filenames = []; empty_files = [] }

-- `IsTrailingBlockForFilenames` of a node, if there is such a node.
unfoldable pub trailing : Node → List (Node × List ℕ) → Option (List ℕ)
trailing n [] = none
trailing n ((m, files) ∷ nodes) = if str_eq n m then some files else trailing n nodes

unfoldable pub set_trailing : Node → List ℕ → List (Node × List ℕ) → List (Node × List ℕ)
set_trailing n files [] = (n, files) ∷ []
set_trailing n files ((m, old) ∷ nodes) =
    let rest = set_trailing n files nodes in
    if str_eq n m then (m, files) ∷ nodes else (m, old) ∷ rest

-- `emplace` into a set, and `erase` from it.
unfoldable pub emplace : ℕ → List ℕ → List ℕ
emplace f [] = f ∷ []
emplace f (g ∷ files) = let rest = emplace f files in if f == g then g ∷ files else g ∷ rest

unfoldable pub erase_file : ℕ → List ℕ → List ℕ
erase_file f [] = []
erase_file f (g ∷ files) = let rest = erase_file f files in if f == g then rest else g ∷ rest

-- `parent->IsTrailingBlockForFilenames.erase(filename)`
unfoldable pub erase_trailing : Node → ℕ → List (Node × List ℕ) → List (Node × List ℕ)
unfolding erase_file
erase_trailing n f [] = []
erase_trailing n f ((m, files) ∷ nodes) =
    let rest = erase_trailing n f nodes in
    if str_eq n m then (m, erase_file f files) ∷ nodes else (m, files) ∷ rest

-- `TRegisterResult`
pub record RegisterResult : Type 0 where
  pub block_id : ℕ
  pub files : List ℕ

-- `Register` below the node `parent`.
unfoldable pub register_below : Node → ℕ → ℕ → ℕ → Storage → Storage × Option RegisterResult
unfolding trailing set_trailing emplace erase_trailing
register_below parent f id checksum s = elim (trailing (checksum ∷ parent) s.nodes) [
  | none ↦ (
    record s {
      nodes = erase_trailing parent f (set_trailing (checksum ∷ parent) (f ∷ []) s.nodes);
      filenames = assign f (checksum ∷ parent) s.filenames;
    },
    none,
  )
  | some files ↦ (
    record s {
      nodes = set_trailing (checksum ∷ parent) (emplace f files) s.nodes;
      filenames = assign f (checksum ∷ parent) s.filenames;
    },
    some (record { block_id = id + 1; files = emplace f files }),
  )
]

-- `Register`. The second assertion is an assignment, which changes nothing that is read.
unfoldable pub register : ℕ → ℕ → ℕ → Storage → Result (Storage × Option RegisterResult)
unfolding register_below
register f id checksum s = elim (find f s.filenames) [
  | none ↦ if id == 0 then ok (register_below [] f id checksum s) else throw assertion_failed
  | some parent ↦ ok (register_below parent f id checksum s)
]

-- `RegisterEmpty`
unfoldable pub register_empty : ℕ → Storage → Storage
unfolding emplace
register_empty f s = record s { empty_files = emplace f s.empty_files }

-- The inversion of `Filenames`, in `GetDuplicates`.
unfoldable pub group : Node → ℕ → List (Node × List ℕ) → List (Node × List ℕ)
unfolding emplace
group n f [] = (n, f ∷ []) ∷ []
group n f ((m, files) ∷ groups) =
    let rest = group n f groups in
    if str_eq n m then (m, emplace f files) ∷ groups else (m, files) ∷ rest

unfoldable pub invert : OrdMap Node → List (Node × List ℕ) → List (Node × List ℕ)
unfolding group
invert [] groups = groups
invert ((f, n) ∷ filenames) groups = invert filenames (group n f groups)

-- The groups of more than one file.
unfoldable pub large_groups : List (Node × List ℕ) → List (List ℕ)
large_groups [] = []
large_groups ((n, files) ∷ groups) =
    let rest = large_groups groups in if ltb 1 (length files) then files ∷ rest else rest

-- `GetDuplicates`
unfoldable pub get_duplicates : Storage → List (List ℕ)
unfolding invert large_groups
get_duplicates s =
    large_groups (invert s.filenames [])
    ++ (elim s.empty_files [ [] ↦ [] | f ∷ files ↦ (f ∷ files) ∷ [] ])
