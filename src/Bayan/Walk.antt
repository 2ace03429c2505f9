-- ===== src/Bayan/Walk.antt =====
-- The walk that collects the files: `TFileCrawler::HandleDirectoryEntry` of 08_bayan/file_crawler.cpp
-- and `IterateDirectory` of file_crawler.hpp, on the list of entries that the iterator gives.
use cpp.Prelude.{
  ℕ, Bool, true, false, not, Option, none, some, List, [], ◌∷◌, ◌++◌, ltb, ◌==◌, if◌then◌else◌, Str,
}
use cpp.Prelude.Result.{Result, ok, throw, undefined_behaviour, ◌>>=◌}
use cpp.Bayan.Storage.{register_empty}
use cpp.Bayan.Crawler.{Crawler}

-- A directory entry: the number that stands for its path in the other modules, and its path.
pub record Entry : Type 0 where
  pub filename : ℕ
  pub path : Str
  pub is_regular : Bool
  pub file_size : ℕ

-- The members of `TFileCrawler` that filter; the mask is the matching of a regular expression.
pub record Filters : Type 0 where
  pub excluded : List Str
  pub file_mask : Option (Str → Bool)
  pub min_file_size : ℕ

-- `std::mismatch` of an excluded directory and a path, and whether it ends with the directory. The
-- three iterators read the path beyond its end when it is a proper beginning of the directory.
unfoldable pub begins_with : Str → Str → Result Bool
begins_with [] path = ok true
begins_with (e ∷ excl) [] = throw undefined_behaviour
begins_with (e ∷ excl) (c ∷ path) =
    let rest = begins_with excl path in if e == c then rest else ok false

unfoldable pub is_excluded : List Str → Str → Result Bool
unfolding begins_with
is_excluded [] path = ok false
is_excluded (excl ∷ excluded) path = do
  b ← begins_with excl path
  elim b [ true ↦ ok true | false ↦ is_excluded excluded path ]

unfoldable pub is_matched : Option (Str → Bool) → Str → Bool
is_matched none path = true
is_matched (some mask) path = mask path

-- What `HandleDirectoryEntry` does with a file of the right kind, by its size.
unfoldable pub take_file : ℕ → Entry → Crawler → Crawler
unfolding register_empty
take_file min_file_size e c =
    if ltb e.file_size min_file_size
    then c
    else if e.file_size == 0
    then record c { storage = register_empty e.filename c.storage }
    else record c { tasks = c.tasks ++ record { block_id = 0; filename = e.filename } ∷ [] }

unfoldable pub handle_entry : Filters → Entry → Crawler → Result Crawler
unfolding is_excluded is_matched take_file
handle_entry o e c = elim e.is_regular [
  | false ↦ ok c
  | true ↦ do
    x ← is_excluded o.excluded e.path
    (if x
        then ok c
        else if not (is_matched o.file_mask e.path)
        then ok c
        else ok (take_file o.min_file_size e c))
]

-- `IterateDirectory`
unfoldable pub iterate_directory : Filters → List Entry → Crawler → Result Crawler
unfolding handle_entry
iterate_directory o [] c = ok c
iterate_directory o (e ∷ entries) c = do c' ← handle_entry o e c; iterate_directory o entries c'
