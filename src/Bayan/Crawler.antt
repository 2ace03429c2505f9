-- ===== src/Bayan/Crawler.antt =====
-- The crawler's loop over the blocks to read: 08_bayan/file_crawler.hpp and file_crawler.cpp. What
-- computes the checksum of a block is a parameter of the functions, which Bayan/Computer fills. The
-- loop begins with the files that the walk through the directories has found.
pub mod View
pub mod Advance
pub mod Skip
pub mod Step
pub mod Moves
pub mod Bounds
pub mod Handle
pub mod Loop
pub mod Store
pub mod Whole
use cpp.Prelude.{
  ℕ, zero, suc, ◌+◌, Bool, true, false, Option, none, some, List, [], ◌∷◌, ◌++◌, ltb, if◌then◌else◌,
  map,
}
use cpp.Prelude.OrdMap.{OrdMap, find, assign}
use cpp.Prelude.Result.{Result, ok, throw, ◌>>=◌}
use cpp.Bayan.Storage.{Storage, empty_storage, RegisterResult, register}

-- `TTask`
pub record Task : Type 0 where
  pub block_id : ℕ
  pub filename : ℕ

-- `TFileBlockChecksumComputer::Compute` of a file and a block: the checksum, and the next block.
abbrev pub Compute : Type 0
Compute = ℕ → ℕ → Result (ℕ × Option ℕ)

-- `TFileCrawler`: the storage, the tasks in their order, and `FileReadState`.
pub record Crawler : Type 0 where
  pub storage : Storage
  pub tasks : List Task
  pub file_read_state : OrdMap (Option ℕ)

-- Whether a read request is to be ignored: the file is read to its end, or beyond the block.
unfoldable pub is_outdated : ℕ → Option (Option ℕ) → Bool
is_outdated id none = false
is_outdated id (some none) = true
is_outdated id (some (some next)) = ltb id next

-- The tasks of a result of `Register`.
abbrev pub tasks_of : Option RegisterResult → List Task
tasks_of none = []
tasks_of (some r) = map (λ f. record { block_id = r.block_id; filename = f }) r.files

-- `HandleNextTask`; a task that is ignored changes nothing.
unfoldable pub handle_task : Compute → Task → Crawler → Result Crawler
unfolding is_outdated register
handle_task compute t c =
    if is_outdated t.block_id (find t.filename c.file_read_state) then ok c else (do
      (checksum, next) ← compute t.filename t.block_id
      (storage, result) ← register t.filename t.block_id checksum c.storage
      ok record {
        storage = storage;
        tasks = c.tasks ++ tasks_of result;
        file_read_state = assign t.filename next c.file_read_state;
      })

-- The loop of `Run`, on fuel: the front task is handled and popped. `none` is left fuel's end.
unfoldable pub handle_tasks : Compute → ℕ → List Task → Crawler → Result (Option Crawler)
unfolding handle_task
handle_tasks compute zero tasks c = ok none
handle_tasks compute (suc fuel) [] c = ok (some c)
handle_tasks compute (suc fuel) (t ∷ rest) c = do
  c' ← handle_task compute t (record c { tasks = rest })
  handle_tasks compute fuel c'.tasks c'

-- The tasks of the files that the directories hold.
abbrev pub first_tasks : List ℕ → List Task
first_tasks [] = []
first_tasks (f ∷ files) = record { block_id = 0; filename = f } ∷ first_tasks files

-- `Run`, on the files that are not empty.
unfoldable pub crawl : Compute → ℕ → List ℕ → Result (Option Crawler)
unfolding handle_tasks
crawl compute fuel files =
    handle_tasks compute fuel (first_tasks files)
      (record { storage = empty_storage; tasks = first_tasks files; file_read_state = [] })
