-- ===== src/Examples/Bayan.antt =====
-- Three files, of which two are the same.
use cpp.Prelude.{
  refl, str_eq, ℕ, zero, suc, ◌+◌, ◌<◌, ◌≡◌, ◌≢◌, ◌↔◌, true, Option, none, some, List, [], ◌∷◌,
  arith, length,
}
use cpp.Prelude.OrdMap.{find, assign}
use cpp.Prelude.Result.{Result, ok, throw, undefined_behaviour}
use cpp.Bayan.Storage.{
  get_duplicates, register, register_below, trailing, set_trailing, erase_trailing, emplace,
  erase_file, invert, group, large_groups,
}
use cpp.Bayan.Storage.Maps.{has}
use cpp.Bayan.Storage.Groups.{together}
use cpp.Bayan.Crawler.{Crawler, crawl, handle_tasks, handle_task, is_outdated}
use cpp.Bayan.Crawler.Whole.{enough}
use cpp.Bayan.Computer.{compute, compute_block}
use cpp.Bayan.Computer.Blocks.{checksums_of}
use cpp.Bayan.Walk.{begins_with}
use cpp.Bayan.Duplicates.{crawl-get_duplicates}

abbrev sum : List ℕ → ℕ
sum [] = 0
sum (b ∷ bytes) = b + sum bytes

abbrev contents : ℕ → List ℕ
contents f = elim f [ zero ↦ 1 ∷ 2 ∷ 3 ∷ [] | suc _ ↦ 1 ∷ 2 ∷ [] ]

abbrev files : List ℕ
files = 0 ∷ 1 ∷ 2 ∷ []

not_empty : (f : ℕ) → has f files ≡ true → 0 < length (contents f)
not_empty zero h = omega arith
not_empty (suc f) h = omega arith

crawl-get_duplicates_example :
    (last : Crawler) × (crawl
        (compute 2 sum contents)
        (enough (λ f. checksums_of 2 sum (contents f)) files)
        files
      ≡ ok (some last))
    × ((f g : ℕ)
        → has f files ≡ true
        → has g files ≡ true
        → f ≢ g
        → (together f g (get_duplicates last.storage) ≡ true)
          ↔ (checksums_of 2 sum (contents f) ≡ checksums_of 2 sum (contents g)))
crawl-get_duplicates_example = crawl-get_duplicates 2 sum contents files (omega arith) not_empty

abbrev groups_of : Result (Option Crawler) → List (List ℕ)
groups_of (throw e) = []
groups_of (ok none) = []
groups_of (ok (some c)) = get_duplicates c.storage

run_of_three : groups_of (crawl (compute 2 sum contents) 40 files) ≡ (1 ∷ 2 ∷ []) ∷ []
unfolding crawl handle_tasks handle_task compute compute_block get_duplicates register
    register_below trailing set_trailing erase_trailing emplace erase_file invert group large_groups
    is_outdated find assign str_eq
run_of_three = refl

-- "/a" is not "/a/b", but its text ends before the directory does; "/a/bc" begins with it.
excluded_beyond : begins_with (47 ∷ 97 ∷ 47 ∷ 98 ∷ []) (47 ∷ 97 ∷ []) ≡ throw undefined_behaviour
unfolding begins_with
excluded_beyond = refl

excluded_as_text : begins_with (47 ∷ 97 ∷ 47 ∷ 98 ∷ []) (47 ∷ 97 ∷ 47 ∷ 98 ∷ 99 ∷ []) ≡ ok true
unfolding begins_with
excluded_as_text = refl
