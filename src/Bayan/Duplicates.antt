-- ===== src/Bayan/Duplicates.antt =====
-- The whole of 08_bayan on files that are not empty: the tree, the crawler and the blocks together.
use cpp.Prelude.{ℕ, ◌<◌, ◌≡◌, ◌≢◌, ◌↔◌, true, some, List, length}
use cpp.Prelude.Result.{ok}
use cpp.Bayan.Storage.{get_duplicates}
use cpp.Bayan.Storage.Maps.{has}
use cpp.Bayan.Storage.Groups.{together}
use cpp.Bayan.Crawler.{Crawler, crawl}
use cpp.Bayan.Crawler.Whole.{enough, crawl-together}
use cpp.Bayan.Computer.{compute}
use cpp.Bayan.Computer.Blocks.{checksums_of, compute-IsComputer, not_nil}

-- With a positive block size and files that are not empty, the loop of `Run` ends without an
-- exception, and two different files are then in one group of `GetDuplicates` exactly if all their
-- blocks, the last ones filled up with zeros, have the same checksums.
pub crawl-get_duplicates :
    (size : ℕ) (checksum : List ℕ → ℕ) (contents : ℕ → List ℕ) (files : List ℕ)
    → 0 < size
    → ((f : ℕ) → has f files ≡ true → 0 < length (contents f))
    → (last : Crawler) × (crawl
          (compute size checksum contents)
          (enough (λ f. checksums_of size checksum (contents f)) files)
          files
        ≡ ok (some last))
      × ((f g : ℕ)
          → has f files ≡ true
          → has g files ≡ true
          → f ≢ g
          → (together f g (get_duplicates last.storage) ≡ true)
            ↔ (checksums_of size checksum (contents f) ≡ checksums_of size checksum (contents g)))
crawl-get_duplicates size checksum contents files h e =
    crawl-together (λ f. checksums_of size checksum (contents f)) files
      (compute size checksum contents) (compute-IsComputer size checksum h contents)
      (λ f w. not_nil size checksum h (contents f) (e f w))
