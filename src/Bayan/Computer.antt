-- ===== src/Bayan/Computer.antt =====
-- The checksum of a block of a file: 08_bayan/file_block_checksum_computer.cpp. The bytes of a file
-- and the checksum of a list of bytes (CRC32 or MD5 of checksum_computer.cpp) are parameters.
pub mod Blocks
use cpp.Prelude.{
  ℕ, zero, suc, ◌+◌, ◌-◌, ◌*◌, Option, none, some, List, ◌++◌, ltb, ◌==◌, if◌then◌else◌, not,
  length, take, drop, replicate,
}
use cpp.Prelude.Result.{Result, ok, throw, invalid_argument}

-- `TChecksumComputer::Compute`: the bytes, and then so many zeros.
abbrev pub checksum_of : (List ℕ → ℕ) → List ℕ → ℕ → ℕ
checksum_of checksum bytes zeros = checksum (bytes ++ replicate zeros 0)

-- `Compute`, on the bytes of the file.
unfoldable pub compute_block : ℕ → (List ℕ → ℕ) → List ℕ → ℕ → Result (ℕ × Option ℕ)
compute_block block_size checksum bytes id =
    if length bytes == 0
    then ok (checksum_of checksum (take 0 bytes) 1024, none)
    else if not (ltb (id * block_size) (length bytes))
    then throw invalid_argument
    else if ltb (id * block_size + block_size) (length bytes)
    then ok (checksum_of checksum (take block_size (drop (id * block_size) bytes)) 0, some (id + 1))
    else ok (
      checksum_of checksum (drop (id * block_size) bytes)
          (id * block_size + block_size - length bytes),
      none,
    )

unfoldable pub compute : ℕ → (List ℕ → ℕ) → (ℕ → List ℕ) → ℕ → ℕ → Result (ℕ × Option ℕ)
unfolding compute_block
compute block_size checksum contents f id = compute_block block_size checksum (contents f) id
