-- ===== src/Transfer/Parts.antt =====
-- The parts of a multipart upload (internal/api/fs/upload.go). Sizes of files are non-negative.
pub mod Whole
use ti_cli.Common.{
  ℕ, zero, suc, ◌+◌, ◌-◌, ◌*◌, ◌/◌, ◌^◌, min, Bool, ◌&&◌, Option, none, some, List, [], ◌∷◌,
  if◌then◌else◌, ltb, ◌==◌, length, take, drop,
}
use ti_cli.Common.Int.{ℤ, pos, negsuc, is_positive, pos_part, sub_ℕ}
use ti_cli.Fuse.File.{wrap}

abbrev pub default_part_size : ℕ
default_part_size = 8 * 2 ^ 20

unfoldable pub part_size : ℤ → ℕ
part_size value = if is_positive value then pos_part value else default_part_size

pub record Part : Type 0 where
  pub number : ℕ
  pub size : ℕ

-- The loop of `calcParts` from part `i`, for `n` more.
unfoldable pub parts_from : ℕ → ℕ → ℕ → ℕ → ℕ → List Part
parts_from total size count i zero = []
parts_from total size count i (suc n) =
    record { number = i + 1; size = if i == count - 1 then total - i * size else size }
    ∷ parts_from total size count (i + 1) n

-- The quotient of an `int64`, rounded to 0, by a positive one.
abbrev quotient : ℤ → ℕ → ℤ
quotient (pos n) size = pos (n / size)
quotient (negsuc n) size = sub_ℕ 0 (suc n / size)

-- None stands for the panic of `make` with a negative length. The sum may leave the range of int64.
unfoldable pub calc_parts : ℕ → ℤ → Option (List Part)
unfolding part_size parts_from
calc_parts total value =
    let size = part_size value in
    elim (quotient (wrap (total + size - 1)) size) [
      | pos count ↦ some (parts_from total size count 0 count)
      | negsuc n ↦ none
    ]

-- What is read for a part of the file.
unfoldable pub part_bytes : List ℕ → ℕ → Part → List ℕ
part_bytes bytes size p = take p.size (drop ((p.number - 1) * size) bytes)

unfoldable pub bytes_of : List ℕ → ℕ → List Part → List (List ℕ)
unfolding part_bytes
bytes_of bytes size [] = []
bytes_of bytes size (p ∷ ps) = part_bytes bytes size p ∷ bytes_of bytes size ps

-- The checksum of each part, over a file that can be read; none for the panic.
unfoldable pub compute_part_checksums : (List ℕ → ℕ) → List ℕ → ℤ → Option (List ℕ)
unfolding bytes_of calc_parts
compute_part_checksums checksum bytes value = elim (calc_parts (length bytes) value) [
  | none ↦ none
  | some parts ↦ some (each (bytes_of bytes (part_size value) parts))
]
  where
    each : List (List ℕ) → List ℕ
    each [] = []
    each (part ∷ parts) = checksum part ∷ each parts

abbrev by_memory : ℤ → ℕ
by_memory value = let n = 256 * 2 ^ 20 / part_size value in if ltb n 1 then 1 else n

unfoldable pub upload_parallelism : ℤ → ℕ
unfolding part_size
upload_parallelism value = min 16 (by_memory value)

unfoldable pub bounded_upload_parallelism : ℤ → ℕ → ℕ
unfolding upload_parallelism
bounded_upload_parallelism value count =
    let n = upload_parallelism value in
    let fit = if ltb 0 count && ltb count n then count else n in if ltb fit 1 then 1 else fit

-- `procs` is `runtime.GOMAXPROCS(0)`.
unfoldable pub checksum_parallelism : ℕ → ℤ → ℕ → ℕ
unfolding part_size
checksum_parallelism procs value count = min procs (min count (by_memory value))
