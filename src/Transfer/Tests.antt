-- ===== src/Transfer/Tests.antt =====
-- The parts of a small file and of a large one.
use ti_cli.Common.{ℕ, ◌*◌, ◌^◌, ◌≤◌, ◌⊎◌, some, List, [], ◌∷◌, ◌≡◌, arith, concat, length}
use ti_cli.Common.Int.{pos}
use ti_cli.Fuse.Upload.{adaptive_part_size}
use ti_cli.Transfer.Parts.{Part, part_size, calc_parts, bytes_of, bounded_upload_parallelism}
use ti_cli.Transfer.Parts.Whole.{calc_parts_whole, length-calc_parts, upload_buffers}

abbrev five : List ℕ
five = 1 ∷ 2 ∷ 3 ∷ 4 ∷ 5 ∷ []

calc_parts_whole_example :
    (parts : List Part) × (calc_parts (length five) (pos 2) ≡ some parts)
    × (concat (bytes_of five (part_size (pos 2)) parts) ≡ five)
unfolding part_size
calc_parts_whole_example = calc_parts_whole five (pos 2) (omega arith)

length-calc_parts_example :
    (parts : List Part) × (calc_parts (2 ^ 40) (pos (adaptive_part_size (2 ^ 40))) ≡ some parts)
    × (length parts ≤ 10000)
length-calc_parts_example = length-calc_parts (2 ^ 40) (omega arith)

upload_buffers_example :
    let n = bounded_upload_parallelism (pos (8 * 2 ^ 20)) 100 in
    (1 ≤ n) × (n ≤ 16) × ((n ≡ 1) ⊎ (n * part_size (pos (8 * 2 ^ 20)) ≤ 256 * 2 ^ 20))
upload_buffers_example = upload_buffers (pos (8 * 2 ^ 20)) 100
