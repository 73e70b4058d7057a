-- ===== src/Fuse/Tests/RangeRuns.antt =====
-- Ranges of small files, part sizes and error classes.
use ti_cli.Common.{ℕ, ◌+◌, ◌/◌, true, List, [], ◌∷◌, ◌≡◌, ◌↔◌, arith}
use ti_cli.Common.Int.{pos, negsuc}
use ti_cli.Fuse.Ranges.{RawRange, merge_dirty_ranges, clean, dirty_parts}
use ti_cli.Fuse.Ranges.Cover.{covered, covered-merge_dirty_ranges}
use ti_cli.Fuse.Ranges.Parts.{member, touched, dirty_parts_exact}

-- Out of order, overlapping, one below zero and one reversed.
abbrev messy : List RawRange
messy =
    record { start = pos 8; end = pos 12 }
    ∷ record { start = negsuc 3; end = pos 2 }
    ∷ record { start = pos 2; end = pos 5 }
    ∷ record { start = pos 9; end = pos 4 }
    ∷ []

covered-merge_dirty_ranges_example : covered (merge_dirty_ranges messy) 9 ≡ covered (clean messy) 9
covered-merge_dirty_ranges_example = covered-merge_dirty_ranges messy 9

dirty_parts_exact_example :
    (member 2 (dirty_parts messy 4 11) ≡ true)
    ↔ ((b : ℕ) × (touched (merge_dirty_ranges messy) 11 b ≡ true) × (b / 4 + 1 ≡ 2))
dirty_parts_exact_example = dirty_parts_exact messy 4 11 2 (omega arith)
