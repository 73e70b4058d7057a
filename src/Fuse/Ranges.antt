-- ===== src/Fuse/Ranges.antt =====
-- Dirty byte ranges of an open file (internal/fs/fuse_mount.go, internal/fs/fuse_writeback.go).
-- A `RawRange` is a range as it arrives, with signed ends; the cleaned ones have none below 0.
pub mod Cover
pub mod Separate
pub mod Parts
use ti_cli.Common.{
  ℕ, ◌+◌, ◌-◌, ◌/◌, max, Bool, true, ◌&&◌, Option, none, some, List, [], ◌∷◌, ltb, leb, ◌==◌,
  if◌then◌else◌,
}
use ti_cli.Common.Int.{ℤ, pos, negsuc, pos_part}

pub record RawRange : Type 0 where
  pub start : ℤ
  pub end : ℤ

pub record DirtyRange : Type 0 where
  pub start : ℕ
  pub end : ℕ

abbrev pub raw : DirtyRange → RawRange
raw r = record { start = pos r.start; end = pos r.end }

-- What the cleaning loop does with one range.
unfoldable pub clean_range : RawRange → Option DirtyRange
clean_range r = elim r.end [
  | negsuc n ↦ none
  | pos e ↦
      if ltb e (pos_part r.start) then none else some (record { start = pos_part r.start; end = e })
]

abbrev pub keep_some {ℓ} : {A : Type ℓ} → Option A → List A → List A
keep_some none xs = xs
keep_some (some a) xs = a ∷ xs

unfoldable pub clean : List RawRange → List DirtyRange
unfolding clean_range
clean [] = []
clean (r ∷ rs) = keep_some (clean_range r) (clean rs)

-- The order of `sort.Slice`; ranges that it does not tell apart are equal.
unfoldable pub before : DirtyRange → DirtyRange → Bool
before r q = if r.start == q.start then ltb r.end q.end else ltb r.start q.start

unfoldable pub insert : DirtyRange → List DirtyRange → List DirtyRange
unfolding before
insert r [] = r ∷ []
insert r (q ∷ qs) = if before q r then q ∷ insert r qs else r ∷ q ∷ qs

unfoldable pub sort : List DirtyRange → List DirtyRange
unfolding insert
sort [] = []
sort (r ∷ rs) = insert r (sort rs)

-- The last loop: its first argument is the end of `out`, which may still grow.
unfoldable pub join : DirtyRange → List DirtyRange → List DirtyRange
join last [] = last ∷ []
join last (r ∷ rs) =
    let apart = last ∷ join r rs in
    let grown = join (record last { end = if ltb last.end r.end then r.end else last.end }) rs in
    if ltb last.end r.start then apart else grown

unfoldable pub join_all : List DirtyRange → List DirtyRange
unfolding join
join_all [] = []
join_all (r ∷ rs) = join r rs

unfoldable pub merge_dirty_ranges : List RawRange → List DirtyRange
merge_dirty_ranges rs = join_all (sort (clean rs))

-- The sum of `shouldPatchFuseWrite`.
unfoldable pub total_dirty : List DirtyRange → ℕ
total_dirty [] = 0
total_dirty (r ∷ rs) = (if ltb r.start r.end then r.end - r.start else 0) + total_dirty rs

-- The set `seen`, kept in the order in which it is handed out.
unfoldable pub add_part : ℕ → List ℕ → List ℕ
add_part p [] = p ∷ []
add_part p (q ∷ qs) = if ltb p q then p ∷ q ∷ qs else if p == q then q ∷ qs else q ∷ add_part p qs

-- `for part := first; part <= last; part++`, with the number of rounds first.
unfoldable pub add_parts : ℕ → ℕ → List ℕ → List ℕ
unfolding add_part
add_parts ℕ.zero first seen = seen
add_parts (ℕ.suc n) first seen = add_parts n (first + 1) (add_part first seen)

-- One round of the loop over the merged ranges.
unfoldable pub range_parts : DirtyRange → ℕ → ℕ → List ℕ → List ℕ
range_parts r part_size new_size seen =
    let clipped = if ltb new_size r.end then new_size else r.end in
    let end = if leb clipped r.start then r.start + 1 else clipped in
    let first = r.start / part_size + 1 in
    let last = (end - 1) / part_size + 1 in
    if leb new_size r.start then seen else add_parts (last + 1 - first) first seen

unfoldable pub collect_parts : List DirtyRange → ℕ → ℕ → List ℕ → List ℕ
unfolding range_parts
collect_parts [] part_size new_size seen = seen
collect_parts (r ∷ rs) part_size new_size seen =
    collect_parts rs part_size new_size (range_parts r part_size new_size seen)

unfoldable pub dirty_parts : List RawRange → ℕ → ℕ → List ℕ
dirty_parts rs part_size new_size =
    collect_parts (merge_dirty_ranges rs) (max part_size 1) new_size []
