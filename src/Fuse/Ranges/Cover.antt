-- ===== src/Fuse/Ranges/Cover.antt =====
-- Merging dirty ranges changes no byte's mark.
use ti_cli.Common.{
  ℕ, ◌≤◌, Bool, false, ◌&&◌, ◌||◌, List, [], ◌∷◌, ◌≡◌, refl, ◌∙◌, arith, ltb, leb, if◌then◌else◌,
}
use ti_cli.Fuse.Ranges.{
  RawRange, DirtyRange, clean, before, insert, sort, join, join_all, merge_dirty_ranges,
}

abbrev pub in_range : DirtyRange → ℕ → Bool
in_range r b = leb r.start b && ltb b r.end

-- Byte `b` lies in one of the ranges.
unfoldable pub covered : List DirtyRange → ℕ → Bool
covered [] b = false
covered (r ∷ rs) b = in_range r b || covered rs b

-- Starts do not fall, from `n` on.
abbrev pub Sorted : ℕ → List DirtyRange → Type 0
Sorted n [] = Unit {0}
Sorted n (r ∷ rs) = (n ≤ r.start) × Sorted r.start rs

pub Sorted-le : {m n : ℕ} (rs : List DirtyRange) → m ≤ n → Sorted n rs → Sorted m rs
Sorted-le [] h s = tt
Sorted-le (r ∷ rs) h s = (omega arith, s.1)

insert-Sorted :
    (n : ℕ) (r : DirtyRange) (rs : List DirtyRange)
    → n ≤ r.start
    → Sorted n rs
    → Sorted n (insert r rs)
unfolding insert before
insert-Sorted n r [] h s = (h, tt)
insert-Sorted n r (q ∷ rs) h s = ground (arith, insert-Sorted q.start r rs)

pub sort-Sorted : (rs : List DirtyRange) → Sorted 0 (sort rs)
unfolding sort
sort-Sorted [] = tt
sort-Sorted (r ∷ rs) = insert-Sorted 0 r (sort rs) (omega arith) (sort-Sorted rs)

covered-insert :
    (r : DirtyRange) (rs : List DirtyRange) (b : ℕ) → covered (insert r rs) b ≡ covered (r ∷ rs) b
unfolding insert covered before
covered-insert r [] b = refl
covered-insert r (q ∷ rs) b = ground (arith, covered-insert r rs b)

pub covered-sort : (rs : List DirtyRange) (b : ℕ) → covered (sort rs) b ≡ covered rs b
unfolding sort covered
covered-sort [] b = refl
covered-sort (r ∷ rs) b = ground (arith, covered-insert r (sort rs) b, covered-sort rs b)

covered-join :
    (last : DirtyRange) (rs : List DirtyRange) (b : ℕ)
    → Sorted last.start rs
    → covered (join last rs) b ≡ covered (last ∷ rs) b
unfolding join covered
covered-join last [] b s = refl
covered-join last (r ∷ rs) b s =
    let grown : DirtyRange = record last { end = if ltb last.end r.end then r.end else last.end } in
    ground (arith, covered-join r rs b s.1, covered-join grown rs b (Sorted-le rs s.0 s.1))

covered-join_all :
    (rs : List DirtyRange) (b : ℕ) → Sorted 0 rs → covered (join_all rs) b ≡ covered rs b
unfolding join_all
covered-join_all [] b s = refl
covered-join_all (r ∷ rs) b s = covered-join r rs b s.1

-- A byte is dirty after the merge exactly if one of the cleaned ranges holds it.
pub covered-merge_dirty_ranges :
    (rs : List RawRange) (b : ℕ) → covered (merge_dirty_ranges rs) b ≡ covered (clean rs) b
unfolding merge_dirty_ranges
covered-merge_dirty_ranges rs b =
    covered-join_all (sort (clean rs)) b (sort-Sorted (clean rs)) ∙ covered-sort (clean rs) b
