-- ===== src/Fuse/File/Marks.antt =====
-- What the dirty ranges of an open file promise about the bytes that it was opened with.
use ti_cli.Common.{
  ℕ, ◌+◌, ◌≤◌, ◌<◌, Bool, true, false, ◌||◌, List, [], ◌∷◌, ◌++◌, map, ◌≡◌, ◌⊎◌, inl, inr, refl,
  ◌∙◌, arith, ltb, Bool-cases, length, get_elem?,
}
use ti_cli.Fuse.Version.{Version}
use ti_cli.Common.Text.{Text}
use ti_cli.Fuse.Ranges.{DirtyRange, raw, clean_range, clean, merge_dirty_ranges}
use ti_cli.Fuse.Ranges.Cover.{covered, in_range, covered-merge_dirty_ranges}
use ti_cli.Fuse.File.{File, mark_dirty_range, new_file}
use ti_cli.Fuse.File.Edits.{
  written, grown, length-grown, length-splice, get_elem?-splice_outside, get_elem?-grown,
}

covered-clean-raw : (rs : List DirtyRange) (b : ℕ) → covered (clean (map raw rs)) b ≡ covered rs b
unfolding covered clean clean_range
covered-clean-raw [] b = refl
covered-clean-raw (r ∷ rs) b = ground (arith, covered-clean-raw rs b)

-- Merging ranges that are kept changes no byte's mark.
pub covered-merge_raw :
    (rs : List DirtyRange) (b : ℕ) → covered (merge_dirty_ranges (map raw rs)) b ≡ covered rs b
covered-merge_raw rs b = covered-merge_dirty_ranges (map raw rs) b ∙ covered-clean-raw rs b

covered-clean_last :
    (rs : List DirtyRange) (r : DirtyRange) (b : ℕ)
    → covered (clean (map raw rs ++ raw r ∷ [])) b ≡ (covered rs b || in_range r b)
unfolding covered clean clean_range
covered-clean_last [] r b = ground arith
covered-clean_last (q ∷ rs) r b = ground (arith, covered-clean_last rs r b)

-- A byte is marked afterwards if it was before or lies in the new range.
pub covered-mark_dirty_range :
    (rs : List DirtyRange) (start end b : ℕ)
    → covered (mark_dirty_range rs start end) b
      ≡ (covered rs b || in_range (record { start = start; end = end }) b)
unfolding mark_dirty_range
covered-mark_dirty_range rs start end b = elim (Bool-cases (ltb end start)) [
  | inl reversed ↦ rw reversed (ground arith)
  | inr proper ↦
      let r : DirtyRange = record { start = start; end = end } in
      rw proper
        (covered-merge_dirty_ranges (map raw rs ++ raw r ∷ []) b ∙ covered-clean_last rs r b)
]

-- The bytes agree with `base` wherever no dirty range marks them.
pub record Agreement (base : List ℕ) (f : File) : Type 0 where
  pub same_size : length base ≡ f.base_size
  pub no_shorter : length base ≤ length f.bytes
  pub unmarked :
      (i : ℕ)
      → i < length base
      → covered f.ranges i ≡ false
      → get_elem? f.bytes i ≡ get_elem? base i

-- Either the whole file will be sent, or the ranges mark every byte that differs from `base`; a
-- file that is not dirty is `base`.
pub record Tracks (base : List ℕ) (f : File) : Type 0 where
  pub size : length base ≡ f.base_size
  pub marks : (f.force_whole ≡ true) ⊎ Agreement base f
  pub unchanged : f.dirty ≡ false → f.bytes ≡ base

pub new_file-Tracks :
    (path : Text) (bytes : List ℕ) (writable : Bool) (version : Version)
    → Tracks bytes (new_file path bytes writable false version)
unfolding new_file
new_file-Tracks path bytes writable version = record {
  size = refl;
  marks = inr (record { same_size = refl; no_shorter = omega arith; unmarked = λ i lt c. refl });
  unchanged = λ e. refl;
}

written-Agreement :
    (base : List ℕ) (f : File) (new : List ℕ) (off : ℕ)
    → Agreement base f
    → Agreement base (written f new off)
written-Agreement base f new off a =
    let (room, longer) = length-grown f new off in
    record {
      same_size = a.same_size;
      no_shorter = omega (arith, length-splice (grown f new off) new off room, a.no_shorter);
      unmarked = λ i lt c.
          let marks = covered-mark_dirty_range f.ranges off (off + length new) i in
          let before : covered f.ranges i ≡ false = ground arith in
          let outside : (i < off) ⊎ (off + length new ≤ i) = ground arith in
          get_elem?-splice_outside (grown f new off) new off i room outside
          ∙ get_elem?-grown f new off i (omega (arith, a.no_shorter))
          ∙ a.unmarked i lt before;
    }

pub written-Tracks :
    (base : List ℕ) (f : File) (new : List ℕ) (off : ℕ)
    → Tracks base f
    → Tracks base (written f new off)
written-Tracks base f new off t = record {
  size = t.size;
  marks = elim t.marks [ inl whole ↦ inl whole | inr a ↦ inr (written-Agreement base f new off a) ];
  unchanged = λ e. absurd (cc);
}
