-- ===== src/Fuse/Ranges/Parts.antt =====
-- Which parts of the file `fuseDirtyParts` names.
use native.Mathlib.Nat.{
  le-div_iff_mul-le, div-lt_iff_lt-mul, div-mul-le_self, mul-div_cancel, le_trans,
}
use ti_cli.Common.{
  ℕ, zero, suc, ◌+◌, ◌-◌, ◌*◌, ◌/◌, ◌≤◌, ◌<◌, max, Bool, true, false, ◌&&◌, ◌||◌, List, [], ◌∷◌,
  ◌≡◌, ◌↔◌, refl, arith, ltb, leb, ◌==◌, if◌then◌else◌, inl, inr, Bool-cases,
}
use ti_cli.Fuse.Ranges.{
  RawRange, DirtyRange, merge_dirty_ranges, add_part, add_parts, range_parts, collect_parts,
  dirty_parts,
}
use ti_cli.Fuse.Ranges.Cover.{covered}

unfoldable pub member : ℕ → List ℕ → Bool
member p [] = false
member p (q ∷ qs) = p == q || member p qs

-- The bytes below `n` that a range reaches; an empty one reaches the byte at its start.
abbrev pub touches : DirtyRange → ℕ → ℕ → Bool
touches r n b = ltb b n && (leb r.start b && (ltb b r.end || b == r.start))

unfoldable pub touched : List DirtyRange → ℕ → ℕ → Bool
touched [] n b = false
touched (r ∷ rs) n b = touches r n b || touched rs n b

member-add_part : (p q : ℕ) (qs : List ℕ) → member p (add_part q qs) ≡ (p == q || member p qs)
unfolding member add_part
member-add_part p q [] = refl
member-add_part p q (x ∷ qs) = ground (arith, member-add_part p q qs)

member-add_parts :
    (p n first : ℕ) (seen : List ℕ)
    → member p (add_parts n first seen) ≡ ((leb first p && ltb p (first + n)) || member p seen)
unfolding add_parts
member-add_parts p zero first seen = ground arith
member-add_parts p (suc n) first seen =
    ground
      (arith, member-add_parts p n (first + 1) (add_part first seen), member-add_part p first seen)

-- The end of a range as the loop clips and widens it.
abbrev reach_end : DirtyRange → ℕ → ℕ
reach_end r n =
    let clipped = if ltb n r.end then n else r.end in
    if leb clipped r.start then r.start + 1 else clipped

module _ (s : ℕ) (s_pos : 0 < s) where
  -- The part that byte `b` lies in.
  abbrev part_of : ℕ → ℕ
  part_of b = b / s + 1

  div_mono : (a b : ℕ) → a ≤ b → a / s ≤ b / s
  div_mono a b h = (le-div_iff_mul-le s_pos).1 (le_trans (div-mul-le_self a s) h)

  member-range_parts :
      (p : ℕ) (r : DirtyRange) (n : ℕ) (seen : List ℕ)
      → member p (range_parts r s n seen) ≡ (
          (ltb r.start n && (leb (part_of r.start) p && leb p (part_of (reach_end r n - 1))))
          || member p seen)
  unfolding range_parts
  member-range_parts p r n seen = ground (
    arith,
    member-add_parts p (part_of (reach_end r n - 1) + 1 - part_of r.start) (part_of r.start) seen,
    div_mono r.start (reach_end r n - 1),
  )

  part_of-range_parts :
      (r : DirtyRange) (n b : ℕ) (seen : List ℕ)
      → (touches r n b || member (part_of b) seen) ≡ true
      → member (part_of b) (range_parts r s n seen) ≡ true
  part_of-range_parts r n b seen h = ground (
    arith,
    member-range_parts (part_of b) r n seen,
    div_mono r.start b,
    div_mono b (reach_end r n - 1),
  )

  abbrev Reached : List DirtyRange → ℕ → ℕ → Type 0
  Reached rs n p = (b : ℕ) × (touched rs n b ≡ true) × (part_of b ≡ p)

  range_parts-touches :
      (p : ℕ) (r : DirtyRange) (n : ℕ) (seen : List ℕ)
      → member p (range_parts r s n seen) ≡ true
      → member p seen ≡ false
      → (b : ℕ) × (touches r n b ≡ true) × (part_of b ≡ p)
  range_parts-touches p r n seen h new = elim (Bool-cases (p == part_of r.start)) [
    | inl e ↦ (r.start, ground (arith, member-range_parts p r n seen), ground arith)
    | inr e ↦
        let inside : (r.start / s < p - 1) × (p - 1 ≤ (reach_end r n - 1) / s) × (r.start < n) =
          ground (arith, member-range_parts p r n seen) in
        let lower : r.start < (p - 1) * s = (div-lt_iff_lt-mul s_pos).0 inside.0 in
        let upper : (p - 1) * s ≤ reach_end r n - 1 = (le-div_iff_mul-le s_pos).0 inside.1 in
        ((p - 1) * s, ground arith, omega (arith, mul-div_cancel (p - 1) s_pos))
  ]

  part_of-collect_parts :
      (rs : List DirtyRange) (n b : ℕ) (seen : List ℕ)
      → (touched rs n b || member (part_of b) seen) ≡ true
      → member (part_of b) (collect_parts rs s n seen) ≡ true
  unfolding collect_parts touched
  part_of-collect_parts [] n b seen h = h
  part_of-collect_parts (r ∷ rs) n b seen h =
      let next = range_parts r s n seen in
      ground (arith, part_of-range_parts r n b seen, part_of-collect_parts rs n b next)

  collect_parts-touched :
      (p : ℕ) (rs : List DirtyRange) (n : ℕ) (seen : List ℕ)
      → member p (collect_parts rs s n seen) ≡ true
      → member p seen ≡ false
      → Reached rs n p
  unfolding collect_parts touched
  collect_parts-touched p [] n seen h new = absurd (cc)
  collect_parts-touched p (r ∷ rs) n seen h new =
      elim (Bool-cases (member p (range_parts r s n seen))) [
        | inl e ↦ let (b, t, at) = range_parts-touches p r n seen e new in (b, ground arith, at)
        | inr e ↦
            let (b, t, at) = collect_parts-touched p rs n (range_parts r s n seen) h e in
            (b, ground arith, at)
      ]

-- Parts are named in rising order, each once.
abbrev pub Rising : ℕ → List ℕ → Type 0
Rising n [] = Unit {0}
Rising n (p ∷ ps) = (n ≤ p) × Rising (p + 1) ps

add_part-Rising : (n p : ℕ) (ps : List ℕ) → n ≤ p → Rising n ps → Rising n (add_part p ps)
unfolding add_part
add_part-Rising n p [] h hs = (h, tt)
add_part-Rising n p (q ∷ ps) h hs = ground (arith, add_part-Rising (q + 1) p ps)

add_parts-Rising :
    (n first : ℕ) (seen : List ℕ) → 1 ≤ first → Rising 1 seen → Rising 1 (add_parts n first seen)
unfolding add_parts
add_parts-Rising zero first seen h hs = hs
add_parts-Rising (suc n) first seen h hs =
    add_parts-Rising n (first + 1) (add_part first seen) (omega arith)
      (add_part-Rising 1 first seen h hs)

collect_parts-Rising :
    (rs : List DirtyRange) (s n : ℕ) (seen : List ℕ)
    → Rising 1 seen
    → Rising 1 (collect_parts rs s n seen)
unfolding collect_parts range_parts
collect_parts-Rising [] s n seen h = h
collect_parts-Rising (r ∷ rs) s n seen h = collect_parts-Rising rs s n (range_parts r s n seen) (
    ground
      (arith, add_parts-Rising (part_last r s n + 1 - (r.start / s + 1)) (r.start / s + 1) seen))
  where
    part_last : DirtyRange → ℕ → ℕ → ℕ
    part_last r s n = (reach_end r n - 1) / s + 1

-- With parts of `s` bytes, numbered from 1, part `p` is named exactly if a byte of the file
-- that a merged range reaches lies in it.
pub dirty_parts_exact :
    (rs : List RawRange) (s n p : ℕ)
    → 0 < s
    → (member p (dirty_parts rs s n) ≡ true)
      ↔ ((b : ℕ) × (touched (merge_dirty_ranges rs) n b ≡ true) × (b / s + 1 ≡ p))
unfolding dirty_parts
dirty_parts_exact rs s n p h =
    let at_least_one : max s 1 ≡ s = omega arith in
    let merged = merge_dirty_ranges rs in
    rw at_least_one (
      λ m. collect_parts-touched s h p merged n [] m (unfold member in refl),
      λ (b, t, at). rw (← at) (part_of-collect_parts s h merged n b [] (rw t)),
    )

pub dirty_parts-Rising : (rs : List RawRange) (s n : ℕ) → Rising 1 (dirty_parts rs s n)
unfolding dirty_parts
dirty_parts-Rising rs s n = collect_parts-Rising (merge_dirty_ranges rs) (max s 1) n [] tt

covered→touched :
    (rs : List DirtyRange) (n b : ℕ) → covered rs b ≡ true → b < n → touched rs n b ≡ true
unfolding covered touched
covered→touched [] n b h lt = cc
covered→touched (r ∷ rs) n b h lt = ground (arith, covered→touched rs n b)

-- Every dirty byte of the file lies in a named part.
pub dirty_parts-covered :
    (rs : List RawRange) (s n b : ℕ)
    → 0 < s
    → b < n
    → covered (merge_dirty_ranges rs) b ≡ true
    → member (b / s + 1) (dirty_parts rs s n) ≡ true
dirty_parts-covered rs s n b h lt c =
    (dirty_parts_exact rs s n (b / s + 1) h).1
      (b, covered→touched (merge_dirty_ranges rs) n b c lt, refl)
