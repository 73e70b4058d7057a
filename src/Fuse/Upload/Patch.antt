-- ===== src/Fuse/Upload/Patch.antt =====
-- Replacing the dirty parts of the old file by what the reader gives makes the new file.
use native.Mathlib.Nat.{div-add-mod', mod-lt}
use ti_cli.Common.{
  ℕ, ◌+◌, ◌-◌, ◌*◌, ◌/◌, ◌%◌, ◌≤◌, ◌<◌, false, List, ◌++◌, map, ◌≡◌, sym, ◌∙◌, arith, ltb, leb, min,
  Bool-cases, inl, inr, length, get_elem?, length-take, length-drop, get_elem?-append_left,
  get_elem?-take, get_elem?-drop, list_ext, drop, slice,
}
use ti_cli.Fuse.Ranges.{DirtyRange, raw, merge_dirty_ranges, dirty_parts}
use ti_cli.Fuse.Ranges.Cover.{covered}
use ti_cli.Fuse.Ranges.Parts.{member, dirty_parts-covered}
use ti_cli.Fuse.DataPlane.{Patched, part_len}
use ti_cli.Fuse.Upload.{read_part}

get_elem?-slice :
    (bytes pad : List ℕ) (offset size j : ℕ)
    → j < size
    → offset + size ≤ length bytes
    → get_elem? (slice offset (offset + size) bytes ++ pad) j ≡ get_elem? bytes (offset + j)
get_elem?-slice bytes pad offset size j lt fits =
    let width : offset + size - offset ≡ size = omega arith in
    let long : j < length (slice offset (offset + size) bytes) =
      omega (
        arith,
        length-take (offset + size - offset) (drop offset bytes),
        length-drop offset bytes,
      ) in
    get_elem?-append_left (slice offset (offset + size) bytes) pad j long
    ∙ get_elem?-take (offset + size - offset) j (drop offset bytes) (omega arith)
    ∙ get_elem?-drop offset j bytes

-- Within the file the reader copies.
read_part_at :
    (bytes : List ℕ) (part_size number size j : ℕ)
    → j < size
    → (number - 1) * part_size + size ≤ length bytes
    → get_elem? (read_part bytes part_size number size) j
      ≡ get_elem? bytes ((number - 1) * part_size + j)
unfolding read_part
read_part_at bytes part_size number size j lt fits =
    let offset = (number - 1) * part_size in
    let inside : leb (length bytes) offset ≡ false = ground arith in
    let whole : ltb (length bytes) (offset + size) ≡ false = ground arith in
    rw (inside, whole) (get_elem?-slice bytes _ offset size j lt fits)

-- The reader gives byte `i` at its place in its part.
read_part_lem :
    (bytes : List ℕ) (part_size i : ℕ)
    → 0 < part_size
    → i < length bytes
    → get_elem?
        (read_part bytes part_size
          (i / part_size + 1)
          (part_len (length bytes) part_size (i / part_size + 1)))
        (i % part_size)
      ≡ get_elem? bytes i
read_part_lem bytes part_size i pos lt =
    let split : i / part_size * part_size + i % part_size ≡ i = div-add-mod' i part_size in
    let small : i % part_size < part_size = mod-lt i pos in
    let q : i / part_size + 1 - 1 ≡ i / part_size = omega arith in
    rw q (
      read_part_at bytes part_size (i / part_size + 1)
        (min part_size (length bytes - i / part_size * part_size)) (i % part_size) (omega arith)
        (rw q (omega arith))
      ∙ rw (q, split))

-- The bytes that differ are marked.
abbrev pub Agrees : List ℕ → List ℕ → List DirtyRange → Type 0
Agrees old new ranges =
    (i : ℕ)
    → i < length new
    → covered (merge_dirty_ranges (map raw ranges)) i ≡ false
    → get_elem? new i ≡ get_elem? old i

uncovered :
    (ranges : List DirtyRange) (part_size n i : ℕ)
    → 0 < part_size
    → i < n
    → member (i / part_size + 1) (dirty_parts (map raw ranges) part_size n) ≡ false
    → covered (merge_dirty_ranges (map raw ranges)) i ≡ false
uncovered ranges part_size n i pos lt copied =
    elim (Bool-cases (covered (merge_dirty_ranges (map raw ranges)) i)) [
      | inl dirty ↦ absurd (cc (dirty_parts-covered (map raw ranges) part_size n i pos lt dirty))
      | inr clean ↦ clean
    ]

-- A file that agrees with the new bytes outside the dirty ranges, patched in the dirty parts, is
-- the new bytes.
pub Patched-eq :
    (old new bytes : List ℕ) (ranges : List DirtyRange) (part_size : ℕ)
    → 0 < part_size
    → Agrees old bytes ranges
    → Patched old new
        (length bytes)
        (dirty_parts (map raw ranges) part_size (length bytes))
        (read_part bytes part_size)
        part_size
    → new ≡ bytes
Patched-eq old new bytes ranges part_size pos agrees (long, byte) = list_ext new bytes long each
  where
    each : (i : ℕ) → i < length new → get_elem? new i ≡ get_elem? bytes i
    each i lt =
        let lt' : i < length bytes = omega arith in
        elim (Bool-cases
          (member (i / part_size + 1) (dirty_parts (map raw ranges) part_size (length bytes)))) [
            | inl named ↦ byte i lt' ∙ rw named (read_part_lem bytes part_size i pos lt')
            | inr copied ↦
                byte i lt'
                ∙ rw copied (
                    sym (agrees i lt' (uncovered ranges part_size (length bytes) i pos lt' copied)))
          ]
