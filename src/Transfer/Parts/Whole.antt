-- ===== src/Transfer/Parts/Whole.antt =====
-- The parts of a file put together are the file.
use native.Mathlib.Nat.{div-lt_iff_lt-mul, lt-div-mul-add, le-div_iff_mul-le, suc-mul}
use ti_cli.Common.{
  ℕ, zero, suc, ◌+◌, ◌-◌, ◌*◌, ◌/◌, ◌^◌, ◌≤◌, ◌<◌, ◌⊎◌, some, List, [], ◌∷◌, ltb, ◌==◌, length,
  take, drop, concat, ◌≡◌, refl, sym, ap, ◌∙◌, arith, inl, inr, Bool-cases, append-nil,
  take-append-drop, length-drop, length-zero,
}
use ti_cli.Fuse.File.{wrap}
use ti_cli.Common.Int.{ℤ, pos}
use ti_cli.Fuse.Upload.{adaptive_part_size}
use ti_cli.Transfer.Parts.{
  part_size, Part, parts_from, calc_parts, part_bytes, bytes_of, bounded_upload_parallelism,
  upload_parallelism,
}

drop_none : (n : ℕ) → drop {A = ℕ} n [] ≡ []
drop_none zero = refl
drop_none (suc n) = refl

drop-drop : (a b : ℕ) (xs : List ℕ) → drop b (drop a xs) ≡ drop (a + b) xs
drop-drop zero b xs = ap (λ n. drop n xs) (let same : b ≡ zero + b = omega arith in same)
drop-drop (suc a) b [] = drop_none b ∙ sym (drop_none (suc a + b))
drop-drop (suc a) b (x ∷ xs) =
    drop-drop a b xs
    ∙ ap (λ n. drop n (x ∷ xs)) (let same : suc (a + b) ≡ suc a + b = omega arith in same)

take_all : (n : ℕ) (xs : List ℕ) → length xs ≤ n → take n xs ≡ xs
take_all zero xs h = sym (length-zero xs h)
take_all (suc n) [] h = refl
take_all (suc n) (x ∷ xs) h = ap (λ l. x ∷ l) (take_all n xs (omega arith))

part_size_pos : (value : ℤ) → 0 < part_size value
unfolding part_size
part_size_pos value = ground arith

-- The number of parts is enough, and no part is beyond the end.
module _ (size total : ℕ) (size_pos : 0 < size) where
  abbrev count : ℕ
  count = (total + size - 1) / size

  reaches : total ≤ count * size
  reaches = let near = lt-div-mul-add {a = total + size - 1} size_pos in omega (arith, near)

  needed : (i : ℕ) → i < count → i * size < total
  needed i h =
      let whole : suc i * size ≤ total + size - 1 = (le-div_iff_mul-le size_pos).0 h in
      omega (arith, whole, suc-mul i size)

  next_part : (i : ℕ) → (i + 1) * size ≡ i * size + size
  next_part i = ap (λ k. k * size) (let same : i + 1 ≡ suc i = omega arith in same) ∙ suc-mul i size

  at_end : (bytes : List ℕ) (i : ℕ) → length bytes ≡ total → i ≡ count → drop (i * size) bytes ≡ []
  at_end bytes i long at =
      let same = ap (λ k. k * size) at in
      length-zero (drop (i * size) bytes)
        (omega (arith, length-drop (i * size) bytes, reaches, same))

  -- From a part on, the parts have the rest of the file.
  parts_from_rest :
      (bytes : List ℕ) (i n : ℕ)
      → length bytes ≡ total
      → i + n ≡ count
      → concat (bytes_of bytes size (parts_from total size count i n)) ≡ drop (i * size) bytes
  unfolding parts_from bytes_of part_bytes
  parts_from_rest bytes i zero long at = sym (at_end bytes i long (omega arith))
  parts_from_rest bytes i (suc n) long at =
      let rest = parts_from_rest bytes (i + 1) n long (omega arith) in
      let here : i + 1 - 1 ≡ i = omega arith in
      elim (Bool-cases (i == count - 1)) [
        | inl last ↦
            let whole =
              take_all (total - i * size) (drop (i * size) bytes)
                (omega (arith, length-drop (i * size) bytes)) in
            let done = at_end bytes (i + 1) long (ground (arith, last)) in
            rw (last, here, whole, rest ∙ done) (append-nil (drop (i * size) bytes))
        | inr more ↦
            let step =
              rest ∙ ap (λ k. drop k bytes) (next_part i) ∙ sym (drop-drop (i * size) size bytes) in
            rw (more, here, step) (take-append-drop size (drop (i * size) bytes))
      ]

abbrev all_parts : ℕ → ℕ → List Part
all_parts total size = let n = (total + size - 1) / size in parts_from total size n 0 n

calc_parts_fits :
    (total : ℕ) (value : ℤ)
    → total + part_size value ≤ 2 ^ 63
    → calc_parts total value ≡ some (all_parts total (part_size value))
calc_parts_fits total value h =
    let same : wrap (total + part_size value - 1) ≡ pos (total + part_size value - 1) =
      wrap_small (total + part_size value - 1)
        (let positive = part_size_pos value in omega arith) in
    unfold calc_parts in rw (same, calc_parts) refl
  where
    wrap_small : (n : ℕ) → n < 2 ^ 63 → wrap n ≡ pos n
    wrap_small n k = unfold wrap in ground arith

-- Where the size of a file and the part size, be it the default one, come to no more than 2^63, the
-- parts are made, and what they read of the file, put together in their order, is the file.
pub calc_parts_whole :
    (bytes : List ℕ) (value : ℤ)
    → length bytes + part_size value ≤ 2 ^ 63
    → (parts : List Part) × (calc_parts (length bytes) value ≡ some parts)
      × (concat (bytes_of bytes (part_size value) parts) ≡ bytes)
calc_parts_whole bytes value h = (
  all_parts (length bytes) (part_size value),
  calc_parts_fits (length bytes) value h,
  parts_from_rest (part_size value) (length bytes) (part_size_pos value) bytes 0
        (count (part_size value) (length bytes) (part_size_pos value)) refl (omega arith)
      ∙ (let same : 0 * part_size value ≡ 0 = omega arith in ap (λ k. drop k bytes) same),
)

-- The parts have the numbers from `i + 1` on, and each has between one byte and the part size.
abbrev pub InOrder : ℕ → ℕ → List Part → Type 0
InOrder size i [] = Unit
InOrder size i (p ∷ ps) =
    (p.number ≡ i + 1) × (0 < p.size) × (p.size ≤ size) × InOrder size (i + 1) ps

parts_from-InOrder :
    (size total : ℕ) (size_pos : 0 < size) (i n : ℕ)
    → i + n ≡ count size total size_pos
    → InOrder size i (parts_from total size (count size total size_pos) i n)
unfolding parts_from
parts_from-InOrder size total size_pos i zero at = tt
parts_from-InOrder size total size_pos i (suc n) at =
    let rest = parts_from-InOrder size total size_pos (i + 1) n (omega arith) in
    let inside = needed size total size_pos i (omega arith) in
    let enough = reaches size total size_pos in
    elim (Bool-cases (i == count size total size_pos - 1)) [
      | inl last ↦
          let same : count size total size_pos ≡ i + 1 = ground (arith, last) in
          let end = ap (λ k. k * size) same ∙ next_part size total size_pos i in
          rw last (refl, omega arith, omega (arith, enough, end), rest)
      | inr more ↦ rw more (refl, size_pos, omega arith, rest)
    ]

-- Those parts are numbered from 1 without a gap, and none is empty or larger than the part size.
pub calc_parts-InOrder :
    (total : ℕ) (value : ℤ) (parts : List Part)
    → total + part_size value ≤ 2 ^ 63
    → calc_parts total value ≡ some parts
    → InOrder (part_size value) 0 parts
calc_parts-InOrder total value parts h e =
    let same : parts ≡ all_parts total (part_size value) =
      (let one = sym e ∙ calc_parts_fits total value h in cc) in
    rw same (
      parts_from-InOrder (part_size value) total (part_size_pos value) 0
        (count (part_size value) total (part_size_pos value)) (omega arith))

length-parts_from : (total size c i n : ℕ) → length (parts_from total size c i n) ≡ n
unfolding parts_from
length-parts_from total size c i zero = refl
length-parts_from total size c i (suc n) = ap suc (length-parts_from total size c (i + 1) n)

part_size_of : (size : ℕ) → 0 < size → part_size (pos size) ≡ size
unfolding part_size
part_size_of size h = ground arith

adaptive_part_size_enough :
    (total : ℕ)
    → total ≤ 10000 * (512 * 2 ^ 20)
    → (total ≤ 10000 * adaptive_part_size total) × (0 < adaptive_part_size total)
unfolding adaptive_part_size
adaptive_part_size_enough total h = (ground arith, ground arith)

adaptive_part_size_top : (total : ℕ) → adaptive_part_size total ≤ 512 * 2 ^ 20
unfolding adaptive_part_size
adaptive_part_size_top total = ground arith

-- With the part size that is chosen for its size, a file of up to 10000 times 512 MiB has at most
-- 10000 parts.
pub length-calc_parts :
    (total : ℕ)
    → total ≤ 10000 * (512 * 2 ^ 20)
    → (parts : List Part) × (calc_parts total (pos (adaptive_part_size total)) ≡ some parts)
      × (length parts ≤ 10000)
length-calc_parts total h =
    let (enough, positive) = adaptive_part_size_enough total h in
    let few : (total + adaptive_part_size total - 1) / adaptive_part_size total < 10001 =
      (div-lt_iff_lt-mul positive).1 (omega (arith, enough)) in
    let size = part_size (pos (adaptive_part_size total)) in
    let long =
      length-parts_from total size ((total + size - 1) / size) 0 ((total + size - 1) / size)
      ∙ ap (λ s. (total + s - 1) / s) (part_size_of (adaptive_part_size total) positive) in
    (
      all_parts total size,
      calc_parts_fits total (pos (adaptive_part_size total)) (
          let top = adaptive_part_size_top total in
          let here = part_size_of (adaptive_part_size total) positive in omega arith),
      omega (arith, long, few),
    )

-- An upload runs 1 to 16 parts at a time, and their buffers hold at most 256 MiB unless it is one
-- part at a time.
pub upload_buffers :
    (value : ℤ) (parts : ℕ)
    → let n = bounded_upload_parallelism value parts in
      (1 ≤ n) × (n ≤ 16) × ((n ≡ 1) ⊎ (n * part_size value ≤ 256 * 2 ^ 20))
upload_buffers value parts =
    let fits =
      le-div_iff_mul-le {x = bounded_upload_parallelism value parts} {y = 256 * 2 ^ 20}
        (part_size_pos value) in
    unfold bounded_upload_parallelism upload_parallelism in
    elim (Bool-cases (ltb (256 * 2 ^ 20 / part_size value) 1)) [
      | inl small ↦ rw small (ground arith, ground arith, inl (ground arith))
      | inr large ↦
          (ground (arith, large), ground (arith, large), inr (fits.0 (ground (arith, large))))
    ]
