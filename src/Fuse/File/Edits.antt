-- ===== src/Fuse/File/Edits.antt =====
-- What the calls of a program do to the bytes of an open file.
use ti_cli.Common.{
  ℕ, ◌+◌, ◌-◌, ◌^◌, ◌≤◌, ◌<◌, true, false, List, ◌++◌, ◌≡◌, ◌⊎◌, inl, inr, refl, ◌∙◌, ap, arith,
  ltb, leb, if◌then◌else◌, Bool-cases, length, take, drop, replicate, get_elem?, length-append,
  length-take, length-drop, length-replicate, get_elem?-append_left, get_elem?-append_right,
  get_elem?-take, get_elem?-drop, drop-append, take-append, subst,
}
use ti_cli.Common.Int.{pos, negsuc}
use ti_cli.Common.Result.{ok, err}
use ti_cli.Fuse.File.{File, panics, wrap, mark_dirty_range, read, fit, splice, write}

pub wrap_small : (n : ℕ) → n < 2 ^ 63 → wrap n ≡ pos n
unfolding wrap
wrap_small n h = ground arith

wrap_large : (n : ℕ) → 2 ^ 63 ≤ n → n < 2 ^ 64 → wrap n ≡ negsuc (2 ^ 64 - 1 - n)
unfolding wrap
wrap_large n h k = ground arith

-- The file after a write that is carried out.
abbrev pub written : File → List ℕ → ℕ → File
written f new off = record f {
  bytes =
      splice
        (if ltb (length f.bytes) (off + length new)
          then fit (off + length new) f.bytes
          else f.bytes)
        off new;
  dirty = true;
  ranges = mark_dirty_range f.ranges off (off + length new);
}

pub write_fits :
    (f : File) (new : List ℕ) (off : ℕ)
    → f.writable ≡ true
    → off + length new < 2 ^ 63
    → write f new (pos off) ≡ (written f new off, ok (length new))
unfolding write
write_fits f new off w h = rw (wrap_small (off + length new) h, w) (ground arith)

-- EFBIG is not the answer to a write to a writable file that ends past the largest `int64`, at an
-- offset and with a length below 2^63: it panics.
pub write_overflows :
    (f : File) (new : List ℕ) (off : ℕ)
    → f.writable ≡ true
    → off < 2 ^ 63
    → length new < 2 ^ 63
    → 2 ^ 63 ≤ off + length new
    → write f new (pos off) ≡ (f, err panics)
unfolding write
write_overflows f new off w h k over =
    rw (wrap_large (off + length new) over (omega arith), w) (ground arith)

pub length-fit : (n : ℕ) (xs : List ℕ) → length (fit n xs) ≡ n
unfolding fit
length-fit n xs = ground (
  arith,
  length-take n xs,
  length-append xs (replicate (n - length xs) 0),
  length-replicate {A = ℕ} (n - length xs) 0,
)

pub get_elem?-fit :
    (n i : ℕ) (xs : List ℕ) → i < n → i < length xs → get_elem? (fit n xs) i ≡ get_elem? xs i
unfolding fit
get_elem?-fit n i xs h k =
    ground
      (arith, get_elem?-take n i xs h, get_elem?-append_left xs (replicate (n - length xs) 0) i k)

pub length-splice :
    (xs new : List ℕ) (off : ℕ)
    → off + length new ≤ length xs
    → length (splice xs off new) ≡ length xs
unfolding splice
length-splice xs new off h = omega (
  arith,
  length-append (take off xs) (new ++ drop (off + length new) xs),
  length-append new (drop (off + length new) xs),
  length-take off xs,
  length-drop (off + length new) xs,
)

-- Bytes outside the written range stay.
pub get_elem?-splice_outside :
    (xs new : List ℕ) (off i : ℕ)
    → off + length new ≤ length xs
    → (i < off) ⊎ (off + length new ≤ i)
    → get_elem? (splice xs off new) i ≡ get_elem? xs i
unfolding splice
get_elem?-splice_outside xs new off i h (inl below) =
    get_elem?-append_left (take off xs) _ i (omega (arith, length-take off xs))
    ∙ get_elem?-take off i xs below
get_elem?-splice_outside xs new off i h (inr above) =
    let front : length (take off xs) ≡ off = omega (arith, length-take off xs) in
    let rest = drop (off + length new) xs in
    get_elem?-append_right (take off xs) (new ++ rest) i (omega arith)
    ∙ rw front (
        get_elem?-append_right new rest (i - off) (omega arith)
        ∙ get_elem?-drop (off + length new) (i - off - length new) xs
        ∙ ap (get_elem? xs) (omega arith))

-- Bytes inside it are the new ones.
pub get_elem?-splice_inside :
    (xs new : List ℕ) (off i : ℕ)
    → off + length new ≤ length xs
    → i < length new
    → get_elem? (splice xs off new) (off + i) ≡ get_elem? new i
unfolding splice
get_elem?-splice_inside xs new off i h lt =
    let front : length (take off xs) ≡ off = omega (arith, length-take off xs) in
    let rest = drop (off + length new) xs in
    get_elem?-append_right (take off xs) (new ++ rest) (off + i) (omega arith)
    ∙ rw front (ap (get_elem? (new ++ rest)) (omega arith) ∙ get_elem?-append_left new rest i lt)

-- The bytes that a write starts from: those of the file, extended by zeros up to the write's end.
abbrev pub grown : File → List ℕ → ℕ → List ℕ
grown f new off =
    if ltb (length f.bytes) (off + length new) then fit (off + length new) f.bytes else f.bytes

pub length-grown :
    (f : File) (new : List ℕ) (off : ℕ)
    → (off + length new ≤ length (grown f new off)) × (length f.bytes ≤ length (grown f new off))
length-grown f new off = ground (arith, length-fit (off + length new) f.bytes)

-- Growing keeps the bytes that there were.
pub get_elem?-grown :
    (f : File) (new : List ℕ) (off i : ℕ)
    → i < length f.bytes
    → get_elem? (grown f new off) i ≡ get_elem? f.bytes i
get_elem?-grown f new off i lt = ground (arith, get_elem?-fit (off + length new) i f.bytes)

slice-splice :
    (xs new : List ℕ) (off : ℕ)
    → off ≤ length xs
    → take (length new) (drop off (splice xs off new)) ≡ new
unfolding splice
slice-splice xs new off h =
    let rest = new ++ drop (off + length new) xs in
    let front : length (take off xs) ≡ off = omega (arith, length-take off xs) in
    let tail : drop off (take off xs ++ rest) ≡ rest =
      subst (λ n. drop n (take off xs ++ rest) ≡ rest) front (drop-append (take off xs) rest) in
    rw tail (take-append new (drop (off + length new) xs))

read_within :
    (f : File) (size off : ℕ)
    → off + size ≤ length f.bytes
    → read f size (pos off) ≡ ok (take size (drop off f.bytes))
unfolding read
read_within f size off h =
    let fits : ltb (length f.bytes) (off + size) ≡ false = ground arith in
    let width : off + size - off ≡ size = omega arith in
    elim (Bool-cases (leb (length f.bytes) off)) [
      | inl past ↦ let none_left : size ≡ 0 = ground arith in rw (past, none_left) refl
      | inr within ↦ rw (within, fits, width) refl
    ]

-- After a write to a writable file that ends below 2^63, a read of the same range returns the
-- written bytes.
pub read-write :
    (f : File) (new : List ℕ) (off : ℕ)
    → f.writable ≡ true
    → off + length new < 2 ^ 63
    → read (write f new (pos off)).0 (length new) (pos off) ≡ ok new
read-write f new off w h =
    let (room, longer) = length-grown f new off in
    let whole = grown f new off in
    rw (write_fits f new off w h) (
      read_within (written f new off) (length new) off
        (omega (arith, length-splice whole new off room))
      ∙ ap ok (slice-splice whole new off (omega arith)))

-- A write to a writable file that ends below 2^63 leaves every byte that the file had outside the
-- written range as it was.
pub write_keeps :
    (f : File) (new : List ℕ) (off i : ℕ)
    → f.writable ≡ true
    → off + length new < 2 ^ 63
    → i < length f.bytes
    → (i < off) ⊎ (off + length new ≤ i)
    → get_elem? (write f new (pos off)).0.bytes i ≡ get_elem? f.bytes i
write_keeps f new off i w h lt outside =
    let (room, longer) = length-grown f new off in
    rw (write_fits f new off w h) (
      get_elem?-splice_outside (grown f new off) new off i room outside
      ∙ get_elem?-grown f new off i lt)
