-- ===== src/Fuse/File/Track.antt =====
-- The calls on an open file (internal/fs/fuse_mount.go), and what they do to its marks.
use ti_cli.Common.{
  ℕ, ◌+◌, ◌^◌, ◌<◌, true, false, Option, none, some, List, [], ◌∷◌, ◌≡◌, inl, inr, refl, sym, ◌∙◌,
  arith, ltb, Bool-cases, length,
}
use ti_cli.Common.Int.{ℤ, pos, negsuc}
use ti_cli.Common.Result.{Result-cases}
use ti_cli.Fuse.Version.{Version}
use ti_cli.Common.Text.{Text}
use ti_cli.Fuse.File.{
  File, write, resize, set_mode, setattr, refresh_after_path_truncate, retarget, mark_deleted,
}
use ti_cli.Fuse.File.Edits.{write_fits, write_overflows}
use ti_cli.Fuse.File.Marks.{Tracks, written-Tracks}

-- The calls that change an open file between two flushes.
pub data Call : Type 0 where
  writes : List ℕ → ℤ → Call
  sets_attributes : Option ℕ → Option ℕ → Call
  moves : Text → Text → Version → Call
  deletes : Text → Call
  truncates_path : Text → Version → Call

unfoldable pub apply : File → Call → File
apply f (writes new off) = (write f new off).0
apply f (sets_attributes size mode) = (setattr f size mode).0
apply f (moves source target version) = retarget f source target version
apply f (deletes path) = mark_deleted f path
apply f (truncates_path path version) = refresh_after_path_truncate f path version

unfoldable pub apply_all : File → List Call → File
unfolding apply
apply_all f [] = f
apply_all f (c ∷ cs) = apply_all (apply f c) cs

-- Offsets are `int64`, and a buffer has less than 2^63 bytes.
abbrev pub InRange : Call → Type 0
InRange (writes new (pos off)) = (off < 2 ^ 63) × (length new < 2 ^ 63)
InRange (writes new (negsuc n)) = Unit
InRange (sets_attributes size mode) = Unit
InRange (moves source target version) = Unit
InRange (deletes path) = Unit
InRange (truncates_path path version) = Unit

abbrev pub AllInRange : List Call → Type 0
AllInRange [] = Unit
AllInRange (c ∷ cs) = InRange c × AllInRange cs

write_refused : (f : File) (new : List ℕ) (off : ℤ) → f.writable ≡ false → (write f new off).0 ≡ f
unfolding write
write_refused f new (pos off) h = rw h refl
write_refused f new (negsuc n) h = rw h refl

write_negative : (f : File) (new : List ℕ) (n : ℕ) → (write f new (negsuc n)).0 ≡ f
unfolding write
write_negative f new n = ground arith

write-Tracks :
    (base : List ℕ) (f : File) (new : List ℕ) (off : ℤ)
    → InRange (writes new off)
    → Tracks base f
    → Tracks base (write f new off).0
write-Tracks base f new (negsuc n) h t = rw (write_negative f new n) t
write-Tracks base f new (pos off) h t = elim (Bool-cases f.writable) [
  | inr closed ↦ rw (write_refused f new (pos off) closed) t
  | inl w ↦ elim (Bool-cases (ltb (off + length new) (2 ^ 63))) [
    | inl fits ↦ rw (write_fits f new off w (ground arith)) (written-Tracks base f new off t)
    | inr over ↦ rw (write_overflows f new off w h.0 h.1 (ground arith)) t
  ]
]

whole-Tracks :
    (base : List ℕ) (f : File)
    → f.force_whole ≡ true
    → f.dirty ≡ true
    → length base ≡ f.base_size
    → Tracks base f
whole-Tracks base f h k s = record { size = s; marks = inl h; unchanged = λ e. absurd (cc) }

set_mode-Tracks :
    (base : List ℕ) (f : File) (mode : Option ℕ) → Tracks base f → Tracks base (set_mode f mode)
unfolding set_mode
set_mode-Tracks base f none t = t
set_mode-Tracks base f (some mode) t = whole-Tracks base _ refl refl t.size

setattr-Tracks :
    (base : List ℕ) (f : File) (size mode : Option ℕ)
    → Tracks base f
    → Tracks base (setattr f size mode).0
unfolding setattr
setattr-Tracks base f none mode t = set_mode-Tracks base f mode t
setattr-Tracks base f (some size) mode t = elim (Result-cases (resize f.bytes size)) [
  | inr (e, r) ↦ let same : (setattr f (some size) mode).0 ≡ f = ground arith in rw same t
  | inl (bytes, r) ↦ elim (Bool-cases f.writable) [
    | inr w ↦ let same : (setattr f (some size) mode).0 ≡ f = ground arith in rw same t
    | inl w ↦
        let g : File = record f { bytes = bytes; dirty = true; force_whole = true } in
        let resized : (setattr f (some size) mode).0 ≡ set_mode g mode = ground arith in
        rw resized (set_mode-Tracks base g mode (whole-Tracks base g refl refl t.size))
  ]
]

-- Tracking does not depend on the path, the version or the marks of deletion.
abbrev pub SameBytes : File → File → Type 0
SameBytes f g =
    (g.bytes ≡ f.bytes)
    × (g.base_size ≡ f.base_size)
    × (g.ranges ≡ f.ranges)
    × (g.force_whole ≡ f.force_whole)
    × (g.dirty ≡ f.dirty)

SameBytes-Tracks : (base : List ℕ) (f g : File) → SameBytes f g → Tracks base f → Tracks base g
SameBytes-Tracks base f g (b, s, r, w, y) t = record {
  size = t.size ∙ sym s;
  marks = elim t.marks [
    | inl whole ↦ inl (w ∙ whole)
    | inr a ↦ inr (record {
      same_size = t.size ∙ sym s;
      no_shorter = rw b a.no_shorter;
      unmarked = λ i lt c. rw b (a.unmarked i lt (rw r at c));
    })
  ];
  unchanged = λ e. b ∙ t.unchanged (sym y ∙ e);
}

retarget-SameBytes :
    (f : File) (source target : Text) (version : Version)
    → SameBytes f (retarget f source target version)
unfolding retarget
retarget-SameBytes f source target version = ground arith

mark_deleted-SameBytes : (f : File) (path : Text) → SameBytes f (mark_deleted f path)
unfolding mark_deleted
mark_deleted-SameBytes f path = ground arith

refresh-SameBytes :
    (f : File) (path : Text) (version : Version)
    → SameBytes f (refresh_after_path_truncate f path version)
unfolding refresh_after_path_truncate
refresh-SameBytes f path version = ground arith

apply-Tracks :
    (base : List ℕ) (f : File) (c : Call) → InRange c → Tracks base f → Tracks base (apply f c)
unfolding apply
apply-Tracks base f (writes new off) h t = write-Tracks base f new off h t
apply-Tracks base f (sets_attributes size mode) h t = setattr-Tracks base f size mode t
apply-Tracks base f (moves source target version) h t =
    SameBytes-Tracks base f _ (retarget-SameBytes f source target version) t
apply-Tracks base f (deletes path) h t = SameBytes-Tracks base f _ (mark_deleted-SameBytes f path) t
apply-Tracks base f (truncates_path path version) h t =
    SameBytes-Tracks base f _ (refresh-SameBytes f path version) t

-- Whatever calls with offsets and lengths below 2^63 are made on an open file that tracks its
-- base, it tracks it afterwards.
pub apply_all-Tracks :
    (base : List ℕ) (f : File) (cs : List Call)
    → AllInRange cs
    → Tracks base f
    → Tracks base (apply_all f cs)
unfolding apply_all
apply_all-Tracks base f [] h t = t
apply_all-Tracks base f (c ∷ cs) h t =
    apply_all-Tracks base (apply f c) cs h.1 (apply-Tracks base f c h.0 t)
