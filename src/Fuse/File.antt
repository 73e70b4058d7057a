-- ===== src/Fuse/File.antt =====
-- An open file of the mount (internal/fs/fuse_mount.go, type `remoteFuseFile`). Each method holds the
-- handle's lock from start to end, so it is one step. Modification times, the caller's process and
-- the attributes sent back to the kernel are left out; `int` and `int64` have 64 bits.
pub mod Edits
pub mod Marks
pub mod Track
pub mod Flush
use ti_cli.Common.{
  ℕ, ◌+◌, ◌-◌, ◌*◌, ◌%◌, ◌^◌, Bool, true, false, not, ◌&&◌, ◌||◌, Option, none, some, List, [], ◌∷◌,
  ◌++◌, map, ltb, leb, if◌then◌else◌, length, replicate, take, drop,
}
use ti_cli.Common.Int.{ℤ, pos, negsuc, ltb_ℤ, pos_part, sub_ℕ}
use ti_cli.Common.Text.{Text, eqb, has_prefix}
use ti_cli.Common.Result.{Result, ok, err}
use ti_cli.Fuse.Version.{Version, known}
use ti_cli.Fuse.Errors.{FsError, Errno, eperm, einval, efbig, fuse_errno}
use ti_cli.Fuse.Ranges.{RawRange, DirtyRange, raw, merge_dirty_ranges}
use ti_cli.Fuse.Cache.{tree_prefix}
use ti_cli.Fuse.DataPlane.{DataPlane}
use ti_cli.Fuse.Runtime.{Runtime, write_with_dirty}

pub record File : Type 0 where
  pub path : Text
  pub bytes : List ℕ
  pub version : Version
  pub base_size : ℕ
  pub writable : Bool
  -- `openFlags` has O_TRUNC.
  pub truncating : Bool
  pub dirty : Bool
  pub ranges : List DirtyRange
  pub force_whole : Bool
  pub deleted : Bool
  pub closed : Bool
  pub mode : ℕ

abbrev pub max_int : ℕ
max_int = 2 ^ 63 - 1

-- An errno, or a run-time panic of Go.
pub data Fault : Type 0 where
  errno : Errno → Fault
  panics : Fault

-- The value of an `int64` after a sum that leaves its range.
unfoldable pub wrap : ℕ → ℤ
wrap n = let m = n % 2 ^ 64 in if ltb m (2 ^ 63) then pos m else sub_ℕ m (2 ^ 64)

unfoldable pub mark_dirty_range : List DirtyRange → ℕ → ℕ → List DirtyRange
mark_dirty_range ranges start end =
    if ltb end start
    then ranges
    else merge_dirty_ranges (map raw ranges ++ (record { start = pos start; end = pos end } ∷ []))

unfoldable pub new_file : Text → List ℕ → Bool → Bool → Version → File
unfolding mark_dirty_range
new_file path bytes writable dirty version = record {
  path = path;
  bytes = bytes;
  version = version;
  base_size = length bytes;
  writable = writable;
  truncating = false;
  dirty = dirty;
  ranges = if dirty then mark_dirty_range [] 0 (length bytes) else [];
  force_whole = false;
  deleted = false;
  closed = false;
  mode = 0;
}

-- `size` is the length of the buffer to fill.
unfoldable pub read : File → ℕ → ℤ → Result Errno (List ℕ)
read f size (negsuc n) = err einval
read f size (pos off) =
    let end = if ltb (length f.bytes) (off + size) then length f.bytes else off + size in
    if leb (length f.bytes) off then ok [] else ok (take (end - off) (drop off f.bytes))

-- `data[:n]` followed by zeros up to `n` bytes.
unfoldable pub fit : ℕ → List ℕ → List ℕ
fit n bytes = if leb n (length bytes) then take n bytes else bytes ++ replicate (n - length bytes) 0

-- `copy(bytes[off:], new)` within the bytes.
unfoldable pub splice : List ℕ → ℕ → List ℕ → List ℕ
splice bytes off new = take off bytes ++ (new ++ drop (off + length new) bytes)

-- The end of the write is computed in `int64`: past its range the slice expression panics.
unfoldable pub write : File → List ℕ → ℤ → File × Result Fault ℕ
unfolding fit splice mark_dirty_range
write f new (negsuc n) = if not f.writable then (f, err (errno eperm)) else (f, err (errno einval))
write f new (pos off) =
    let end = wrap (off + length new) in
    let grown =
      if ltb (length f.bytes) (pos_part end) then fit (pos_part end) f.bytes else f.bytes in
    if not f.writable
    then (f, err (errno eperm))
    else if ltb_ℤ (pos max_int) end
    then (f, err (errno efbig))
    else if ltb_ℤ end (pos off)
    then (f, err panics)
    else (
      record f {
        bytes = splice grown off new;
        dirty = true;
        ranges = mark_dirty_range f.ranges off (pos_part end);
      },
      ok (length new),
    )

unfoldable pub resize : List ℕ → ℕ → Result Errno (List ℕ)
unfolding fit
resize bytes size = if ltb max_int size then err efbig else ok (fit size bytes)

unfoldable pub set_mode : File → Option ℕ → File
set_mode f none = f
set_mode f (some mode) = record f { mode = mode; dirty = true; force_whole = true }

-- The size and the mode of the request, if it has them.
unfoldable pub setattr : File → Option ℕ → Option ℕ → File × Result Errno (Unit {0})
unfolding resize set_mode
setattr f none mode = (set_mode f mode, ok tt)
setattr f (some size) mode = elim (resize f.bytes size) [
  | err e ↦ if not f.writable then (f, err eperm) else (f, err e)
  | ok bytes ↦
      if not f.writable
      then (f, err eperm)
      else (set_mode (record f { bytes = bytes; dirty = true; force_whole = true }) mode, ok tt)
]

unfoldable pub refresh_after_path_truncate : File → Text → Version → File
refresh_after_path_truncate f path version =
    if f.closed || f.deleted || not f.writable || not (eqb f.path path)
    then f
    else if not f.truncating
    then f
    else record f { version = version }

unfoldable pub retarget : File → Text → Text → Version → File
retarget f source target version =
    let moved = λ (g : File). if known version then record g { version = version } else g in
    if eqb f.path source
    then moved (record f { path = target })
    else if has_prefix (tree_prefix source) f.path
    then moved (record f { path = target ++ drop (length source) f.path })
    else f

unfoldable pub mark_deleted : File → Text → File
mark_deleted f path =
    if eqb f.path path || has_prefix (tree_prefix path) f.path
    then record f { deleted = true }
    else f

module _ (d : DataPlane) where
  -- The hook of a layered mount.
  abbrev pub Commit : Type 0
  Commit = Runtime d → File → Runtime d × Option FsError

  abbrev pub clean_after : File → File
  clean_after f = record f {
    base_size = length f.bytes;
    ranges = [];
    force_whole = false;
    dirty = false;
  }

  abbrev pub sent_ranges : File → List DirtyRange
  sent_ranges f =
      if f.force_whole then record { start = 0; end = length f.bytes } ∷ [] else f.ranges

  unfoldable pub flush_commit :
      Runtime d → File → Commit → (Runtime d × File) × Result Errno (Unit {0})
  flush_commit r f commit =
      let (r', failed) = commit r f in
      elim failed [ some e ↦ ((r', f), err (fuse_errno e)) | none ↦ ((r', clean_after f), ok tt) ]

  unfoldable pub flush_write : Runtime d → ℕ → File → (Runtime d × File) × Result Errno (Unit {0})
  flush_write r now f =
      let (r', done) =
        write_with_dirty d r now f.path f.bytes f.version f.base_size (sent_ranges f) in
      elim done [
        | err e ↦ ((r', f), err (fuse_errno e))
        | ok v ↦ ((r', record (clean_after f) { version = v }), ok tt)
      ]

  unfoldable pub flush :
      Runtime d → ℕ → File → Option Commit → (Runtime d × File) × Result Errno (Unit {0})
  unfolding flush_commit flush_write
  flush r now f commit =
      if not f.writable || not f.dirty
      then ((r, f), ok tt)
      else if f.deleted
      then ((r, record f { dirty = false }), ok tt)
      else elim commit [ some c ↦ flush_commit r f c | none ↦ flush_write r now f ]

  unfoldable pub release :
      Runtime d → ℕ → File → Option Commit → (Runtime d × File) × Result Errno (Unit {0})
  unfolding flush
  release r now f commit =
      if f.closed then ((r, f), ok tt) else flush r now (record f { closed = true }) commit
