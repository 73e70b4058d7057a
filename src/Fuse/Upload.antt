-- ===== src/Fuse/Upload.antt =====
-- How a changed file reaches the data plane (internal/fs/fuse_mount.go: `upload`, `patchUpload`,
-- `checkWriteBase`, `shouldPatchFuseWrite`; internal/api/fs/upload.go: `CalcAdaptivePartSize`).
-- The runtime and its client are there; the nil cases of the source do not arise.
pub mod Patch
pub mod Stores
pub mod Guard
use ti_cli.Common.{
  ℕ, ◌+◌, ◌-◌, ◌*◌, ◌/◌, ◌^◌, Bool, true, false, not, ◌&&◌, ◌||◌, Option, none, some, List, [], ◌∷◌,
  ◌++◌, map, ltb, leb, if◌then◌else◌, length, replicate, slice, ◌==◌, max,
}
use ti_cli.Common.Int.{ℤ, is_positive}
use ti_cli.Common.Text.{Text}
use ti_cli.Common.Result.{Result, ok, err, ◌>>=◌, ◌>>◌}
use ti_cli.Fuse.Version.{Version, known, conflicts_with, with_revision}
use ti_cli.Fuse.Errors.{
  FsError, not_exist, write_conflict, is_not_found, map_webdav_error, should_fallback_stat,
  should_fallback_patch,
}
use ti_cli.Fuse.Ranges.{DirtyRange, raw, merge_dirty_ranges, total_dirty, dirty_parts}
use ti_cli.Fuse.DataPlane.{DataPlane, PartReader}

-- Sizes are non-negative `int64`.
unfoldable pub adaptive_part_size : ℕ → ℕ
adaptive_part_size total =
    let align = 2 ^ 20 in
    let pieces = (total + 9999) / 10000 in
    let aligned = (pieces + align - 1) / align * align in
    let at_least = if ltb aligned (8 * 2 ^ 20) then 8 * 2 ^ 20 else aligned in
    if ltb (512 * 2 ^ 20) at_least then 512 * 2 ^ 20 else at_least

unfoldable pub should_patch : Version → ℕ → ℕ → List DirtyRange → Bool
should_patch base base_size new_size ranges =
    if not (known base)
      || not (is_positive base.revision)
      || base_size == 0
      || new_size == 0
      || length ranges == 0
    then false
    else if not (new_size == base_size)
    then false
    else ltb 0 (total_dirty (merge_dirty_ranges (map raw ranges)))
      && ltb (total_dirty (merge_dirty_ranges (map raw ranges))) new_size

-- The reader that `patchUpload` hands to `PatchFile`.
unfoldable pub read_part : List ℕ → ℕ → PartReader
read_part bytes part_size number size =
    let offset = (number - 1) * part_size in
    let end = if ltb (length bytes) (offset + size) then length bytes else offset + size in
    if leb (length bytes) offset
    then replicate size 0
    else slice offset end bytes ++ replicate (size - (end - offset)) 0

module _ (d : DataPlane) where
  open d use {State, stat_metadata, stat, write_file, patch_file}

  unfoldable pub stat_fallback : State → Text → Result FsError Version
  stat_fallback s p = elim (stat s p) [
    | ok v ↦ ok v
    | err e ↦ if is_not_found e then err not_exist else err (map_webdav_error e)
  ]

  unfoldable pub stat_version : State → Text → Result FsError Version
  unfolding stat_fallback
  stat_version s p = elim (stat_metadata s p) [
    | ok v ↦ ok v
    | err e ↦
        if is_not_found e
        then err not_exist
        else if should_fallback_stat e
        then stat_fallback s p
        else err (map_webdav_error e)
  ]

  abbrev pub is_not_exist : FsError → Bool
  is_not_exist FsError.not_exist = true
  is_not_exist _ = false

  unfoldable pub check_write_base : State → Text → Version → Result FsError (Unit {0})
  check_write_base s p base = if not (known base) then ok tt else elim (stat_version s p) [
    | err e ↦ if is_not_exist (map_webdav_error e) then err write_conflict else err e
    | ok v ↦ if conflicts_with v base then err write_conflict else ok tt
  ]

  unfoldable pub patch_upload :
      State → Text → List ℕ → Version → ℕ → List DirtyRange → State × Result FsError Version
  patch_upload s p bytes base base_size ranges =
      let part_size = adaptive_part_size (max base_size (length bytes)) in
      let parts = dirty_parts (map raw ranges) part_size (length bytes) in
      let (s', failed) =
        patch_file s p (length bytes) parts (read_part bytes part_size) part_size base.revision in
      if length parts == 0
      then (s, ok base)
      else elim failed [ some e ↦ (s', err e) | none ↦ (s', stat_version s' p) ]

  unfoldable pub write_whole : State → Text → List ℕ → Version → State × Result FsError Version
  write_whole s p bytes base =
      let (s', r) = write_file s p bytes in (s', r >>= λ revision. ok (with_revision base revision))

  unfoldable pub upload :
      State → Text → List ℕ → Version → ℕ → List DirtyRange → State × Result FsError Version
  upload s p bytes base base_size ranges = elim (check_write_base s p base) [
    | err e ↦ (s, err e)
    | ok _ ↦
        let (s', r) = patch_upload s p bytes base base_size ranges in
        if should_patch base base_size (length bytes) ranges
        then elim r [
          | ok v ↦ (s', ok v)
          | err e ↦ if should_fallback_patch e then write_whole s' p bytes base else (s', err e)
        ]
        else write_whole s p bytes base
  ]
