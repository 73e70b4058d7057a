-- ===== src/Fuse/Errors.antt =====
-- Errors of the mount and their classes (internal/fs/fuse_mount.go, webdavfs.go, data.go).
use ti_cli.Common.{
  ℕ, Bool, true, false, ◌&&◌, ◌||◌, ◌++◌, ◌≡◌, ◌↔◌, refl, arith, ◌==◌, if◌then◌else◌,
}
use ti_cli.Common.Text.{Text, codes, eqb, to_lower, contains_text}

-- What the tests read of an `api.Error`.
pub record ApiError : Type 0 where
  pub status : ℕ
  pub code : Text
  pub message : Text
  pub body : Text

-- The sentinels of package `os`, `errFuseWriteConflict`, errors of the data plane, and all others.
pub data FsError : Type 0 where
  api : ApiError → FsError
  not_exist permission exist invalid write_conflict other : FsError

pub data Errno : Type 0 where
  eperm einval efbig estale enoent eacces eexist eio erofs enotsup enotdir eisdir : Errno

unfoldable pub is_not_found : FsError → Bool
is_not_found (api e) = e.status == 404
is_not_found _ = false

unfoldable pub map_webdav_error : FsError → FsError
map_webdav_error (api e) =
    if e.status == 404
    then not_exist
    else if e.status == 403 || e.status == 401
    then permission
    else if e.status == 409
    then exist
    else api e
map_webdav_error not_exist = not_exist
map_webdav_error e = e

unfoldable pub errno_of : FsError → Errno
errno_of write_conflict = estale
errno_of not_exist = enoent
errno_of permission = eacces
errno_of exist = eexist
errno_of invalid = einval
errno_of _ = eio

unfoldable pub fuse_errno : FsError → Errno
unfolding map_webdav_error errno_of
fuse_errno e = errno_of (map_webdav_error e)

unfoldable pub should_fallback_stat : FsError → Bool
should_fallback_stat (api e) =
    eqb e.code (codes "api.contract_gap")
    || eqb e.code (codes "api.decode_response")
    || e.status == 400
should_fallback_stat _ = false

unfoldable pub mentions_missing_patch : Text → Bool
mentions_missing_patch s =
    contains_text (codes "unknown") s
    || contains_text (codes "not s3") s
    || contains_text (codes "s3 not configured") s

unfoldable pub should_fallback_patch : FsError → Bool
unfolding mentions_missing_patch
should_fallback_patch (api e) =
    if e.status == 404 || e.status == 405 || eqb e.code (codes "api.contract_gap")
    then true
    else e.status == 400 && mentions_missing_patch (to_lower (e.message ++ codes " " ++ e.body))
should_fallback_patch _ = false

-- A lost update, and nothing else, is reported as ESTALE.
pub fuse_errno-estale : (e : FsError) → (fuse_errno e ≡ estale) ↔ (e ≡ write_conflict)
unfolding fuse_errno
fuse_errno-estale e = (ground arith, ground arith)

-- A conflict never leads to a write of the whole file.
pub should_fallback_patch-conflict : should_fallback_patch write_conflict ≡ false
unfolding should_fallback_patch
should_fallback_patch-conflict = refl
