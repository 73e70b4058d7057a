-- ===== src/Fuse/Nodes/Attributes.antt =====
-- `Getattr` and `Setattr` of a path (internal/fs/fuse_mount.go). Times of local files are left out.
use Prim.Native.Nat.{bit_and}
use ti_cli.Common.{
  ℕ, Bool, true, false, not, ◌&&◌, Option, none, some, List, [], ◌∷◌, if◌then◌else◌, length, ◌==◌,
}
use ti_cli.Common.Text.{Text, codes, eqb}
use ti_cli.Common.Result.{Result, ok, err}
use ti_cli.Paths.Remote.{is_local_only}
use ti_cli.Fuse.Version.{Version}
use ti_cli.Fuse.Errors.{Errno, enoent, erofs, eisdir, fuse_errno}
use ti_cli.Fuse.Metadata.{MetaStore, set_entry_mode}
use ti_cli.Fuse.DataPlane.{DataPlane}
use ti_cli.Fuse.Upload.{stat_version}
use ti_cli.Fuse.Runtime.{read_through, write_with_dirty}
use ti_cli.Fuse.File.{resize}
use ti_cli.Fuse.Handles.{adopt_single_caller_path_setattr, refresh_open_handles_after_path_truncate}
use ti_cli.Fuse.Handles.{GitEntry}
use ti_cli.Fuse.Nodes.{Surroundings, Mount, Answer, local_info, with_disk, is_dir_info}

-- The bits 0o111 of a mode.
abbrev pub any_execute : ℕ → Bool
any_execute mode = not (bit_and mode 0x49 == 0)

unfoldable pub git_mode_string : Text → ℕ → Text
git_mode_string kind mode =
    if eqb kind (codes "dir")
    then codes "040000"
    else if eqb kind (codes "symlink")
    then codes "120000"
    else if any_execute mode
    then codes "100755"
    else codes "100644"

module _ (d : DataPlane) (env : Surroundings d) where
  -- Go on unless there is an errno.
  abbrev pub and_then : Answer d env → (Mount d env → Answer d env) → Answer d env
  and_then (m, none) k = k m
  and_then (m, some e) k = (m, some e)

  unfoldable pub getattr_layered : Mount d env → Text → Answer d env
  getattr_layered m p =
      let (g, found) = env.git_entry m.git p in
      let m' = record m { git = g } in
      elim found [
        | err e ↦ (m', some (fuse_errno e))
        | ok entry ↦ elim entry [
          | some it ↦ (m', none)
          | none ↦ elim (stat_version d m.runtime.remote p) [
            | err e ↦ (m', some (fuse_errno e))
            | ok v ↦ (m', none)
          ]
        ]
      ]

  unfoldable pub getattr : Mount d env → Text → Answer d env
  unfolding getattr_layered
  getattr m p = elim (local_info d env m p) [
    | some (abs, dir) ↦ (m, none)
    | none ↦ if is_local_only m.layers p then (m, some enoent) else getattr_layered m p
  ]

  abbrev resize_local : Mount d env → Text → Bool → Option ℕ → Answer d env
  resize_local m abs dir none = (m, none)
  resize_local m abs dir (some size) =
      if dir then (m, some eisdir) else with_disk d env m (env.local_truncate m.disk abs size)

  abbrev chmod_local : Text → Option ℕ → Mount d env → Answer d env
  chmod_local abs none m = (m, none)
  chmod_local abs (some mode) m = with_disk d env m (env.local_chmod m.disk abs mode)

  unfoldable pub setattr_local : Mount d env → Text → Bool → Option ℕ → Option ℕ → Answer d env
  setattr_local m abs dir size mode = and_then (resize_local m abs dir size) (chmod_local abs mode)

  abbrev fitted : List ℕ → Option ℕ → Result Errno (List ℕ)
  fitted bytes none = ok bytes
  fitted bytes (some size) = resize bytes size

  abbrev git_mode_after : GitEntry → Option ℕ → Text
  git_mode_after it none = it.mode
  git_mode_after it (some mode) = git_mode_string it.kind mode

  abbrev is_some : Option ℕ → Bool
  is_some none = false
  is_some (some n) = true

  unfoldable pub setattr_git : Mount d env → GitEntry → Text → Option ℕ → Option ℕ → Answer d env
  setattr_git m it p size mode =
      let directory = eqb it.kind (codes "dir") in
      let (g, got) = if directory then (m.git, ok []) else env.git_read_file m.git it in
      if directory && is_some size then (m, some eisdir) else elim got [
        | err e ↦ (record m { git = g }, some (fuse_errno e))
        | ok bytes ↦ elim (fitted bytes size) [
          | err e ↦ (record m { git = g }, some e)
          | ok new ↦
              let (g', failed) = env.git_put_entry g it p it.kind (git_mode_after it mode) new in
              elim failed [
                | some e ↦ (record m { git = g' }, some (fuse_errno e))
                | none ↦ (record m { git = g' }, none)
              ]
        ]
      ]

  -- The file is read, cut or filled up, and written as a whole over the version that was read.
  unfoldable pub resize_remote : Mount d env → ℕ → Text → Version → Option ℕ → Answer d env
  resize_remote m now p v none = (m, none)
  resize_remote m now p v (some size) =
      let (r, got) = read_through d m.runtime now p v in
      elim got [
        | err e ↦ (record m { runtime = r }, some (fuse_errno e))
        | ok bytes ↦ elim (resize bytes size) [
          | err e ↦ (record m { runtime = r }, some e)
          | ok new ↦
              let (r', done) =
                write_with_dirty d r now p new v (length new)
                  (record { start = 0; end = length new } ∷ []) in
              elim done [
                | err e ↦ (record m { runtime = r' }, some (fuse_errno e))
                | ok v' ↦ (
                  record m {
                    runtime = r';
                    registry = refresh_open_handles_after_path_truncate m.registry p v';
                  },
                  none,
                )
              ]
        ]
      ]

  abbrev set_meta_mode : Text → ℕ → Option MetaStore → Option MetaStore
  set_meta_mode p mode none = none
  set_meta_mode p mode (some s) = some (set_entry_mode s p mode).0

  unfoldable pub chmod_remote : Text → Option ℕ → Mount d env → Answer d env
  chmod_remote p none m = (m, none)
  chmod_remote p (some mode) m =
      let (s, failed) = env.chmod_file m.runtime.remote p mode in
      let m' = record m { runtime = record (m.runtime) { remote = s } } in
      elim failed [
        | some e ↦ (m', some (fuse_errno e))
        | none ↦ (record m' { metadata = set_meta_mode p mode m.metadata }, none)
      ]

  unfoldable pub setattr_remote : Mount d env → ℕ → Text → Option ℕ → Option ℕ → Answer d env
  unfolding resize_remote chmod_remote getattr
  setattr_remote m now p size mode = elim (stat_version d m.runtime.remote p) [
    | err e ↦ (m, some (fuse_errno e))
    | ok v ↦
        if is_dir_info d env m p && is_some size
        then (m, some eisdir)
        else and_then (and_then (resize_remote m now p v size) (chmod_remote p mode))
            (λ m'. if is_some size then (m', none) else getattr m' p)
  ]

  unfoldable pub setattr_layered : Mount d env → ℕ → Text → Option ℕ → Option ℕ → Answer d env
  unfolding setattr_git setattr_remote
  setattr_layered m now p size mode =
      let (g, found) = env.git_entry m.git p in
      let m' = record m { git = g } in
      elim found [
        | err e ↦ (m', some (fuse_errno e))
        | ok entry ↦ elim entry [
          | some it ↦ setattr_git m' it p size mode
          | none ↦ setattr_remote m' now p size mode
        ]
      ]

  abbrev errno_of_result : Result Errno (Unit {0}) → Option Errno
  errno_of_result (ok t) = none
  errno_of_result (err e) = some e

  unfoldable pub setattr_beyond : Mount d env → ℕ → ℕ → Text → Option ℕ → Option ℕ → Answer d env
  unfolding setattr_layered
  setattr_beyond m now pid p none mode = setattr_layered m now p none mode
  setattr_beyond m now pid p (some size) mode =
      let (r, adopted) = adopt_single_caller_path_setattr m.registry pid p (some size) mode in
      elim adopted [
        | some done ↦ (record m { registry = r }, errno_of_result done)
        | none ↦ setattr_layered m now p (some size) mode
      ]

  -- `times` says that the call sets a time.
  unfoldable pub setattr_node :
      Mount d env → ℕ → ℕ → Text → Option ℕ → Option ℕ → Bool → Answer d env
  unfolding getattr setattr_local setattr_beyond
  setattr_node m now pid p size mode times =
      if not (is_some size) && not (is_some mode) && not times
      then getattr m p
      else if m.read_only
      then (m, some erofs)
      else elim (local_info d env m p) [
        | some (abs, dir) ↦ setattr_local m abs dir size mode
        | none ↦
            if is_local_only m.layers p
            then (m, some enoent)
            else setattr_beyond m now pid p size mode
      ]
