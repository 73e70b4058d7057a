-- ===== src/Fuse/Nodes/Creation.antt =====
-- `Create` and `Mkdir` of a path (internal/fs/fuse_mount.go).
use ti_cli.Common.{ℕ, ◌%◌, Bool, true, false, not, Option, none, some, [], ◌∷◌, if◌then◌else◌, ◌==◌}
use ti_cli.Common.Text.{Text}
use ti_cli.Common.Result.{ok, err}
use ti_cli.Paths.Clean.{dir_path}
use ti_cli.Paths.Remote.{local_abs, is_local_only, local_parent_exists, child_path}
use ti_cli.Fuse.Version.{unknown}
use ti_cli.Fuse.Errors.{FsError, einval, erofs, eexist, fuse_errno, map_webdav_error}
use ti_cli.Fuse.DataPlane.{DataPlane}
use ti_cli.Fuse.Upload.{stat_version, is_not_exist}
use ti_cli.Fuse.Runtime.{write_with_dirty}
use ti_cli.Fuse.File.{new_file}
use ti_cli.Fuse.Handles.{next_id, register_open_handle}
use ti_cli.Fuse.Nodes.Opening.{Opened, opened_git}
use ti_cli.Fuse.Nodes.{Surroundings, Mount, Answer, is_local_dir, with_disk}

module _ (d : DataPlane) (env : Surroundings d) where
  -- The parent directories on the local disk, and then an operation on its path.
  unfoldable pub local_below :
      Mount d env → Text → (env.Local → Text → env.Local × Option FsError) → Answer d env
  local_below m p act = elim (local_abs m.layers p) [
    | none ↦ (m, some einval)
    | some abs ↦
        let (l, failed) = env.local_mkdir_all m.disk (dir_path abs) in
        elim failed [
          | some e ↦ (record m { disk = l }, some (fuse_errno e))
          | none ↦ with_disk d env m (act l abs)
        ]
  ]

  abbrev perm_or : ℕ → ℕ → ℕ
  perm_or default mode = if mode % 512 == 0 then default else mode % 512

  abbrev pub is_local_parent : Mount d env → Text → Bool
  is_local_parent m p = local_parent_exists m.layers (is_local_dir d env m) p

  unfoldable pub mkdir_remote : Mount d env → Text → ℕ → Answer d env
  mkdir_remote m p perm =
      let (s, failed) = env.make_dir m.runtime.remote p perm in
      let m' = record m { runtime = record (m.runtime) { remote = s } } in
      elim failed [ some e ↦ (m', some (fuse_errno e)) | none ↦ (m', none) ]

  unfoldable pub mkdir_layered : Mount d env → Text → ℕ → Answer d env
  unfolding mkdir_remote local_below
  mkdir_layered m p perm =
      let (g, found) = env.git_parent_entry m.git p in
      let m' = record m { git = g } in
      elim found [
        | err e ↦ (m', some (fuse_errno e))
        | ok parent ↦ elim parent [
          | some it ↦
              let (g', failed) = env.git_put_directory g it p in
              elim failed [
                | some e ↦ (record m { git = g' }, some (fuse_errno e))
                | none ↦ (record m { git = g' }, none)
              ]
          | none ↦
              if is_local_parent m' p
              then local_below m' p (λ l abs. env.local_mkdir l abs perm)
              else mkdir_remote m' p perm
        ]
      ]

  unfoldable pub mkdir : Mount d env → Text → Text → ℕ → Answer d env
  unfolding mkdir_layered local_below
  mkdir m parent name mode =
      if m.read_only then (m, some erofs) else elim (child_path parent name) [
        | none ↦ (m, some einval)
        | some p ↦
            let perm = perm_or 0x1ED mode in
            if is_local_only m.layers p
            then local_below m p (λ l abs. env.local_mkdir l abs perm)
            else mkdir_layered m p perm
      ]

  abbrev as_opened : Answer d env → Opened d env
  as_opened (m, none) = (m, ok none)
  as_opened (m, some e) = (m, err e)

  -- An empty file is written, and its handle is clean.
  unfoldable pub create_remote : Mount d env → ℕ → ℕ → Text → Bool → Opened d env
  create_remote m now pid p truncating =
      let (r, done) =
        write_with_dirty d m.runtime now p [] unknown 0 (record { start = 0; end = 0 } ∷ []) in
      elim done [
        | err e ↦ (record m { runtime = r }, err (fuse_errno e))
        | ok v ↦
            let f = record (new_file p [] true false v) { truncating = truncating } in
            (
              record m { runtime = r; registry = register_open_handle m.registry f pid none },
              ok (some (next_id m.registry)),
            )
      ]

  -- With O_EXCL only where nothing is.
  unfoldable pub create_exclusive : Mount d env → ℕ → ℕ → Text → Bool → Bool → Opened d env
  unfolding create_remote
  create_exclusive m now pid p exclusive truncating =
      if not exclusive
      then create_remote m now pid p truncating
      else elim (stat_version d m.runtime.remote p) [
        | ok v ↦ (m, err eexist)
        | err e ↦
            if is_not_exist d (map_webdav_error e)
            then create_remote m now pid p truncating
            else (m, err (fuse_errno e))
      ]

  unfoldable pub create_layered : Mount d env → ℕ → ℕ → Text → ℕ → Bool → Bool → Opened d env
  unfolding create_exclusive local_below opened_git
  create_layered m now pid p perm exclusive truncating =
      let (g, found) = env.git_parent_entry m.git p in
      let m' = record m { git = g } in
      elim found [
        | err e ↦ (m', err (fuse_errno e))
        | ok parent ↦ elim parent [
          | some it ↦ opened_git d env m' pid it p [] true truncating true perm
          | none ↦
              if is_local_parent m' p
              then as_opened (local_below m' p (λ l abs. env.local_create l abs perm))
              else create_exclusive m' now pid p exclusive truncating
        ]
      ]

  unfoldable pub create : Mount d env → ℕ → ℕ → Text → Text → ℕ → Bool → Bool → Opened d env
  unfolding create_layered local_below
  create m now pid parent name mode exclusive truncating =
      if m.read_only then (m, err erofs) else elim (child_path parent name) [
        | none ↦ (m, err einval)
        | some p ↦
            let perm = perm_or 0x1A4 mode in
            if is_local_only m.layers p
            then as_opened (local_below m p (λ l abs. env.local_create l abs perm))
            else create_layered m now pid p perm exclusive truncating
      ]
