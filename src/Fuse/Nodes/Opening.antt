-- ===== src/Fuse/Nodes/Opening.antt =====
-- `Open` (internal/fs/fuse_mount.go).
use ti_cli.Common.{ℕ, Bool, ◌&&◌, Option, none, some, List, [], if◌then◌else◌, ◌==◌}
use ti_cli.Common.Text.{Text, codes, eqb}
use ti_cli.Common.Result.{Result, ok, err}
use ti_cli.Paths.Remote.{is_local_only}
use ti_cli.Fuse.Version.{Version, unknown}
use ti_cli.Fuse.Errors.{Errno, enoent, erofs, eisdir, fuse_errno}
use ti_cli.Fuse.DataPlane.{DataPlane}
use ti_cli.Fuse.Upload.{stat_version}
use ti_cli.Fuse.Runtime.{read_through}
use ti_cli.Fuse.File.{new_file}
use ti_cli.Fuse.Handles.{GitEntry, next_id, register_open_handle, dirty_open_handle_data}
use ti_cli.Fuse.Nodes.{Surroundings, Mount, local_info, is_dir_info}

-- The permission bits that `fileModeFromGit` gives; the kind of the file is left out.
unfoldable pub git_file_mode : GitEntry → ℕ
git_file_mode it =
    if eqb it.kind (codes "dir")
    then 0x1ED
    else if eqb it.kind (codes "symlink")
    then 0x1FF
    else if eqb it.mode (codes "100755")
    then 0x1ED
    else 0x1A4

module _ (d : DataPlane) (env : Surroundings d) where
  -- An open handle by its number; none for a file of the local disk, which the kernel reads itself.
  abbrev pub Opened : Type 0
  Opened = Mount d env × Result Errno (Option ℕ)

  unfoldable pub opened : Mount d env → ℕ → Text → List ℕ → Bool → Bool → Version → Opened
  opened m pid p bytes writable truncating version =
      let f = record (new_file p bytes writable (writable && truncating) version) {
        truncating = truncating;
      } in
      (
        record m { registry = register_open_handle m.registry f pid none },
        ok (some (next_id m.registry)),
      )

  -- `newGitFuseFile`.
  unfoldable pub opened_git :
      Mount d env → ℕ → GitEntry → Text → List ℕ → Bool → Bool → Bool → ℕ → Opened
  opened_git m pid it p bytes writable truncating dirty mode =
      let f = record (new_file p bytes writable dirty unknown) {
        truncating = truncating;
        mode = if mode == 0 then 0x1A4 else mode;
      } in
      (
        record m { registry = register_open_handle m.registry f pid (some it) },
        ok (some (next_id m.registry)),
      )

  unfoldable pub open_git : Mount d env → ℕ → GitEntry → Text → Bool → Bool → Opened
  unfolding opened_git
  open_git m pid it p writable truncating =
      let (g, got) = env.git_read_file m.git it in
      if eqb it.kind (codes "dir")
      then (m, err eisdir)
      else if writable && truncating
      then opened_git m pid it p [] writable truncating (writable && truncating) (git_file_mode it)
      else elim (dirty_open_handle_data m.registry p) [
        | some (bytes, v) ↦
            opened_git m pid it p bytes writable truncating (writable && truncating)
              (git_file_mode it)
        | none ↦ elim got [
          | err e ↦ (record m { git = g }, err (fuse_errno e))
          | ok bytes ↦
              opened_git (record m { git = g }) pid it p bytes writable truncating
                (writable && truncating) (git_file_mode it)
        ]
      ]

  unfoldable pub open_remote : Mount d env → ℕ → ℕ → Text → Bool → Bool → Opened
  unfolding opened
  open_remote m now pid p writable truncating = elim (stat_version d m.runtime.remote p) [
    | err e ↦ (m, err (fuse_errno e))
    | ok version ↦
        let (r, got) = read_through d m.runtime now p version in
        if is_dir_info d env m p
        then (m, err eisdir)
        else if writable && truncating
        then opened m pid p [] writable truncating version
        else elim (dirty_open_handle_data m.registry p) [
          | some (bytes, v) ↦ opened m pid p bytes writable truncating v
          | none ↦ elim got [
            | err e ↦ (record m { runtime = r }, err (fuse_errno e))
            | ok bytes ↦ opened (record m { runtime = r }) pid p bytes writable truncating version
          ]
        ]
  ]

  unfoldable pub open_layered : Mount d env → ℕ → ℕ → Text → Bool → Bool → Opened
  unfolding open_git open_remote
  open_layered m now pid p writable truncating =
      let (g, found) = env.git_entry m.git p in
      let m' = record m { git = g } in
      elim found [
        | err e ↦ (m', err (fuse_errno e))
        | ok entry ↦ elim entry [
          | some it ↦ open_git m' pid it p writable truncating
          | none ↦ open_remote m' now pid p writable truncating
        ]
      ]

  unfoldable pub open_node : Mount d env → ℕ → ℕ → Text → Bool → Bool → Opened
  unfolding local_info open_layered
  open_node m now pid p writable truncating =
      if writable && m.read_only then (m, err erofs) else elim (local_info d env m p) [
        | some (abs, dir) ↦
            let (l, failed) = env.local_open m.disk abs in
            if dir then (m, err eisdir) else elim failed [
              | some e ↦ (record m { disk = l }, err (fuse_errno e))
              | none ↦ (record m { disk = l }, ok none)
            ]
        | none ↦
            if is_local_only m.layers p
            then (m, err enoent)
            else open_layered m now pid p writable truncating
      ]
