-- ===== src/Fuse/Nodes/Renaming.antt =====
-- `Rename` (internal/fs/fuse_mount.go).
use ti_cli.Common.{ℕ, not, ◌||◌, Option, none, some, [], if◌then◌else◌, ◌==◌}
use ti_cli.Common.Text.{Text, codes, eqb}
use ti_cli.Common.Result.{Result, ok, err}
use ti_cli.Paths.Clean.{dir_path}
use ti_cli.Paths.Remote.{local_abs, local_parent_exists, child_path}
use ti_cli.Fuse.Version.{Version, unknown}
use ti_cli.Fuse.Errors.{FsError, einval, erofs, enotsup, fuse_errno}
use ti_cli.Fuse.Cache.{invalidate_prefix}
use ti_cli.Fuse.Metadata.{MetaStore, move_entries}
use ti_cli.Fuse.DataPlane.{DataPlane}
use ti_cli.Fuse.Upload.{stat_version}
use ti_cli.Fuse.Handles.{GitEntry, retarget_open_handles}
use ti_cli.Fuse.Nodes.{Surroundings, Mount, Answer, with_disk, is_local_dir, should_use_local}

module _ (d : DataPlane) (env : Surroundings d) where
  abbrev move_meta : Text → Text → Option MetaStore → Option MetaStore
  move_meta source target none = none
  move_meta source target (some s) = some (move_entries s source target).0

  -- Both ends on the local disk.
  unfoldable pub rename_local : Mount d env → Text → Text → Answer d env
  rename_local m source target = elim (local_abs m.layers source) [
    | none ↦ (m, some einval)
    | some from ↦ elim (local_abs m.layers target) [
      | none ↦ (m, some einval)
      | some to ↦
          let (l, failed) = env.local_mkdir_all m.disk (dir_path to) in
          elim failed [
            | some e ↦ (record m { disk = l }, some (fuse_errno e))
            | none ↦ with_disk d env m (env.local_rename l from to)
          ]
    ]
  ]

  abbrev pub version_or_unknown : Result FsError Version → Version
  version_or_unknown (ok v) = v
  version_or_unknown (err e) = unknown

  unfoldable pub rename_remote : Mount d env → Text → Text → Answer d env
  rename_remote m source target =
      let (s, failed) = env.rename_file m.runtime.remote source target in
      elim failed [
        | some e ↦ (record m { runtime = record (m.runtime) { remote = s } }, some (fuse_errno e))
        | none ↦ (
          record m {
            runtime = record (m.runtime) {
              remote = s;
              cache = invalidate_prefix (invalidate_prefix m.runtime.cache source) target;
            };
            metadata = move_meta source target m.metadata;
            registry =
                retarget_open_handles m.registry source target
                  (version_or_unknown (stat_version d s target));
          },
          none,
        )
      ]

  unfoldable pub rename_beyond : Mount d env → Text → Text → Answer d env
  unfolding rename_local rename_remote
  rename_beyond m source target =
      if local_parent_exists m.layers (is_local_dir d env m) target
      then rename_local m source target
      else rename_remote m source target

  -- Within one workspace: a copy under the new path, and a whiteout of the old one.
  unfoldable pub rename_git : Mount d env → GitEntry → Text → Text → Answer d env
  rename_git m it source target =
      let (g, got) =
        if eqb it.kind (codes "dir") then (m.git, ok []) else env.git_read_file m.git it in
      elim got [
        | err e ↦ (record m { git = g }, some (fuse_errno e))
        | ok bytes ↦
            let (g', failed) = env.git_put_entry g it target it.kind it.mode bytes in
            elim failed [
              | some e ↦ (record m { git = g' }, some (fuse_errno e))
              | none ↦
                  let (g'', undone) = env.git_whiteout g' it source in
                  elim undone [
                    | some e ↦ (record m { git = g'' }, some (fuse_errno e))
                    | none ↦ (
                      record m { git = g''; metadata = move_meta source target m.metadata },
                      none,
                    )
                  ]
            ]
      ]

  unfoldable pub rename_layered : Mount d env → Text → Text → Answer d env
  unfolding rename_git rename_beyond
  rename_layered m source target =
      let (g, found) = env.git_entry m.git source in
      let m' = record m { git = g } in
      elim found [
        | err e ↦ (m', some (fuse_errno e))
        | ok entry ↦ elim entry [
          | none ↦ rename_beyond m' source target
          | some it ↦
              let (g', parent) = env.git_parent_entry g target in
              let m'' = record m { git = g' } in
              elim parent [
                | err e ↦ (m'', some (fuse_errno e))
                | ok above ↦ elim above [
                  | none ↦ rename_beyond m'' source target
                  | some up ↦
                      if eqb up.workspace it.workspace
                      then rename_git m'' it source target
                      else rename_beyond m'' source target
                ]
              ]
        ]
      ]

  -- Both parents are nodes of this mount.
  unfoldable pub rename : Mount d env → Text → Text → Text → Text → ℕ → Answer d env
  unfolding rename_layered should_use_local
  rename m parent name new_parent new_name flags =
      if m.read_only
      then (m, some erofs)
      else if not (flags == 0)
      then (m, some enotsup)
      else elim (child_path parent name) [
        | none ↦ (m, some einval)
        | some source ↦ elim (child_path new_parent new_name) [
          | none ↦ (m, some einval)
          | some target ↦
              if should_use_local d env m source || should_use_local d env m target
              then rename_local m source target
              else rename_layered m source target
        ]
      ]
