-- ===== src/Fuse/Nodes/Linking.antt =====
-- `Symlink` and `Link` of a path (internal/fs/fuse_mount.go).
use ti_cli.Common.{◌||◌, Option, none, some, if◌then◌else◌}
use ti_cli.Common.Text.{Text, codes, eqb, utf8}
use ti_cli.Common.Result.{ok, err}
use ti_cli.Paths.Remote.{local_abs, is_local_only, child_path}
use ti_cli.Fuse.Errors.{einval, erofs, fuse_errno}
use ti_cli.Fuse.Metadata.{MetaStore, set_symlink, copy_entry}
use ti_cli.Fuse.DataPlane.{DataPlane}
use ti_cli.Fuse.Handles.{GitEntry}
use ti_cli.Fuse.Nodes.{Surroundings, Mount, Answer, should_use_local}
use ti_cli.Fuse.Nodes.Creation.{local_below, is_local_parent}

module _ (d : DataPlane) (env : Surroundings d) where
  abbrev link_meta : Text → Text → Option MetaStore → Option MetaStore
  link_meta p target none = none
  link_meta p target (some s) = some (set_symlink s p target).0

  unfoldable pub symlink_remote : Mount d env → Text → Text → Answer d env
  symlink_remote m target p =
      let (s, failed) = env.symlink_file m.runtime.remote target p in
      let m' = record m { runtime = record (m.runtime) { remote = s } } in
      elim failed [
        | some e ↦ (m', some (fuse_errno e))
        | none ↦ (record m' { metadata = link_meta p target m.metadata }, none)
      ]

  unfoldable pub symlink_layered : Mount d env → Text → Text → Answer d env
  unfolding symlink_remote local_below
  symlink_layered m target p =
      let (g, found) = env.git_parent_entry m.git p in
      let m' = record m { git = g } in
      elim found [
        | err e ↦ (m', some (fuse_errno e))
        | ok parent ↦ elim parent [
          | some it ↦
              let (g', failed) =
                env.git_put_entry g it p (codes "symlink") (codes "120000") (utf8 target) in
              elim failed [
                | some e ↦ (record m { git = g' }, some (fuse_errno e))
                | none ↦ (record m { git = g' }, none)
              ]
          | none ↦
              if is_local_parent d env m' p
              then local_below d env m' p (λ l abs. env.local_symlink l target abs)
              else symlink_remote m' target p
        ]
      ]

  unfoldable pub symlink : Mount d env → Text → Text → Text → Answer d env
  unfolding symlink_layered local_below
  symlink m target parent name =
      if m.read_only then (m, some erofs) else elim (child_path parent name) [
        | none ↦ (m, some einval)
        | some p ↦
            if is_local_only m.layers p
            then local_below d env m p (λ l abs. env.local_symlink l target abs)
            else symlink_layered m target p
      ]

  unfoldable pub link_local : Mount d env → Text → Text → Answer d env
  unfolding local_below
  link_local m source p = elim (local_abs m.layers source) [
    | none ↦ (m, some einval)
    | some from ↦ local_below d env m p (λ l abs. env.local_link l from abs)
  ]

  abbrev copy_meta : Text → Text → Option MetaStore → Option MetaStore
  copy_meta source p none = none
  copy_meta source p (some s) = some (copy_entry s source p).0

  unfoldable pub link_remote : Mount d env → Text → Text → Answer d env
  link_remote m source p =
      let (s, failed) = env.hardlink_file m.runtime.remote source p in
      let m' = record m { runtime = record (m.runtime) { remote = s } } in
      elim failed [
        | some e ↦ (m', some (fuse_errno e))
        | none ↦ (record m' { metadata = copy_meta source p m.metadata }, none)
      ]

  unfoldable pub link_beyond : Mount d env → Text → Text → Answer d env
  unfolding link_local link_remote
  link_beyond m source p =
      if is_local_parent d env m p then link_local m source p else link_remote m source p

  -- Within one workspace a link is a copy.
  unfoldable pub link_git : Mount d env → GitEntry → Text → Text → Answer d env
  link_git m it source p =
      let (g, got) = env.git_read_file m.git it in
      elim got [
        | err e ↦ (record m { git = g }, some (fuse_errno e))
        | ok bytes ↦
            let (g', failed) = env.git_put_entry g it p it.kind it.mode bytes in
            elim failed [
              | some e ↦ (record m { git = g' }, some (fuse_errno e))
              | none ↦ (record m { git = g'; metadata = copy_meta source p m.metadata }, none)
            ]
      ]

  unfoldable pub link_layered : Mount d env → Text → Text → Answer d env
  unfolding link_git link_beyond
  link_layered m source p =
      let (g, found) = env.git_entry m.git source in
      let m' = record m { git = g } in
      elim found [
        | err e ↦ (m', some (fuse_errno e))
        | ok entry ↦ elim entry [
          | none ↦ link_beyond m' source p
          | some it ↦
              let (g', parent) = env.git_parent_entry g p in
              let m'' = record m { git = g' } in
              elim parent [
                | err e ↦ (m'', some (fuse_errno e))
                | ok above ↦ elim above [
                  | none ↦ link_beyond m'' source p
                  | some up ↦
                      if eqb up.workspace it.workspace
                      then link_git m'' it source p
                      else link_beyond m'' source p
                ]
              ]
        ]
      ]

  -- The target is a node of this mount at `source`.
  unfoldable pub link : Mount d env → Text → Text → Text → Answer d env
  unfolding link_layered link_local
  link m source parent name =
      if m.read_only then (m, some erofs) else elim (child_path parent name) [
        | none ↦ (m, some einval)
        | some p ↦
            if should_use_local d env m source || is_local_only m.layers p
            then link_local m source p
            else link_layered m source p
      ]
