-- ===== src/Fuse/Nodes.antt =====
-- Calls of the kernel on the directories and paths of a mount (internal/fs/fuse_mount.go, type
-- `remoteFuseNode`). A path belongs to the local overlay, to a git workspace, or to the remote file
-- system, in this order. The local disk and the git layer (internal/fs/fuse_git.go) are given by
-- their operations; attributes sent back to the kernel are left out.
pub mod Renaming
pub mod Opening
pub mod Attributes
pub mod Creation
pub mod Linking
pub mod Listing
pub mod Follows
pub mod Calls
pub mod ReadOnly
pub mod Sees
use ti_cli.Common.{
  ℕ, Bool, true, false, not, ◌&&◌, ◌||◌, Option, none, some, List, [], ◌∷◌, if◌then◌else◌, length,
  ◌==◌,
}
use ti_cli.Common.Text.{Text, codes, eqb}
use ti_cli.Common.Result.{Result, ok, err}
use ti_cli.Paths.Clean.{dir_path}
use ti_cli.Paths.Remote.{Layers, local_abs, is_local_only, local_parent_exists, child_path}
use ti_cli.Fuse.Version.{Version, unknown}
use ti_cli.Fuse.Errors.{FsError, Errno, einval, enoent, erofs, enotsup, enotdir, eisdir, fuse_errno}
use ti_cli.Fuse.Cache.{invalidate_prefix}
use ti_cli.Fuse.Metadata.{MetaStore, recorded_target, remove_entry, move_entries}
use ti_cli.Fuse.DataPlane.{DataPlane}
use ti_cli.Fuse.Upload.{stat_version}
use ti_cli.Fuse.Runtime.{Runtime, read_through}
use ti_cli.Fuse.File.{File, new_file}
use ti_cli.Fuse.Handles.{
  Handle, Registry, GitEntry, next_id, register_open_handle, retarget_open_handles,
  mark_deleted_open_handles, dirty_open_handle_data,
}

-- S_IFREG, S_IFDIR and S_IFLNK.
pub data Kind : Type 0 where
  regular directory symbolic : Kind

-- An entry of a directory; its inode, a hash of its path, is left out.
pub record DirEntry : Type 0 where
  pub name : Text
  pub kind : Kind

-- The other requests of the data plane, the local disk and the git layer.
pub record Surroundings (d : DataPlane) : Type 1 where
  -- The info of a stat that succeeds.
  pub is_dir : d.State → Text → Bool
  -- The names in a directory, and whether they are directories.
  pub list_dir : d.State → Text → Result FsError (List (Text × Bool))
  pub delete_file : d.State → Text → d.State × Option FsError
  pub rename_file : d.State → Text → Text → d.State × Option FsError
  pub make_dir : d.State → Text → ℕ → d.State × Option FsError
  pub symlink_file : d.State → Text → Text → d.State × Option FsError
  pub hardlink_file : d.State → Text → Text → d.State × Option FsError
  pub chmod_file : d.State → Text → ℕ → d.State × Option FsError
  pub Local : Type 0
  -- Is there a local file, and is it a directory?
  pub local_kind : Local → Text → Option Bool
  -- The names in a local directory, with what `Info` says of them if it does not fail.
  pub local_read_dir : Local → Text → Result FsError (List (Text × Option Kind))
  pub local_read_link : Local → Text → Result FsError Text
  pub local_remove : Local → Text → Local × Option FsError
  pub local_mkdir_all : Local → Text → Local × Option FsError
  pub local_rename : Local → Text → Text → Local × Option FsError
  pub local_open : Local → Text → Local × Option FsError
  pub local_truncate : Local → Text → ℕ → Local × Option FsError
  pub local_chmod : Local → Text → ℕ → Local × Option FsError
  -- Open with O_CREAT, and the stat after it.
  pub local_create : Local → Text → ℕ → Local × Option FsError
  pub local_mkdir : Local → Text → ℕ → Local × Option FsError
  pub local_symlink : Local → Text → Text → Local × Option FsError
  pub local_link : Local → Text → Text → Local × Option FsError
  pub Git : Type 0
  pub git_entry : Git → Text → Git × Result FsError (Option GitEntry)
  pub git_parent_entry : Git → Text → Git × Result FsError (Option GitEntry)
  pub git_read_file : Git → GitEntry → Git × Result FsError (List ℕ)
  pub git_readdir : Git → Text → Git × Result FsError (List DirEntry)
  pub git_put_entry : Git → GitEntry → Text → Text → Text → List ℕ → Git × Option FsError
  pub git_put_directory : Git → GitEntry → Text → Git × Option FsError
  pub git_whiteout : Git → GitEntry → Text → Git × Option FsError

module _ (d : DataPlane) (env : Surroundings d) where
  pub record Mount : Type 0 where
    pub runtime : Runtime d
    pub read_only : Bool
    pub layers : Layers
    pub metadata : Option MetaStore
    pub registry : Registry
    pub disk : env.Local
    pub git : env.Git

  -- The errno of a call, `none` for OK.
  abbrev pub Answer : Type 0
  Answer = Mount × Option Errno

  unfoldable pub local_info : Mount → Text → Option (Text × Bool)
  local_info m p = elim (local_abs m.layers p) [
    | none ↦ none
    | some abs ↦ elim (env.local_kind m.disk abs) [ none ↦ none | some dir ↦ some (abs, dir) ]
  ]

  -- `IsDir` of what `statRemote` returns: `applyFileInfo` makes a path with a recorded link a link.
  unfoldable pub is_dir_info : Mount → Text → Bool
  is_dir_info m p =
      env.is_dir m.runtime.remote p
      && elim (recorded_target m.metadata p) [ none ↦ true | some target ↦ false ]

  abbrev pub is_local_dir : Mount → Text → Bool
  is_local_dir m abs = elim (env.local_kind m.disk abs) [ none ↦ false | some dir ↦ dir ]

  abbrev pub with_disk : Mount → env.Local × Option FsError → Answer
  with_disk m (l, none) = (record m { disk = l }, none)
  with_disk m (l, some e) = (record m { disk = l }, some (fuse_errno e))

  abbrev remove_meta : Bool → Text → Option MetaStore → Option MetaStore
  remove_meta recursive p none = none
  remove_meta recursive p (some s) = some (remove_entry s p recursive).0

  unfoldable pub remove_remote : Mount → Text → Bool → Answer
  remove_remote m p recursive =
      let (s, failed) = env.delete_file m.runtime.remote p in
      elim failed [
        | some e ↦ (record m { runtime = record (m.runtime) { remote = s } }, some (fuse_errno e))
        | none ↦ (
          record m {
            runtime = record (m.runtime) {
              remote = s;
              cache = invalidate_prefix m.runtime.cache p;
            };
            metadata = remove_meta recursive p m.metadata;
            registry = mark_deleted_open_handles m.registry p;
          },
          none,
        )
      ]

  -- A directory's removal wants a directory, and drops the metadata of all that was under it.
  unfoldable pub remove_git : Mount → GitEntry → Text → Bool → Answer
  remove_git m entry p as_dir =
      let (g, failed) = env.git_whiteout m.git entry p in
      if as_dir && not (eqb entry.kind (codes "dir")) then (m, some enotdir) else elim failed [
        | some e ↦ (record m { git = g }, some (fuse_errno e))
        | none ↦ (record m { git = g; metadata = remove_meta as_dir p m.metadata }, none)
      ]

  unfoldable pub remove_layered : Mount → Text → Bool → Answer
  unfolding remove_remote remove_git
  remove_layered m p as_dir =
      let (g, found) = env.git_entry m.git p in
      let m' = record m { git = g } in
      elim found [
        | err e ↦ (m', some (fuse_errno e))
        | ok entry ↦ elim entry [
          | some it ↦ remove_git m' it p as_dir
          | none ↦ remove_remote m' p as_dir
        ]
      ]

  unfoldable pub remove_node : Mount → Text → Text → Bool → Answer
  unfolding local_info remove_layered
  remove_node m parent name as_dir =
      if m.read_only then (m, some erofs) else elim (child_path parent name) [
        | none ↦ (m, some einval)
        | some p ↦ elim (local_info m p) [
          | some (abs, dir) ↦ with_disk m (env.local_remove m.disk abs)
          | none ↦ if is_local_only m.layers p then (m, some enoent) else remove_layered m p as_dir
        ]
      ]

  unfoldable pub unlink : Mount → Text → Text → Answer
  unfolding remove_node
  unlink m parent name = remove_node m parent name false

  unfoldable pub rmdir : Mount → Text → Text → Answer
  unfolding remove_node
  rmdir m parent name = remove_node m parent name true

  unfoldable pub should_use_local : Mount → Text → Bool
  unfolding local_info
  should_use_local m p = elim (local_info m p) [
    | some (abs, dir) ↦ true
    | none ↦ is_local_only m.layers p
  ]
