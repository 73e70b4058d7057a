-- ===== src/Fuse/Nodes/Calls.antt =====
-- The calls of the kernel on a mount, on paths and on open handles (internal/fs/fuse_mount.go), and
-- the mount after each. A call on a number that no handle has is none.
use ti_cli.Common.{
  ℕ, Bool, true, false, not, ◌||◌, Option, none, some, List, [], ◌∷◌, if◌then◌else◌, ◌==◌, length,
}
use ti_cli.Common.Int.{ℤ}
use ti_cli.Common.Text.{Text, codes}
use ti_cli.Fuse.DataPlane.{DataPlane}
use ti_cli.Fuse.File.{File, write, setattr, flush}
use ti_cli.Fuse.Handles.{Handle, GitEntry, set_file, unregister_open_handle}
use ti_cli.Fuse.Nodes.{Surroundings, Mount, unlink, rmdir}
use ti_cli.Fuse.Nodes.Renaming.{rename}
use ti_cli.Fuse.Nodes.Opening.{open_node}
use ti_cli.Fuse.Nodes.Attributes.{setattr_node, git_mode_string}
use ti_cli.Fuse.Nodes.Creation.{create, mkdir}
use ti_cli.Fuse.Nodes.Linking.{symlink, link}

unfoldable pub find_handle : ℕ → List Handle → Option Handle
find_handle i [] = none
find_handle i (h ∷ hs) = if h.id == i then some h else find_handle i hs

pub data KernelCall : Type 0 where
  unlinks rmdirs : Text → Text → KernelCall
  renames : Text → Text → Text → Text → ℕ → KernelCall
  -- Of a time and a process, a path with the flags for writing and for truncation.
  opens : ℕ → ℕ → Text → Bool → Bool → KernelCall
  sets : ℕ → ℕ → Text → Option ℕ → Option ℕ → Bool → KernelCall
  creates : ℕ → ℕ → Text → Text → ℕ → Bool → Bool → KernelCall
  mkdirs : Text → Text → ℕ → KernelCall
  symlinks links : Text → Text → Text → KernelCall
  -- Of a handle.
  writes_to : ℕ → List ℕ → ℤ → KernelCall
  sets_of : ℕ → Option ℕ → Option ℕ → KernelCall
  flushes releases : ℕ → ℕ → KernelCall

module _ (d : DataPlane) (env : Surroundings d) where
  abbrev pub with_file : Mount d env → ℕ → File → Mount d env
  with_file m i f = record m {
    registry = record (m.registry) { handles = set_file i f m.registry.handles };
  }

  -- The hook of `newGitFuseFile`.
  unfoldable pub flush_git : Mount d env → GitEntry → Handle → Mount d env
  flush_git m it h =
      let (g, failed) =
        env.git_put_entry m.git it h.file.path (codes "file")
          (git_mode_string (codes "file") h.file.mode) h.file.bytes in
      if not h.file.writable || not h.file.dirty
      then m
      else if h.file.deleted
      then with_file m h.id (record (h.file) { dirty = false })
      else elim failed [
        | some e ↦ record m { git = g }
        | none ↦
            with_file (record m { git = g }) h.id
              (record (h.file) {
                base_size = length h.file.bytes;
                ranges = [];
                force_whole = false;
                dirty = false;
              })
      ]

  unfoldable pub flush_handle : Mount d env → ℕ → Handle → Mount d env
  unfolding flush_git
  flush_handle m now h = elim h.hook [
    | some it ↦ flush_git m it h
    | none ↦
        let ((r, f), done) = flush d m.runtime now h.file none in
        with_file (record m { runtime = r }) h.id f
  ]

  unfoldable pub release_handle : Mount d env → ℕ → Handle → Mount d env
  unfolding flush_handle
  release_handle m now h =
      let m' = flush_handle m now (record h { file = record (h.file) { closed = true } }) in
      if h.file.closed then m else record m' { registry = unregister_open_handle m'.registry h.id }

  unfoldable pub run_on : Mount d env → ℕ → (Handle → Mount d env) → Mount d env
  unfolding find_handle
  run_on m i act = elim (find_handle i m.registry.handles) [ none ↦ m | some h ↦ act h ]

  unfoldable pub run_call : Mount d env → KernelCall → Mount d env
  unfolding run_on release_handle
  run_call m (unlinks parent name) = (unlink d env m parent name).0
  run_call m (rmdirs parent name) = (rmdir d env m parent name).0
  run_call m (renames parent name new_parent new_name flags) =
      (rename d env m parent name new_parent new_name flags).0
  run_call m (opens now pid p writable truncating) =
      (open_node d env m now pid p writable truncating).0
  run_call m (sets now pid p size mode times) = (setattr_node d env m now pid p size mode times).0
  run_call m (creates now pid parent name mode exclusive truncating) =
      (create d env m now pid parent name mode exclusive truncating).0
  run_call m (mkdirs parent name mode) = (mkdir d env m parent name mode).0
  run_call m (symlinks target parent name) = (symlink d env m target parent name).0
  run_call m (links source parent name) = (link d env m source parent name).0
  run_call m (writes_to i bytes off) = run_on m i (λ h. with_file m h.id (write h.file bytes off).0)
  run_call m (sets_of i size mode) = run_on m i (λ h. with_file m h.id (setattr h.file size mode).0)
  run_call m (flushes i now) = run_on m i (λ h. flush_handle m now h)
  run_call m (releases i now) = run_on m i (λ h. release_handle m now h)

  unfoldable pub run_calls : Mount d env → List KernelCall → Mount d env
  unfolding run_call
  run_calls m [] = m
  run_calls m (c ∷ cs) = run_calls (run_call m c) cs
