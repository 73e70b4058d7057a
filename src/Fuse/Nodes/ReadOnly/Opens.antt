-- ===== src/Fuse/Nodes/ReadOnly/Opens.antt =====
-- Opens for reading.
use ti_cli.Common.{ℕ, Bool, true, false, List, refl, inl, inr, Bool-cases, Option-cases}
use ti_cli.Common.Text.{Text, eqb, codes}
use ti_cli.Common.Result.{Result-cases}
use ti_cli.Paths.Remote.{is_local_only}
use ti_cli.Fuse.Version.{Version}
use ti_cli.Fuse.DataPlane.{DataPlane}
use ti_cli.Fuse.Upload.{stat_version}
use ti_cli.Fuse.Runtime.{read_through}
use ti_cli.Fuse.File.{new_file}
use ti_cli.Fuse.Handles.{GitEntry, register_open_handle, dirty_open_handle_data}
use ti_cli.Fuse.Nodes.{is_dir_info, Surroundings, Mount, local_info}
use ti_cli.Fuse.Nodes.Opening.{
  open_node, open_layered, open_git, open_remote, opened, opened_git, git_file_mode,
}
use ti_cli.Fuse.Nodes.ReadOnly.Frozen.{
  read_through-remote, refused, with_git, with_runtime, with_disk-Quiet, Quiet,
}

module _ (d : DataPlane) (env : Surroundings d) where
  opened-Quiet :
      (m m' : Mount d env) (pid : ℕ) (p : Text) (bytes : List ℕ) (truncating : Bool) (v : Version)
      → Quiet d env m m'
      → Quiet d env m (opened d env m' pid p bytes false truncating v).0
  unfolding opened register_open_handle new_file
  opened-Quiet m m' pid p bytes truncating v q = record {
    remote = q.remote;
    locked = q.locked;
    handles = (refl, q.handles);
  }

  opened_git-Quiet :
      (m m' : Mount d env) (pid : ℕ) (it : GitEntry) (p : Text) (bytes : List ℕ)
      (truncating dirty : Bool) (mode : ℕ)
      → Quiet d env m m'
      → Quiet d env m (opened_git d env m' pid it p bytes false truncating dirty mode).0
  unfolding opened_git register_open_handle new_file
  opened_git-Quiet m m' pid it p bytes truncating dirty mode q = record {
    remote = q.remote;
    locked = q.locked;
    handles = (refl, q.handles);
  }

  open_git-Quiet :
      (m m' : Mount d env) (pid : ℕ) (it : GitEntry) (p : Text) (truncating : Bool)
      → Quiet d env m m'
      → Quiet d env m (open_git d env m' pid it p false truncating).0
  unfolding open_git
  open_git-Quiet m m' pid it p truncating q =
      let dirty = false in
      let mode = git_file_mode it in
      elim (Bool-cases (eqb it.kind (codes "dir"))) [
        | inl e ↦ rw (e, open_git) q
        | inr e ↦ elim (Option-cases (dirty_open_handle_data m'.registry p)) [
          | inr ((bytes, v), f) ↦
              rw (e, f, open_git) (opened_git-Quiet m m' pid it p bytes truncating dirty mode q)
          | inl f ↦ elim (Result-cases (env.git_read_file m'.git it).1) [
            | inl (bytes, g) ↦
                rw (e, f, g, open_git)
                  (opened_git-Quiet m _ pid it p bytes truncating dirty mode
                    (with_git d env m m' _ q))
            | inr (x, g) ↦ rw (e, f, g, open_git) (with_git d env m m' _ q)
          ]
        ]
      ]

  open_remote-Quiet :
      (m m' : Mount d env) (now pid : ℕ) (p : Text) (truncating : Bool)
      → Quiet d env m m'
      → Quiet d env m (open_remote d env m' now pid p false truncating).0
  unfolding open_remote
  open_remote-Quiet m m' now pid p truncating q =
      elim (Result-cases (stat_version d m'.runtime.remote p)) [
        | inr (x, s) ↦ rw (s, open_remote) q
        | inl (v, s) ↦
            let r = (read_through d m'.runtime now p v).0 in
            let read = with_runtime d env m m' r q (read_through-remote d env m'.runtime now p v) in
            elim (Bool-cases (is_dir_info d env m' p)) [
              | inl e ↦ rw (s, e, open_remote) q
              | inr e ↦ elim (Option-cases (dirty_open_handle_data m'.registry p)) [
                | inr ((bytes, w), f) ↦
                    rw (s, e, f, open_remote) (opened-Quiet m m' pid p bytes truncating w q)
                | inl f ↦ elim (Result-cases (read_through d m'.runtime now p v).1) [
                  | inl (bytes, g) ↦
                      rw (s, e, f, g, open_remote) (opened-Quiet m _ pid p bytes truncating v read)
                  | inr (x, g) ↦ rw (s, e, f, g, open_remote) read
                ]
              ]
            ]
      ]

  open_layered-Quiet :
      (m m' : Mount d env) (now pid : ℕ) (p : Text) (truncating : Bool)
      → Quiet d env m m'
      → Quiet d env m (open_layered d env m' now pid p false truncating).0
  unfolding open_layered
  open_layered-Quiet m m' now pid p truncating q =
      let loaded = with_git d env m m' (env.git_entry m'.git p).0 q in
      elim (Result-cases (env.git_entry m'.git p).1) [
        | inr (x, f) ↦ rw (f, open_layered) loaded
        | inl (entry, f) ↦ elim (Option-cases entry) [
          | inl e ↦ rw (f, e, open_layered) (open_remote-Quiet m _ now pid p truncating loaded)
          | inr (it, e) ↦ rw (f, e, open_layered) (open_git-Quiet m _ pid it p truncating loaded)
        ]
      ]

  pub open_node-Quiet :
      (m : Mount d env) (now pid : ℕ) (p : Text) (writable truncating : Bool)
      → Quiet d env m m
      → Quiet d env m (open_node d env m now pid p writable truncating).0
  unfolding open_node
  open_node-Quiet m now pid p true truncating q = refused d env m m.read_only _ _ q q.locked
  open_node-Quiet m now pid p false truncating q = elim (Option-cases (local_info d env m p)) [
    | inl e ↦ elim (Bool-cases (is_local_only m.layers p)) [
      | inl o ↦ rw (e, o, open_node) q
      | inr o ↦ rw (e, o, open_node) (open_layered-Quiet m m now pid p truncating q)
    ]
    | inr ((abs, dir), e) ↦ elim (Bool-cases dir) [
      | inl f ↦ rw (e, f, open_node) q
      | inr f ↦ elim (Option-cases (env.local_open m.disk abs).1) [
        | inl g ↦ rw (e, f, g, open_node) (with_disk-Quiet d env m m _ q)
        | inr (x, g) ↦ rw (e, f, g, open_node) (with_disk-Quiet d env m m _ q)
      ]
    ]
  ]
