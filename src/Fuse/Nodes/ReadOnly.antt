-- ===== src/Fuse/Nodes/ReadOnly.antt =====
-- A mount that is read-only changes nothing remote.
pub mod Frozen
pub mod Opens
use ti_cli.Common.{
  ℕ, Bool, true, false, Option, none, some, List, [], ◌∷◌, if◌then◌else◌, ◌==◌, ◌≡◌, refl, sym, ◌∙◌,
  arith, inl, inr, Bool-cases, Option-cases, All, subst,
}
use ti_cli.Common.Text.{Text, eqb, codes}
use ti_cli.Common.Int.{ℤ}
use ti_cli.Common.Result.{Result-cases}
use ti_cli.Paths.Remote.{is_local_only}
use ti_cli.Fuse.Version.{Version}
use ti_cli.Fuse.DataPlane.{DataPlane}
use ti_cli.Fuse.Upload.{stat_version}
use ti_cli.Fuse.Runtime.{Runtime, read_through}
use ti_cli.Fuse.File.{File, write, setattr, set_mode, flush, new_file}
use ti_cli.Fuse.Handles.{
  Handle, GitEntry, set_file, without, register_open_handle, unregister_open_handle,
  dirty_open_handle_data,
}
use ti_cli.Fuse.Nodes.{Surroundings, Mount, local_info, unlink, rmdir, remove_node}
use ti_cli.Fuse.Nodes.Renaming.{rename}
use ti_cli.Fuse.Nodes.Opening.{
  open_node, open_layered, open_git, open_remote, opened, opened_git, git_file_mode,
}
use ti_cli.Fuse.Nodes.Attributes.{setattr_node, getattr, getattr_layered}
use ti_cli.Fuse.Nodes.Creation.{create, mkdir}
use ti_cli.Fuse.Nodes.Linking.{symlink, link}
use ti_cli.Fuse.Nodes.Calls.{
  KernelCall, unlinks, rmdirs, renames, opens, sets, creates, mkdirs, symlinks, links, writes_to,
  sets_of, flushes, releases, find_handle, with_file, flush_git, flush_handle, release_handle,
  run_on, run_call, run_calls,
}
use ti_cli.Fuse.Nodes.ReadOnly.Frozen.{
  ReadOnly, set_file-ReadOnly, without-ReadOnly, find_handle-ReadOnly, write-writable,
  setattr-writable, read_through-remote, still, refused, with_git, with_runtime, with_disk-Quiet,
  Quiet,
}
use ti_cli.Fuse.Nodes.ReadOnly.Opens.{open_node-Quiet}

module _ (d : DataPlane) (env : Surroundings d) where
  getattr_layered-Quiet :
      (m : Mount d env) (p : Text) → Quiet d env m m → Quiet d env m (getattr_layered d env m p).0
  unfolding getattr_layered
  getattr_layered-Quiet m p q =
      let loaded = with_git d env m m (env.git_entry m.git p).0 q in
      elim (Result-cases (env.git_entry m.git p).1) [
        | inr (x, f) ↦ rw (f, getattr_layered) loaded
        | inl (entry, f) ↦ elim (Option-cases entry) [
          | inr (it, e) ↦ rw (f, e, getattr_layered) loaded
          | inl e ↦ elim (Result-cases (stat_version d m.runtime.remote p)) [
            | inl (v, g) ↦ rw (f, e, g, getattr_layered) loaded
            | inr (x, g) ↦ rw (f, e, g, getattr_layered) loaded
          ]
        ]
      ]

  getattr-Quiet :
      (m : Mount d env) (p : Text) → Quiet d env m m → Quiet d env m (getattr d env m p).0
  unfolding getattr
  getattr-Quiet m p q = elim (Option-cases (local_info d env m p)) [
    | inr ((abs, dir), e) ↦ rw (e, getattr) q
    | inl e ↦ elim (Bool-cases (is_local_only m.layers p)) [
      | inl o ↦ rw (e, o, getattr) q
      | inr o ↦ rw (e, o, getattr) (getattr_layered-Quiet m p q)
    ]
  ]

  -- A handle that cannot be written to is found, and stays so.
  run_on-Quiet :
      (m : Mount d env) (i : ℕ) (act : Handle → Mount d env)
      → Quiet d env m m
      → ((h : Handle) → h.file.writable ≡ false → Quiet d env m (act h))
      → Quiet d env m (run_on d env m i act)
  unfolding run_on
  run_on-Quiet m i act q each = elim (Option-cases (find_handle i m.registry.handles)) [
    | inl e ↦ rw (e, run_on) q
    | inr (h, e) ↦ rw (e, run_on) (each h (find_handle-ReadOnly i m.registry.handles h q.handles e))
  ]

  with_file-Quiet :
      (m m' : Mount d env) (i : ℕ) (f : File)
      → Quiet d env m m'
      → f.writable ≡ false
      → Quiet d env m (with_file d env m' i f)
  with_file-Quiet m m' i f q w = record {
    remote = q.remote;
    locked = q.locked;
    handles = set_file-ReadOnly i f m'.registry.handles w q.handles;
  }

  flush_still :
      (r : Runtime d) (now : ℕ) (f : File) → f.writable ≡ false → (flush d r now f none).0 ≡ (r, f)
  unfolding flush
  flush_still r now f w = rw (w, flush) refl

  flush_handle-Quiet :
      (m : Mount d env) (now : ℕ) (h : Handle)
      → Quiet d env m m
      → h.file.writable ≡ false
      → Quiet d env m (flush_handle d env m now h)
  unfolding flush_handle flush_git
  flush_handle-Quiet m now h q w = elim (Option-cases h.hook) [
    | inr (it, e) ↦ rw (e, w, flush_handle, flush_git) q
    | inl e ↦
        rw (e, flush_handle)
          (subst
            (λ (x : Runtime d × File).
              Quiet d env m (with_file d env (record m { runtime = x.0 }) h.id x.1))
            (sym (flush_still m.runtime now h.file w)) (with_file-Quiet m m h.id h.file q w))
  ]

  release_handle-Quiet :
      (m : Mount d env) (now : ℕ) (h : Handle)
      → Quiet d env m m
      → h.file.writable ≡ false
      → Quiet d env m (release_handle d env m now h)
  unfolding release_handle unregister_open_handle
  release_handle-Quiet m now h q w = elim (Bool-cases h.file.closed) [
    | inl e ↦ rw (e, release_handle) q
    | inr e ↦
        let done =
          flush_handle-Quiet m now (record h { file = record (h.file) { closed = true } }) q w in
        rw (e, release_handle)
          (record {
            remote = done.remote;
            locked = done.locked;
            handles = without-ReadOnly h.id _ done.handles;
          })
  ]

  setattr_node-Quiet :
      (m : Mount d env) (now pid : ℕ) (p : Text) (size mode : Option ℕ) (times : Bool)
      → Quiet d env m m
      → Quiet d env m (setattr_node d env m now pid p size mode times).0
  unfolding setattr_node
  setattr_node-Quiet m now pid p none none false q = getattr-Quiet m p q
  setattr_node-Quiet m now pid p none none true q = refused d env m m.read_only _ _ q q.locked
  setattr_node-Quiet m now pid p none (some mode) times q =
      refused d env m m.read_only _ _ q q.locked
  setattr_node-Quiet m now pid p (some size) mode times q =
      refused d env m m.read_only _ _ q q.locked

  run_call-Quiet :
      (m : Mount d env) (c : KernelCall) → Quiet d env m m → Quiet d env m (run_call d env m c)
  unfolding run_call unlink rmdir remove_node rename create mkdir symlink link
  run_call-Quiet m (unlinks parent name) q = refused d env m m.read_only _ _ q q.locked
  run_call-Quiet m (rmdirs parent name) q = refused d env m m.read_only _ _ q q.locked
  run_call-Quiet m (renames parent name new_parent new_name flags) q =
      refused d env m m.read_only _ _ q q.locked
  run_call-Quiet m (opens now pid p writable truncating) q =
      open_node-Quiet d env m now pid p writable truncating q
  run_call-Quiet m (sets now pid p size mode times) q =
      setattr_node-Quiet m now pid p size mode times q
  run_call-Quiet m (creates now pid parent name mode exclusive truncating) q =
      refused d env m m.read_only _ _ q q.locked
  run_call-Quiet m (mkdirs parent name mode) q = refused d env m m.read_only _ _ q q.locked
  run_call-Quiet m (symlinks target parent name) q = refused d env m m.read_only _ _ q q.locked
  run_call-Quiet m (links source parent name) q = refused d env m m.read_only _ _ q q.locked
  run_call-Quiet m (writes_to i bytes off) q = run_on-Quiet m i _ q (λ h w.
      with_file-Quiet m m h.id (write h.file bytes off).0 q (write-writable h.file bytes off ∙ w))
  run_call-Quiet m (sets_of i size mode) q = run_on-Quiet m i _ q (λ h w.
      with_file-Quiet m m h.id (setattr h.file size mode).0 q
        (setattr-writable h.file size mode ∙ w))
  run_call-Quiet m (flushes i now) q = run_on-Quiet m i _ q (λ h w. flush_handle-Quiet m now h q w)
  run_call-Quiet m (releases i now) q =
      run_on-Quiet m i _ q (λ h w. release_handle-Quiet m now h q w)

  -- Over a read-only mount with no handle that can be written to, no calls of the kernel, whatever
  -- they are and in whatever order, change what the service holds; and no handle that can be written
  -- to comes about.
  pub read_only_frozen :
      (m : Mount d env) (cs : List KernelCall)
      → m.read_only ≡ true
      → ReadOnly m.registry.handles
      → ((run_calls d env m cs).runtime.remote ≡ m.runtime.remote)
        × ReadOnly (run_calls d env m cs).registry.handles
  unfolding run_calls
  read_only_frozen m [] l h = (refl, h)
  read_only_frozen m (c ∷ cs) l h =
      let q = run_call-Quiet m c (still d env m l h) in
      let (same, kept) = read_only_frozen (run_call d env m c) cs q.locked q.handles in
      (same ∙ q.remote, kept)
