-- ===== src/Fuse/Nodes/Listing/Links.antt =====
-- What a link reads as.
use ti_cli.Common.{
  true, false, none, some, if◌then◌else◌, ◌≡◌, refl, ap, ◌∙◌, arith, inl, inr, Option-cases,
}
use ti_cli.Common.Text.{Text, eqb_refl, utf8}
use ti_cli.Common.Result.{ok}
use ti_cli.Paths.Remote.{normalize_remote_path}
use ti_cli.Fuse.DataPlane.{DataPlane}
use ti_cli.Fuse.Metadata.{
  MetaStore, MetaEntry, Entries, read_locked, write_locked, set_symlink, update_entry,
  symlink_target_of, lookup_entry, changed_entries, find_entry,
}
use ti_cli.Fuse.Metadata.Edits.{lookup_entry-update_entry, find_entry-put_entry}
use ti_cli.Fuse.Nodes.{Surroundings, Mount, local_info}
use ti_cli.Fuse.Nodes.Linking.{symlink_remote}
use ti_cli.Fuse.Nodes.Listing.{readlink, readlink_layered, readlink_recorded}

set_symlink_done :
    (s : MetaStore) (p target : Text) (d : Entries)
    → normalize_remote_path p ≡ ok p
    → read_locked s ≡ ok d
    → s.stuck ≡ false
    → set_symlink s p target ≡ ((set_symlink s p target).0, none)
unfolding set_symlink
set_symlink_done s p target d e r w = rw (e, r, w, update_entry, write_locked) refl

abbrev link_entry : Text → MetaEntry
link_entry target = record {
  mode = 0x1FF;
  has_mode = true;
  symlink_target = target;
  has_symlink_target = true;
}

lookup_entry-set_symlink :
    (s : MetaStore) (p target : Text) (d : Entries)
    → normalize_remote_path p ≡ ok p
    → read_locked s ≡ ok d
    → s.stuck ≡ false
    → lookup_entry (set_symlink s p target).0 p ≡ some (link_entry target)
unfolding set_symlink
lookup_entry-set_symlink s p target d e r w =
    lookup_entry-update_entry s (set_symlink s p target).0 p p p p d (λ o. some (link_entry target))
      false e e r (set_symlink_done s p target d e r w)
    ∙ (unfold changed_entries in find_entry-put_entry p p (link_entry target) d)
    ∙ ap (λ b. if b then some (link_entry target) else find_entry p d) (eqb_refl p)

symlink_target_of-set_symlink :
    (s : MetaStore) (p target : Text) (d : Entries)
    → normalize_remote_path p ≡ ok p
    → read_locked s ≡ ok d
    → s.stuck ≡ false
    → symlink_target_of (set_symlink s p target).0 p ≡ some target
unfolding symlink_target_of
symlink_target_of-set_symlink s p target d e r w =
    rw (lookup_entry-set_symlink s p target d e r w, symlink_target_of) refl

module _ (d : DataPlane) (env : Surroundings d) where
  readlink_lem :
      (m : Mount d env) (s : MetaStore) (target p : Text) (g : env.Git)
      → m.metadata ≡ some s
      → symlink_target_of s p ≡ some target
      → local_info d env m p ≡ none
      → env.git_entry m.git p ≡ (g, ok none)
      → (readlink d env m p).1 ≡ ok (utf8 target)
  readlink_lem m s target p g has e off out =
      unfold readlink in
      rw (off, readlink)
        (unfold readlink_layered in
          rw (out, readlink_layered)
            (unfold readlink_recorded in rw (has, readlink_recorded) (rw e refl)))

  -- A symbolic link that is made on the remote file system with success reads as the bytes of its
  -- target, if the mount has a store of links that can be read and written, the path is normal, and neither the
  -- local disk nor a workspace has it.
  pub readlink-symlink_remote :
      (m m' : Mount d env) (s : MetaStore) (entries : Entries) (target p : Text) (g : env.Git)
      → m.metadata ≡ some s
      → read_locked s ≡ ok entries
      → s.stuck ≡ false
      → normalize_remote_path p ≡ ok p
      → local_info d env m p ≡ none
      → env.git_entry m.git p ≡ (g, ok none)
      → symlink_remote d env m target p ≡ (m', none)
      → (readlink d env m' p).1 ≡ ok (utf8 target)
  unfolding symlink_remote
  readlink-symlink_remote m m' s entries target p g has r w e off out h =
      elim (Option-cases (env.symlink_file m.runtime.remote target p).1) [
        | inr (x, f) ↦ absurd (ground arith)
        | inl f ↦
            let git : m'.git ≡ m.git = ground arith in
            let layers : m'.layers ≡ m.layers = ground arith in
            let disk : m'.disk ≡ m.disk = ground arith in
            let meta : m'.metadata ≡ some (set_symlink s p target).0 = ground arith in
            readlink_lem m' (set_symlink s p target).0 target p g meta
              (symlink_target_of-set_symlink s p target entries e r w)
              (unfold local_info in rw (layers, disk) off) (ap (λ x. env.git_entry x p) git ∙ out)
      ]
