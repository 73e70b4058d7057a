-- ===== src/Fuse/Nodes/ReadOnly/Frozen.antt =====
-- Mounts that leave the service as it was and let nothing be written to.
use ti_cli.Common.{
  ℕ, Bool, true, false, Option, some, List, [], ◌∷◌, if◌then◌else◌, ◌==◌, ◌≡◌, refl, ◌∙◌, arith,
  inl, inr, Bool-cases, All,
}
use ti_cli.Common.Text.{Text}
use ti_cli.Common.Int.{ℤ}
use ti_cli.Fuse.Version.{Version}
use ti_cli.Fuse.DataPlane.{DataPlane}
use ti_cli.Fuse.Runtime.{Runtime, read_through}
use ti_cli.Fuse.File.{File, write, setattr, set_mode}
use ti_cli.Fuse.Handles.{Handle, set_file, without}
use ti_cli.Fuse.Nodes.{Surroundings, Mount}
use ti_cli.Fuse.Nodes.Calls.{find_handle}

abbrev pub ReadOnly : List Handle → Type 0
ReadOnly = All (λ (h : Handle). h.file.writable ≡ false)

pub set_file-ReadOnly :
    (i : ℕ) (f : File) (hs : List Handle)
    → f.writable ≡ false
    → ReadOnly hs
    → ReadOnly (set_file i f hs)
unfolding set_file
set_file-ReadOnly i f [] w h = tt
set_file-ReadOnly i f (g ∷ hs) w h = elim (Bool-cases (g.id == i)) [
  | inl e ↦ rw e (w, set_file-ReadOnly i f hs w h.1)
  | inr e ↦ rw e (h.0, set_file-ReadOnly i f hs w h.1)
]

pub without-ReadOnly : (i : ℕ) (hs : List Handle) → ReadOnly hs → ReadOnly (without i hs)
unfolding without
without-ReadOnly i [] h = tt
without-ReadOnly i (g ∷ hs) h = elim (Bool-cases (g.id == i)) [
  | inl e ↦ rw e (without-ReadOnly i hs h.1)
  | inr e ↦ rw e (h.0, without-ReadOnly i hs h.1)
]

pub find_handle-ReadOnly :
    (i : ℕ) (hs : List Handle) (h : Handle)
    → ReadOnly hs
    → find_handle i hs ≡ some h
    → h.file.writable ≡ false
unfolding find_handle
find_handle-ReadOnly i [] h r e = absurd (cc)
find_handle-ReadOnly i (g ∷ hs) h r e = ground (arith, find_handle-ReadOnly i hs h r.1)

pub write-writable : (f : File) (new : List ℕ) (off : ℤ) → (write f new off).0.writable ≡ f.writable
unfolding write
write-writable f new off = ground arith

pub setattr-writable :
    (f : File) (size mode : Option ℕ) → (setattr f size mode).0.writable ≡ f.writable
unfolding setattr set_mode
setattr-writable f size mode = ground arith

module _ (d : DataPlane) (env : Surroundings d) where
  pub read_through-remote :
      (r : Runtime d) (now : ℕ) (p : Text) (v : Version)
      → (read_through d r now p v).0.remote ≡ r.remote
  unfolding read_through
  read_through-remote r now p v = ground arith

  -- The service is as it was, the mount is still read-only, and no handle can be written to.
  pub record Quiet (m m' : Mount d env) : Type 0 where
    pub remote : m'.runtime.remote ≡ m.runtime.remote
    pub locked : m'.read_only ≡ true
    pub handles : ReadOnly m'.registry.handles

  pub still : (m : Mount d env) → m.read_only ≡ true → ReadOnly m.registry.handles → Quiet m m
  still m l h = record { remote = refl; locked = l; handles = h }

  pub refused :
      {A : Type 0} (m : Mount d env) (b : Bool) (x : A) (y : Mount d env × A)
      → Quiet m m
      → b ≡ true
      → Quiet m (if b then (m, x) else y).0
  refused m true x y q e = q
  refused m false x y q e = absurd (cc)

  pub with_git : (m m' : Mount d env) (g : env.Git) → Quiet m m' → Quiet m (record m' { git = g })
  with_git m m' g q = record { remote = q.remote; locked = q.locked; handles = q.handles }

  pub with_runtime :
      (m m' : Mount d env) (r : Runtime d)
      → Quiet m m'
      → r.remote ≡ m'.runtime.remote
      → Quiet m (record m' { runtime = r })
  with_runtime m m' r q e = record { remote = e ∙ q.remote; locked = q.locked; handles = q.handles }

  pub with_disk-Quiet :
      (m m' : Mount d env) (l : env.Local) → Quiet m m' → Quiet m (record m' { disk = l })
  with_disk-Quiet m m' l q = record { remote = q.remote; locked = q.locked; handles = q.handles }
