-- ===== src/Fuse/Upload/Guard.antt =====
-- What the check before an upload promises (`checkWriteBase` of internal/fs/fuse_mount.go).
use ti_cli.Common.{ℕ, true, false, List, [], ◌≡◌, ◌≢◌, ◌⊎◌, arith, inl, inr}
use ti_cli.Common.Int.{ℤ, pos, negsuc, is_positive, eqb_ℤ}
use ti_cli.Common.Text.{Text, eqb, eqb_iff}
use ti_cli.Common.Result.{Result, ok, Result-cases}
use ti_cli.Fuse.Version.{Version, known, nonempty, conflicts_with}
use ti_cli.Fuse.Errors.{FsError}
use ti_cli.Fuse.Ranges.{DirtyRange}
use ti_cli.Fuse.DataPlane.{DataPlane}
use ti_cli.Fuse.Upload.{stat_version, check_write_base, upload}

-- The revisions agree where both are positive, and the ids where both are there.
abbrev pub SameObject : Version → Version → Type 0
SameObject v base =
    (is_positive v.revision ≡ true → is_positive base.revision ≡ true → v.revision ≡ base.revision)
    × (v.resource_id ≢ [] → base.resource_id ≢ [] → v.resource_id ≡ base.resource_id)

eqb_ℤ_sound : (a b : ℤ) → eqb_ℤ a b ≡ true → a ≡ b
eqb_ℤ_sound (pos m) (pos n) h = ground arith
eqb_ℤ_sound (pos m) (negsuc n) h = cc
eqb_ℤ_sound (negsuc m) (pos n) h = cc
eqb_ℤ_sound (negsuc m) (negsuc n) h = ground arith

nonempty_complete : (s : Text) → s ≢ [] → nonempty s ≡ true
unfolding eqb
nonempty_complete s h = let blank = eqb_iff s [] in ground arith

conflicts_with-SameObject : (v base : Version) → conflicts_with v base ≡ false → SameObject v base
conflicts_with-SameObject v base h = (
  λ p q. eqb_ℤ_sound v.revision base.revision (unfold conflicts_with in ground arith),
  λ p q.
      let here = nonempty_complete v.resource_id p in
      let there = nonempty_complete base.resource_id q in
      (eqb_iff v.resource_id base.resource_id).0 (unfold conflicts_with in ground arith),
)

module _ (d : DataPlane) where
  checked :
      (s : d.State) (p : Text) (base : Version) (u : Unit {0})
      → known base ≡ true
      → check_write_base d s p base ≡ ok u
      → (v : Version) × (stat_version d s p ≡ ok v) × SameObject v base
  unfolding check_write_base
  checked s p base u k h = elim (Result-cases (stat_version d s p)) [
    | inr (e, f) ↦ absurd (ground arith)
    | inl (v, f) ↦ (v, f, conflicts_with-SameObject v base (ground arith))
  ]

  -- An upload of a file that was opened with a known version, however it ends, leaves the service as
  -- it was, unless the remote file is there with a version whose revision and id are those of the
  -- known one, where both versions have them.
  pub upload_guarded :
      (s s' : d.State) (p : Text) (bytes : List ℕ) (base : Version) (base_size : ℕ)
      (ranges : List DirtyRange) (r : Result FsError Version)
      → known base ≡ true
      → upload d s p bytes base base_size ranges ≡ (s', r)
      → (s' ≡ s) ⊎ ((v : Version) × (stat_version d s p ≡ ok v) × SameObject v base)
  upload_guarded s s' p bytes base base_size ranges r k h =
      elim (Result-cases (check_write_base d s p base)) [
        | inl (u, f) ↦ inr (checked s p base u k f)
        | inr (e, f) ↦ inl (unfold upload in ground arith)
      ]
