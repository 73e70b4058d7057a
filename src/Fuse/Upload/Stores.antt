-- ===== src/Fuse/Upload/Stores.antt =====
-- An upload that succeeds stores the bytes of the file, whichever way it went.
use ti_cli.Common.{
  ℕ, ◌*◌, ◌%◌, ◌≤◌, ◌<◌, ◌^◌, max, true, some, List, [], map, ◌≡◌, refl, ap, ◌∙◌, arith, Bool-cases,
  Option-cases, inl, inr, length, length-zero, ◌==◌,
}
use ti_cli.Common.Text.{Text}
use ti_cli.Common.Result.{ok, err, Result-cases}
use ti_cli.Fuse.Version.{Version}
use ti_cli.Fuse.Errors.{FsError}
use ti_cli.Fuse.Ranges.{DirtyRange, raw, dirty_parts}
use ti_cli.Fuse.Ranges.Parts.{member}
use ti_cli.Fuse.DataPlane.{DataPlane, IsStore, Patched}
use ti_cli.Fuse.Upload.{
  adaptive_part_size, should_patch, read_part, patch_upload, write_whole, upload, check_write_base,
}
use ti_cli.Fuse.Upload.Patch.{Agrees, Patched-eq}

-- Parts are whole mebibytes between 8 and 512.
pub adaptive_part_size_bounds :
    (total : ℕ)
    → (8 * 2 ^ 20 ≤ adaptive_part_size total)
      × (adaptive_part_size total ≤ 512 * 2 ^ 20)
      × (adaptive_part_size total % 2 ^ 20 ≡ 0)
unfolding adaptive_part_size
adaptive_part_size_bounds total = (ground arith, ground arith, ground arith)

should_patch-size :
    (base : Version) (base_size new_size : ℕ) (ranges : List DirtyRange)
    → should_patch base base_size new_size ranges ≡ true
    → base_size ≡ new_size
unfolding should_patch
should_patch-size base base_size new_size ranges h = ground arith

module _ (d : DataPlane) (store : IsStore d) where
  write_whole_stores :
      (s : d.State) (p : Text) (bytes : List ℕ) (base v : Version) (s' : d.State)
      → write_whole d s p bytes base ≡ (s', ok v)
      → d.content s' p ≡ some bytes
  unfolding write_whole
  write_whole_stores s p bytes base v s' h =
      let out = d.write_file s p bytes in
      elim (Result-cases out.1) [
        | inl (revision, e) ↦
            let at : s' ≡ out.0 = ground arith in
            rw at (store.write_stores s p bytes out.0 revision (λ i. (out.0, e i)))
        | inr (failed, e) ↦ absurd (ground arith)
      ]

  patch_upload_stores :
      (s : d.State) (p : Text) (bytes : List ℕ) (base : Version) (base_size : ℕ)
      (ranges : List DirtyRange) (v : Version) (s' : d.State) (old : List ℕ)
      → d.content s p ≡ some old
      → length old ≡ length bytes
      → Agrees old bytes ranges
      → patch_upload d s p bytes base base_size ranges ≡ (s', ok v)
      → d.content s' p ≡ some bytes
  unfolding patch_upload
  patch_upload_stores s p bytes base base_size ranges v s' old stored same agrees h =
      let n = length bytes in
      let part_size = adaptive_part_size (max base_size n) in
      let parts = dirty_parts (map raw ranges) part_size n in
      let read = read_part bytes part_size in
      let out = d.patch_file s p n parts read part_size base.revision in
      let pos : 0 < part_size = omega (arith, adaptive_part_size_bounds (max base_size n)) in
      elim (Bool-cases (length parts == 0)) [
        | inl empty ↦
            let at : s' ≡ s = ground arith in
            let none_named : parts ≡ [] = length-zero parts (ground arith) in
            let untouched : Patched old old n parts read part_size =
              (same, λ i lt. rw none_named (unfold member in refl)) in
            rw at
              (stored ∙ ap some (Patched-eq old old bytes ranges part_size pos agrees untouched))
        | inr named ↦ elim (Option-cases out.1) [
          | inl e ↦
              let at : s' ≡ out.0 = ground arith in
              let (new, there, patched) =
                store.patch_stores s p n parts read part_size base.revision out.0 old
                  (λ i. (out.0, e i)) stored same pos in
              rw at (there ∙ ap some (Patched-eq old new bytes ranges part_size pos agrees patched))
          | inr (failed, e) ↦ absurd (ground arith)
        ]
      ]

  upload_refused :
      (s : d.State) (p : Text) (bytes : List ℕ) (base : Version) (base_size : ℕ)
      (ranges : List DirtyRange) (v : Version) (s' : d.State) (e : FsError)
      → check_write_base d s p base ≡ err e
      → ¬ (upload d s p bytes base base_size ranges ≡ (s', ok v))
  unfolding upload
  upload_refused s p bytes base base_size ranges v s' e refused h = ground arith

  -- If the service holds the file that the handle was opened on, and the handle's bytes agree
  -- with it outside the dirty ranges (where the sizes agree at all), then an upload that succeeds
  -- leaves exactly the handle's bytes in the service: by a patch, by a patch that fell back to a
  -- whole write, or by a whole write.
  pub upload_stores :
      (s : d.State) (p : Text) (bytes : List ℕ) (base : Version) (base_size : ℕ)
      (ranges : List DirtyRange) (v : Version) (s' : d.State) (old : List ℕ)
      → d.content s p ≡ some old
      → length old ≡ base_size
      → (base_size ≡ length bytes → Agrees old bytes ranges)
      → upload d s p bytes base base_size ranges ≡ (s', ok v)
      → d.content s' p ≡ some bytes
  unfolding upload
  upload_stores s p bytes base base_size ranges v s' old stored size agrees h =
      let out = patch_upload d s p bytes base base_size ranges in
      elim (Result-cases (check_write_base d s p base)) [
        | inr (e, refused) ↦
            absurd (upload_refused s p bytes base base_size ranges v s' e refused h)
        | inl (_, fine) ↦ elim (Bool-cases (should_patch base base_size (length bytes) ranges)) [
          | inr whole ↦ write_whole_stores s p bytes base v s' (ground arith)
          | inl patch ↦
              let same : base_size ≡ length bytes =
                should_patch-size base base_size _ ranges patch in
              elim (Result-cases out.1) [
                | inl (w, e) ↦
                    let at : s' ≡ out.0 = ground arith in
                    rw at (
                      patch_upload_stores s p bytes base base_size ranges w out.0 old stored
                        (size ∙ same) (agrees same) (λ i. (out.0, e i)))
                | inr (failed, e) ↦ write_whole_stores out.0 p bytes base v s' (ground arith)
              ]
        ]
      ]
