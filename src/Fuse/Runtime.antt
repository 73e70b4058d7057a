-- ===== src/Fuse/Runtime.antt =====
-- Reads and writes of whole files through the cache (internal/fs/fuse_mount.go: `readFile`,
-- `writeFileWithDirty`, `recoverPending`). `key` names the files of the write-back store.
use ti_cli.Common.{
  ℕ, ◌≤◌, Option, none, some, List, ◌≡◌, sym, ap, ◌∙◌, arith, length, inl, inr, Option-cases,
}
use ti_cli.Common.Text.{Text}
use ti_cli.Common.Result.{Result, ok, err, Result-cases}
use ti_cli.Fuse.Version.{Version, matches_self}
use ti_cli.Fuse.Errors.{FsError}
use ti_cli.Fuse.Ranges.{DirtyRange}
use ti_cli.Fuse.DataPlane.{DataPlane}
use ti_cli.Fuse.Upload.{upload}
use ti_cli.Fuse.WriteBack.{Store, put_and_upload, recover}
use ti_cli.Fuse.WriteBack.Keeps.{put_and_upload_uploads}
use ti_cli.Fuse.Cache.{Cache, get, put, invalidate}
use ti_cli.Fuse.Cache.Invariant.{Inv, get-Inv, put-Inv}
use ti_cli.Fuse.Cache.Lookup.{Fresh, get-put}

module _ (d : DataPlane) where
  open d use {State, read_file}

  pub record Runtime : Type 0 where
    pub remote : State
    pub cache : Cache
    pub key : Text → ℕ
    pub write_back : Option Store

  unfoldable pub read_through : Runtime → ℕ → Text → Version → Runtime × Result FsError (List ℕ)
  read_through r now p version =
      let (c, hit) = get r.cache now p version in
      elim hit [
        | some bytes ↦ (record r { cache = c }, ok bytes)
        | none ↦ elim (read_file r.remote p) [
          | err e ↦ (record r { cache = c }, err e)
          | ok bytes ↦ (record r { cache = put c now p bytes version }, ok bytes)
        ]
      ]

  unfoldable pub upload_through :
      Runtime
      → Text
      → List ℕ
      → Version
      → ℕ
      → List DirtyRange
      → (Option Store × State) × Result FsError Version
  upload_through r p bytes base base_size ranges = elim r.write_back [
    | none ↦ let (s, done) = upload d r.remote p bytes base base_size ranges in ((none, s), done)
    | some w ↦
        let ((w', s), done) = put_and_upload r.key d w r.remote p bytes base base_size ranges in
        ((some w', s), done)
  ]

  unfoldable pub write_with_dirty :
      Runtime → ℕ → Text → List ℕ → Version → ℕ → List DirtyRange → Runtime × Result FsError Version
  unfolding upload_through
  write_with_dirty r now p bytes base base_size ranges =
      let ((w, s), done) = upload_through r p bytes base base_size ranges in
      elim done [
        | err e ↦ (record r { remote = s; cache = invalidate r.cache p; write_back = w }, err e)
        | ok v ↦ (record r { remote = s; cache = put r.cache now p bytes v; write_back = w }, ok v)
      ]

  unfoldable pub recover_pending : Runtime → Runtime × Result FsError ℕ
  recover_pending r = elim r.write_back [
    | none ↦ (r, ok 0)
    | some w ↦
        let ((w', s), done) = recover r.key d w r.remote in
        (record r { remote = s; write_back = some w' }, done)
  ]

  -- A write that succeeds, over the disk or not, was uploaded with success.
  pub upload_through_done :
      (r : Runtime) (p : Text) (bytes : List ℕ) (base v : Version) (base_size : ℕ)
      (ranges : List DirtyRange)
      → (upload_through r p bytes base base_size ranges).1 ≡ ok v
      → upload d r.remote p bytes base base_size ranges
        ≡ ((upload_through r p bytes base base_size ranges).0.1, ok v)
  unfolding upload_through
  upload_through_done r p bytes base v base_size ranges h =
      let out = upload d r.remote p bytes base base_size ranges in
      let all = upload_through r p bytes base base_size ranges in
      elim (Option-cases r.write_back) [
        | inl e ↦
            let sent : out.1 ≡ ok v = ground arith in
            let there : all.0.1 ≡ out.0 = ground arith in
            (λ i. (out.0, sent i)) ∙ ap (λ x. (x, ok v)) (sym there)
        | inr (w, e) ↦
            let through = put_and_upload r.key d w r.remote p bytes base base_size ranges in
            let sent : through.1 ≡ ok v = ground arith in
            let there : all.0.1 ≡ through.0.1 = ground arith in
            put_and_upload_uploads r.key d w r.remote p bytes base v base_size ranges sent
            ∙ ap (λ x. (x, ok v)) (sym there)
      ]

  read_through-Inv :
      (r : Runtime) (now : ℕ) (p : Text) (version : Version)
      → Inv r.cache
      → Inv (read_through r now p version).0.cache
  unfolding read_through
  read_through-Inv r now p version v =
      let kept = get-Inv r.cache now p version v in
      elim (Option-cases (get r.cache now p version).1) [
        | inr (bytes, e) ↦ rw (e, read_through) kept
        | inl e ↦ elim (Result-cases (read_file r.remote p)) [
          | inr (x, f) ↦ rw (e, f, read_through) kept
          | inl (bytes, f) ↦ rw (e, f, read_through) (put-Inv _ now p bytes version kept)
        ]
      ]

  read_through-hit :
      (r : Runtime) (now : ℕ) (p : Text) (version : Version) (bytes : List ℕ)
      → (get r.cache now p version).1 ≡ some bytes
      → ((read_through r now p version).1 ≡ ok bytes)
        × ((read_through r now p version).0.remote ≡ r.remote)
  unfolding read_through
  read_through-hit r now p version bytes h = (rw (h, read_through), rw (h, read_through))

  -- Once a write of bytes within the limits of a cache that satisfies its invariant has
  -- succeeded, reads of the new version are served the written bytes while the entry is fresh,
  -- and without asking the service.
  pub read_through-write :
      (r : Runtime) (put_at now : ℕ) (p : Text) (bytes : List ℕ) (base : Version) (base_size : ℕ)
      (ranges : List DirtyRange) (v : Version)
      → Inv r.cache
      → length bytes ≤ r.cache.max_file
      → length bytes ≤ r.cache.max_size
      → Fresh r.cache put_at now
      → (write_with_dirty r put_at p bytes base base_size ranges).1 ≡ ok v
      → let r' = (write_with_dirty r put_at p bytes base base_size ranges).0 in
        ((read_through r' now p v).1 ≡ ok bytes) × ((read_through r' now p v).0.remote ≡ r'.remote)
  unfolding write_with_dirty
  read_through-write r put_at now p bytes base base_size ranges v i small fits fresh done =
      elim (Result-cases (upload_through r p bytes base base_size ranges).1) [
        | inr (x, e) ↦ absurd (ground arith)
        | inl (w, e) ↦
            let same : w ≡ v = ground arith in
            let hit = get-put r.cache put_at now p bytes v v i small fits fresh (matches_self v) in
            let written : write_with_dirty r put_at p bytes base base_size ranges ≡ (
              record r {
                remote = (upload_through r p bytes base base_size ranges).0.1;
                cache = put r.cache put_at p bytes v;
                write_back = (upload_through r p bytes base base_size ranges).0.0;
              },
              ok v,
            ) =
              ground arith in
            rw written (read_through-hit _ now p v bytes hit)
      ]
