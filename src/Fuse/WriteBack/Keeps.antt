-- ===== src/Fuse/WriteBack/Keeps.antt =====
-- A write through the store is either done, or left on the disk as it was asked for.
use ti_cli.Common.{
  ℕ, ◌+◌, ◌≤◌, ◌<◌, Option, none, some, List, [], ◌∷◌, ltb, ◌==◌, if◌then◌else◌, length, ◌≡◌, inl,
  inr, sym, ap, ◌∙◌, arith, Bool-cases,
}
use ti_cli.Common.Text.{Text}
use ti_cli.Common.Result.{ok, err, Result-cases}
use ti_cli.Fuse.Version.{Version}
use ti_cli.Fuse.Errors.{FsError}
use ti_cli.Fuse.Ranges.{DirtyRange}
use ti_cli.Fuse.DataPlane.{DataPlane}
use ti_cli.Fuse.Upload.{upload}
use ti_cli.Fuse.WriteBack.{
  Identity, Meta, Disk, Store, attempt, set_meta, drop_meta, with_data, with_meta, without_meta,
  new_meta, put, remove, put_and_upload,
}

-- The names of the metadata files rise.
abbrev pub Rising : List (ℕ × Option Meta) → Type 0
Rising [] = Unit {0}
Rising ((n, o) ∷ []) = Unit {0}
Rising ((n, o) ∷ (j, p) ∷ ms) = (n < j) × Rising ((j, p) ∷ ms)

unfoldable pub find_meta : ℕ → List (ℕ × Option Meta) → Option (Option Meta)
find_meta n [] = none
find_meta n ((j, o) ∷ ms) = if n == j then some o else find_meta n ms

find-set_meta :
    (n : ℕ) (m : Meta) (ms : List (ℕ × Option Meta)) → find_meta n (set_meta n m ms) ≡ some (some m)
unfolding find_meta set_meta
find-set_meta n m [] = ground arith
find-set_meta n m ((j, o) ∷ ms) = ground (arith, find-set_meta n m ms)

drop-absent :
    (n : ℕ) (ms : List (ℕ × Option Meta)) (j : ℕ) (o : Option Meta)
    → Rising ((j, o) ∷ ms)
    → n < j
    → drop_meta n ((j, o) ∷ ms) ≡ (j, o) ∷ ms
unfolding drop_meta
drop-absent n [] j o r h = ground arith
drop-absent n ((i, p) ∷ ms) j o r h = ground (arith, drop-absent n ms i p r.1 (omega (arith, r.0)))

Rising-tail : (e : ℕ × Option Meta) (ms : List (ℕ × Option Meta)) → Rising (e ∷ ms) → Rising ms
Rising-tail e [] r = tt
Rising-tail (n, o) ((j, p) ∷ ms) r = r.1

drop-set_meta :
    (n : ℕ) (m : Meta) (ms : List (ℕ × Option Meta))
    → Rising ms
    → drop_meta n (set_meta n m ms) ≡ drop_meta n ms
unfolding set_meta drop_meta
drop-set_meta n m [] r = ground arith
drop-set_meta n m ((j, o) ∷ ms) r = elim (Bool-cases (n == j)) [
  | inl e ↦ rw e (ground arith)
  | inr e ↦ elim (Bool-cases (ltb n j)) [
    | inl lt ↦
        rw (e, lt) (let same = drop-absent n ms j o r (ground arith) in ground (arith, same, e))
    | inr ge ↦ rw (e, ge) (ground (arith, e, drop-set_meta n m ms (Rising-tail (j, o) ms r)))
  ]
]

module _ (key : Text → ℕ) where
  pub put_ok :
      (identity : Identity) (path : Text) (bytes : List ℕ) (base : Version) (base_size : ℕ)
      (ranges : List DirtyRange) (k k' : Disk)
      → put key identity path bytes base base_size ranges k ≡ (k', ok tt)
      → (k'.metas
          ≡ set_meta (key path) (new_meta key identity path bytes base base_size ranges) k.metas)
        × (k'.bytes (key path) ≡ some bytes)
  unfolding put attempt with_data with_meta
  put_ok identity path bytes base base_size ranges k k' h =
      let same : k'
          ≡ with_meta (key path) (new_meta key identity path bytes base base_size ranges)
              (with_data (key path) (some bytes) (record k { ops = k.ops + 3 })) =
        ground arith in
      (ap (λ (x : Disk). x.metas) same, ap (λ (x : Disk). x.bytes (key path)) same ∙ ground arith)

  pub remove_ok :
      (path : Text) (k k' : Disk)
      → remove key path k ≡ (k', ok tt)
      → (k'.metas ≡ drop_meta (key path) k.metas) × (k'.bytes (key path) ≡ none)
  unfolding remove attempt with_data without_meta
  remove_ok path k k' h =
      let same : k'
          ≡ without_meta (key path) (with_data (key path) none (record k { ops = k.ops + 2 })) =
        ground arith in
      (ap (λ (x : Disk). x.metas) same, ap (λ (x : Disk). x.bytes (key path)) same ∙ ground arith)

  module _ (d : DataPlane) where
    open d use {State}

    -- A write within the size limit that succeeds, over a disk whose metadata files are in order,
    -- was uploaded with success; the disk then holds no data of the path, and the metadata that
    -- it had less that of the path.
    pub put_and_upload_done :
        (s s' : Store) (remote remote' : State) (path : Text) (bytes : List ℕ) (base v : Version)
        (base_size : ℕ) (ranges : List DirtyRange)
        → Rising s.disk.metas
        → length bytes ≤ s.max_bytes
        → put_and_upload key d s remote path bytes base base_size ranges ≡ ((s', remote'), ok v)
        → (upload d remote path bytes base base_size ranges ≡ (remote', ok v))
          × (s'.disk.metas ≡ drop_meta (key path) s.disk.metas)
          × (s'.disk.bytes (key path) ≡ none)
    unfolding put_and_upload
    put_and_upload_done s s' remote remote' path bytes base v base_size ranges rising small h =
        let out = upload d remote path bytes base base_size ranges in
        let kept = put key s.identity path bytes base base_size ranges s.disk in
        let cleared = remove key path kept.0 in
        elim (Result-cases kept.1) [
          | inr (e, f) ↦ absurd (ground arith)
          | inl (_, f) ↦ elim (Result-cases out.1) [
            | inr (e, g) ↦ absurd (ground arith)
            | inl (w, g) ↦ elim (Result-cases cleared.1) [
              | inr (e, i) ↦ absurd (ground arith)
              | inl (_, i) ↦
                  let (stored, _) =
                    put_ok s.identity path bytes base base_size ranges s.disk kept.0
                      (λ x. (kept.0, f x)) in
                  let (metas, gone) = remove_ok path kept.0 cleared.0 (λ x. (cleared.0, i x)) in
                  let disk : s'.disk ≡ cleared.0 = ground arith in
                  let version : w ≡ v = ground arith in
                  let there : remote' ≡ out.0 = ground arith in
                  (
                    ground arith,
                    ap (λ (x : Disk). x.metas) disk
                        ∙ metas
                        ∙ ap (drop_meta (key path)) stored
                        ∙ drop-set_meta (key path)
                            (new_meta key s.identity path bytes base base_size ranges) s.disk.metas
                            rising,
                    ap (λ (x : Disk). x.bytes (key path)) disk ∙ gone,
                  )
            ]
          ]
        ]

    -- If the upload of a write within the size limit fails after the disk took the write, the
    -- write is on the disk as it was asked for, under the name of its path.
    pub put_and_upload_pending :
        (s : Store) (k : Disk) (remote remote' : State) (path : Text) (bytes : List ℕ)
        (base : Version) (base_size : ℕ) (ranges : List DirtyRange) (e : FsError)
        → length bytes ≤ s.max_bytes
        → put key s.identity path bytes base base_size ranges s.disk ≡ (k, ok tt)
        → upload d remote path bytes base base_size ranges ≡ (remote', err e)
        → (put_and_upload key d s remote path bytes base base_size ranges
            ≡ ((record s { disk = k }, remote'), err e))
          × (find_meta (key path) k.metas
              ≡ some (some (new_meta key s.identity path bytes base base_size ranges)))
          × (k.bytes (key path) ≡ some bytes)
    unfolding put_and_upload
    put_and_upload_pending s k remote remote' path bytes base base_size ranges e small h f =
        let (metas, data_there) = put_ok s.identity path bytes base base_size ranges s.disk k h in
        (
          ground arith,
          ap (find_meta (key path)) metas
              ∙ find-set_meta (key path) (new_meta key s.identity path bytes base base_size ranges)
                  s.disk.metas,
          data_there,
        )

    -- Whatever the disk does, a write that succeeds was uploaded with success.
    pub put_and_upload_uploads :
        (s : Store) (remote : State) (path : Text) (bytes : List ℕ) (base v : Version)
        (base_size : ℕ) (ranges : List DirtyRange)
        → (put_and_upload key d s remote path bytes base base_size ranges).1 ≡ ok v
        → upload d remote path bytes base base_size ranges
          ≡ ((put_and_upload key d s remote path bytes base base_size ranges).0.1, ok v)
    unfolding put_and_upload
    put_and_upload_uploads s remote path bytes base v base_size ranges h =
        let out = upload d remote path bytes base base_size ranges in
        let all = put_and_upload key d s remote path bytes base base_size ranges in
        let kept = put key s.identity path bytes base base_size ranges s.disk in
        let cleared = remove key path kept.0 in
        elim (Result-cases kept.1) [
          | inr (e, f) ↦
              let sent : out.1 ≡ ok v = ground arith in
              let there : all.0.1 ≡ out.0 = ground arith in
              (λ i. (out.0, sent i)) ∙ ap (λ x. (x, ok v)) (sym there)
          | inl (_, f) ↦
              let sent : out.1 ≡ ok v = ground arith in
              let there : all.0.1 ≡ out.0 = ground arith in
              (λ i. (out.0, sent i)) ∙ ap (λ x. (x, ok v)) (sym there)
        ]
