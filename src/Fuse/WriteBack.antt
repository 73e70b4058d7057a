-- ===== src/Fuse/WriteBack.antt =====
-- The write-back store of the mount (internal/fs/fuse_writeback.go): a write is first kept on the
-- local disk, then uploaded, then removed from the disk; what a stopped mount left is uploaded by
-- the next one. The disk is the pair of files that the store keeps for each path. Operations on it
-- are numbered, and `fails` says which of them fail. The name of the files, the hexadecimal SHA-256
-- of the path, is the number `key path`. A file is read if it is there; times are left out.
pub mod Keeps
pub mod Recovers
use ti_cli.Common.{
  ℕ, zero, suc, ◌+◌, Bool, true, false, not, ◌&&◌, ◌||◌, Option, none, some, List, [], ◌∷◌, ltb,
  ◌==◌, if◌then◌else◌, length,
}
use ti_cli.Common.Int.{ℤ, pos, negsuc, eqb_ℤ, ltb_ℤ}
use ti_cli.Common.Text.{Text, eqb}
use ti_cli.Common.Result.{Result, ok, err}
use ti_cli.Fuse.Version.{Version}
use ti_cli.Fuse.Errors.{FsError, other}
use ti_cli.Fuse.Ranges.{DirtyRange}
use ti_cli.Fuse.DataPlane.{DataPlane}
use ti_cli.Fuse.Upload.{upload}

-- `MountCacheIdentity` of internal/fs/mount.go.
pub record Identity : Type 0 where
  pub profile : Text
  pub file_system_name : Text
  pub tenant_id : Text
  pub endpoint : Text
  pub remote_path : Text
  pub mount_path : Text
  pub api_key_fingerprint : Text

unfoldable pub same_identity : Identity → Identity → Bool
same_identity a b =
    eqb a.profile b.profile
    && eqb a.file_system_name b.file_system_name
    && eqb a.tenant_id b.tenant_id
    && eqb a.endpoint b.endpoint
    && eqb a.remote_path b.remote_path
    && eqb a.mount_path b.mount_path
    && eqb a.api_key_fingerprint b.api_key_fingerprint

pub record Meta : Type 0 where
  pub path : Text
  pub size : ℤ
  pub base_size : ℕ
  pub identity : Identity
  pub base : Version
  pub ranges : List DirtyRange

-- The metadata files stand in the order of their names; `none` is one that does not parse.
pub record Disk : Type 0 where
  pub bytes : ℕ → Option (List ℕ)
  pub metas : List (ℕ × Option Meta)
  pub fails : ℕ → Bool
  pub ops : ℕ

pub record Store : Type 0 where
  pub max_bytes : ℕ
  pub identity : Identity
  pub disk : Disk

abbrev pub Done : Type 0
Done = Result FsError (Unit {0})

-- An operation that changes nothing if it fails.
unfoldable pub attempt : (Disk → Disk) → Disk → Disk × Done
attempt change k =
    let next : Disk = record k { ops = k.ops + 1 } in
    if k.fails k.ops then (next, err other) else (change next, ok tt)

unfoldable pub set_meta : ℕ → Meta → List (ℕ × Option Meta) → List (ℕ × Option Meta)
set_meta n m [] = (n, some m) ∷ []
set_meta n m ((j, o) ∷ ms) =
    if n == j
    then (n, some m) ∷ ms
    else if ltb n j
    then (n, some m) ∷ (j, o) ∷ ms
    else (j, o) ∷ set_meta n m ms

unfoldable pub drop_meta : ℕ → List (ℕ × Option Meta) → List (ℕ × Option Meta)
drop_meta n [] = []
drop_meta n ((j, o) ∷ ms) = if n == j then ms else (j, o) ∷ drop_meta n ms

unfoldable pub with_data : ℕ → Option (List ℕ) → Disk → Disk
with_data n bytes k = record k { bytes = λ j. if n == j then bytes else k.bytes j }

unfoldable pub with_meta : ℕ → Meta → Disk → Disk
unfolding set_meta
with_meta n m k = record k { metas = set_meta n m k.metas }

unfoldable pub without_meta : ℕ → Disk → Disk
unfolding drop_meta
without_meta n k = record k { metas = drop_meta n k.metas }

abbrev pub then_do : Disk × Done → (Disk → Disk × Done) → Disk × Done
then_do (k, ok _) f = f k
then_do (k, err e) f = (k, err e)

module _ (key : Text → ℕ) where
  unfoldable pub new_meta : Identity → Text → List ℕ → Version → ℕ → List DirtyRange → Meta
  new_meta identity path bytes base base_size ranges = record {
    path = path;
    size = pos (length bytes);
    base_size = base_size;
    identity = identity;
    base = base;
    ranges = ranges;
  }

  -- The directory, the data, then the metadata.
  unfoldable pub put : Identity → Text → List ℕ → Version → ℕ → List DirtyRange → Disk → Disk × Done
  unfolding attempt with_data with_meta new_meta
  put identity path bytes base base_size ranges k = then_do (attempt (λ k. k) k) λ k.
      then_do (attempt (with_data (key path) (some bytes)) k)
        λ k. attempt (with_meta (key path) (new_meta identity path bytes base base_size ranges)) k

  -- A file that is not there is no error.
  unfoldable pub remove : Text → Disk → Disk × Done
  unfolding attempt with_data without_meta
  remove path k =
      then_do (attempt (with_data (key path) none) k) λ k. attempt (without_meta (key path)) k

  module _ (d : DataPlane) where
    open d use {State}

    unfoldable pub put_and_upload :
        Store
        → State
        → Text
        → List ℕ
        → Version
        → ℕ
        → List DirtyRange
        → (Store × State) × Result FsError Version
    unfolding put remove
    put_and_upload s remote path bytes base base_size ranges =
        let (remote', r) = upload d remote path bytes base base_size ranges in
        let (kept, stored) = put s.identity path bytes base base_size ranges s.disk in
        let (cleared, removed) = remove path kept in
        if ltb s.max_bytes (length bytes) then ((s, remote'), r) else elim stored [
          | err e ↦ ((record s { disk = kept }, remote), err e)
          | ok _ ↦ elim r [
            | err e ↦ ((record s { disk = kept }, remote'), err e)
            | ok v ↦ elim removed [
              | err e ↦ ((record s { disk = cleared }, remote'), err e)
              | ok _ ↦ ((record s { disk = cleared }, remote'), ok v)
            ]
          ]
        ]

    -- One round of the loop of `recover`.
    unfoldable pub recover_one : Store → State → Option Meta → (Store × State) × Done
    unfolding remove same_identity
    recover_one s remote none = ((s, remote), err other)
    recover_one s remote (some m) = elim (s.disk.bytes (key m.path)) [
      | none ↦ ((s, remote), err other)
      | some bytes ↦
          let (remote', r) = upload d remote m.path bytes m.base m.base_size m.ranges in
          let (cleared, removed) = remove m.path s.disk in
          if not (same_identity m.identity s.identity) || ltb_ℤ m.size (pos 0)
          then ((s, remote), err other)
          else if not (eqb_ℤ (pos (length bytes)) m.size)
          then ((s, remote), err other)
          else elim r [
            | err e ↦ ((s, remote'), err e)
            | ok _ ↦ ((record s { disk = cleared }, remote'), removed)
          ]
    ]

    unfoldable pub recover_all : Store → State → List (ℕ × Option Meta) → (Store × State) × Done
    unfolding recover_one
    recover_all s remote [] = ((s, remote), ok tt)
    recover_all s remote ((n, m) ∷ ms) =
        let ((s', remote'), done) = recover_one s remote m in
        elim done [ err e ↦ ((s', remote'), err e) | ok _ ↦ recover_all s' remote' ms ]

    -- Every metadata file is parsed, and names a path.
    unfoldable pub all_parse : List (ℕ × Option Meta) → Bool
    all_parse [] = true
    all_parse ((n, none) ∷ ms) = false
    all_parse ((n, some m) ∷ ms) = not (eqb m.path []) && all_parse ms

    unfoldable pub recover : Store → State → (Store × State) × Result FsError ℕ
    unfolding recover_all all_parse
    recover s remote =
        let ((s', remote'), done) = recover_all s remote s.disk.metas in
        if not (all_parse s.disk.metas) then ((s, remote), err other) else elim done [
          | err e ↦ ((s', remote'), err e)
          | ok _ ↦ ((s', remote'), ok (length s.disk.metas))
        ]
