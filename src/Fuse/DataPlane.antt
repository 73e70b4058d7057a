-- ===== src/Fuse/DataPlane.antt =====
-- The data plane that the mount talks to through internal/api/fs: the requests that the mount
-- makes, with what it relies on of a write and of a patch that succeed.
use ti_cli.Common.{
  ℕ, ◌+◌, ◌-◌, ◌*◌, ◌/◌, ◌%◌, ◌<◌, ◌≡◌, Option, none, some, List, if◌then◌else◌, length, get_elem?,
  min,
}
use ti_cli.Common.Int.{ℤ}
use ti_cli.Common.Text.{Text}
use ti_cli.Common.Result.{Result, ok}
use ti_cli.Fuse.Version.{Version}
use ti_cli.Fuse.Errors.{FsError}
use ti_cli.Fuse.Ranges.Parts.{member}

-- The reader of parts that `PatchFile` takes: number and size to bytes.
abbrev pub PartReader : Type 0
PartReader = ℕ → ℕ → List ℕ

-- The size of part `p` of a file of `n` bytes.
abbrev pub part_len : ℕ → ℕ → ℕ → ℕ
part_len n part_size p = min part_size (n - (p - 1) * part_size)

pub record DataPlane : Type 1 where
  pub State : Type 0
  pub stat_metadata : State → Text → Result FsError Version
  pub stat : State → Text → Result FsError Version
  pub read_file : State → Text → Result FsError (List ℕ)
  pub write_file : State → Text → List ℕ → State × Result FsError ℤ
  pub patch_file : State → Text → ℕ → List ℕ → PartReader → ℕ → ℤ → State × Option FsError
  -- What the service stores under a path.
  pub content : State → Text → Option (List ℕ)

-- Of a patch: byte `i` of the new file comes from the reader if its part is named, and else from
-- the old file.
abbrev pub Patched : List ℕ → List ℕ → ℕ → List ℕ → PartReader → ℕ → Type 0
Patched old new n parts read part_size =
    (length new ≡ n)
    × ((i : ℕ)
        → i < n
        → get_elem? new i ≡ (
            if member (i / part_size + 1) parts
            then get_elem? (read (i / part_size + 1) (part_len n part_size (i / part_size + 1)))
                (i % part_size)
            else get_elem? old i))

-- The documented behaviour of the service.
pub record IsStore (d : DataPlane) : Type 0 where
  pub write_stores :
      (s : d.State) (p : Text) (bytes : List ℕ) (s' : d.State) (revision : ℤ)
      → d.write_file s p bytes ≡ (s', ok revision)
      → d.content s' p ≡ some bytes
  pub patch_stores :
      (s : d.State) (p : Text) (n : ℕ) (parts : List ℕ) (read : PartReader) (part_size : ℕ)
      (revision : ℤ) (s' : d.State) (old : List ℕ)
      → d.patch_file s p n parts read part_size revision ≡ (s', none)
      → d.content s p ≡ some old
      → length old ≡ n
      → 0 < part_size
      → (new : List ℕ) × (d.content s' p ≡ some new) × Patched old new n parts read part_size
  pub patch_fails :
      (s : d.State) (p : Text) (n : ℕ) (parts : List ℕ) (read : PartReader) (part_size : ℕ)
      (revision : ℤ) (s' : d.State) (e : FsError)
      → d.patch_file s p n parts read part_size revision ≡ (s', some e)
      → d.content s' p ≡ d.content s p
