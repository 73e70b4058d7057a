-- ===== src/Update/Install.antt =====
-- The replacement of a binary (internal/update/update.go). A predicate says which of the removals and
-- renames of the disk fail, by their number; `os.Stat` finds a file that is there.
pub mod Whole
use ti_cli.Common.{ℕ, ◌+◌, Bool, true, false, not, Option, none, some, List, ◌++◌, if◌then◌else◌}
use ti_cli.Common.Text.{Text, codes, eqb}

pub record Disk : Type 0 where
  pub files : Text → Option (List ℕ)
  -- The removals and renames so far.
  pub ops : ℕ
  pub fails : ℕ → Bool

-- The disk after the call, and whether it succeeded.
unfoldable pub remove_file : Disk → Text → Disk × Bool
remove_file d p =
    let d' = record d { ops = d.ops + 1 } in
    if d.fails d.ops then (d', false) else elim (d.files p) [
      | none ↦ (d', false)
      | some bytes ↦ (record d' { files = λ q. if eqb p q then none else d.files q }, true)
    ]

unfoldable pub rename_file : Disk → Text → Text → Disk × Bool
rename_file d source target =
    let d' = record d { ops = d.ops + 1 } in
    if d.fails d.ops then (d', false) else elim (d.files source) [
      | none ↦ (d', false)
      | some bytes ↦ (
        record d' {
          files =
              λ q. if eqb target q then some bytes else if eqb source q then none else d.files q;
        },
        true,
      )
    ]

unfoldable pub backup_of : Text → Text
backup_of target = target ++ codes ".ti-backup"

-- Where a replacement failed.
pub data ReplaceError : Type 0 where
  not_moved_aside not_installed not_validated : ReplaceError

-- The deferred call: the new file goes, and the old one comes back.
unfoldable pub put_back : Disk → Text → Disk
unfolding remove_file rename_file
put_back d target = (rename_file (remove_file d target).0 (backup_of target) target).0

-- The part of a replacement after the old file was moved aside.
unfoldable pub install : (Disk → Text → Bool) → Disk → Text → Text → Disk × Option ReplaceError
install valid d new target =
    let (d', placed) = rename_file d new target in
    if not placed
    then (put_back d' target, some not_installed)
    else if not (valid d' target)
    then (put_back d' target, some not_validated)
    else ((remove_file d' (backup_of target)).0, none)

-- The old file is moved aside first. `valid` is `validateInstalledBinary`, which runs the new binary.
unfoldable pub move_aside : (Disk → Text → Bool) → Disk → Text → Text → Disk × Option ReplaceError
move_aside valid d new target =
    let (d', moved) = rename_file d target (backup_of target) in
    if not moved then (d', some not_moved_aside) else install valid d' new target

unfoldable pub replace_binary :
    (Disk → Text → Bool) → Disk → Text → Text → Disk × Option ReplaceError
replace_binary valid d new target = move_aside valid (remove_file d (backup_of target)).0 new target

-- Where there was no file there is none to move aside or to put back.
unfoldable pub install_first : Disk → Text → Text → Disk × Option ReplaceError
install_first d source target =
    let (d', placed) = rename_file d source target in
    if not placed then (d', some not_installed) else (d', none)

unfoldable pub replace_old : Option (List ℕ) → Disk → Text → Text → Disk × Option ReplaceError
replace_old none d source target = install_first d source target
replace_old (some old) d source target = move_aside (λ _ _. true) d source target

unfoldable pub replace_file : Disk → Text → Text → Disk × Option ReplaceError
replace_file d source target =
    let d' = (remove_file d (backup_of target)).0 in replace_old (d'.files target) d' source target
