-- ===== src/Fuse/Metadata.antt =====
-- The local record of modes and symbolic links (internal/fs/metastore.go). The document is the list
-- of the map's entries in the order in which a range over the map meets them, which Go leaves open;
-- the file has no document, one that cannot be read, or one that can.
pub mod Trees
pub mod Moves
pub mod Edits
use ti_cli.Common.{
  ℕ, ◌%◌, Bool, true, false, not, ◌&&◌, ◌||◌, Option, none, some, List, [], ◌∷◌, ◌++◌, drop, length,
  if◌then◌else◌, ◌≡◌, refl,
}
use ti_cli.Common.Text.{Text, eqb, has_prefix}
use ti_cli.Common.Result.{Result, ok, err}
use ti_cli.Paths.Archive.{PathError}
use ti_cli.Paths.Remote.{normalize_remote_path}
use ti_cli.Fuse.Cache.{tree_prefix, under}

pub record MetaEntry : Type 0 where
  pub mode : ℕ
  pub has_mode : Bool
  pub symlink_target : Text
  pub has_symlink_target : Bool

abbrev pub blank_entry : MetaEntry
blank_entry = record { mode = 0; has_mode = false; symlink_target = []; has_symlink_target = false }

abbrev pub Entries : Type 0
Entries = List (Text × MetaEntry)

pub data MetaFile : Type 0 where
  absent unreadable : MetaFile
  holds : Entries → MetaFile

-- Whether the next write of the file fails.
pub record MetaStore : Type 0 where
  pub file : MetaFile
  pub stuck : Bool

pub data MetaError : Type 0 where
  bad_path : PathError → MetaError
  read_failed write_failed : MetaError

unfoldable pub find_entry : Text → Entries → Option MetaEntry
find_entry p [] = none
find_entry p ((q, e) ∷ d) = if eqb q p then some e else find_entry p d

unfoldable pub put_entry : Text → MetaEntry → Entries → Entries
put_entry p e [] = (p, e) ∷ []
put_entry p e ((q, f) ∷ d) = if eqb q p then (q, e) ∷ d else (q, f) ∷ put_entry p e d

unfoldable pub drop_entry : Text → Entries → Entries
drop_entry p [] = []
drop_entry p ((q, f) ∷ d) = if eqb q p then drop_entry p d else (q, f) ∷ drop_entry p d

unfoldable pub drop_under : Text → Entries → Entries
drop_under p [] = []
drop_under p ((q, f) ∷ d) = if under p q then drop_under p d else (q, f) ∷ drop_under p d

unfoldable pub read_locked : MetaStore → Result MetaError Entries
read_locked s = elim s.file [ absent ↦ ok [] | unreadable ↦ err read_failed | holds d ↦ ok d ]

unfoldable pub write_locked : MetaStore → Entries → MetaStore × Option MetaError
write_locked s d = if s.stuck then (s, some write_failed) else (record s { file = holds d }, none)

abbrev or_blank : Option MetaEntry → MetaEntry
or_blank none = blank_entry
or_blank (some e) = e

-- The new entry, or none to remove it.
abbrev pub Change : Type 0
Change = MetaEntry → Option MetaEntry

unfoldable pub changed_entries : Entries → Text → Change → Bool → Entries
unfolding find_entry put_entry drop_entry drop_under
changed_entries d p change recursive =
    if recursive then drop_under p d else elim (change (or_blank (find_entry p d))) [
      | none ↦ drop_entry p d
      | some e ↦ put_entry p e d
    ]

unfoldable pub update_entry : MetaStore → Text → Change → Bool → MetaStore × Option MetaError
unfolding read_locked write_locked changed_entries
update_entry s path change recursive = elim (normalize_remote_path path) [
  | err e ↦ (s, some (bad_path e))
  | ok p ↦ elim (read_locked s) [
    | err e ↦ (s, some e)
    | ok d ↦ write_locked s (changed_entries d p change recursive)
  ]
]

-- `mode & 0o777`.
unfoldable pub set_entry_mode : MetaStore → Text → ℕ → MetaStore × Option MetaError
unfolding update_entry
set_entry_mode s path mode =
    update_entry s path (λ e. some (record e { mode = mode % 512; has_mode = true })) false

unfoldable pub set_symlink : MetaStore → Text → Text → MetaStore × Option MetaError
unfolding update_entry
set_symlink s path target =
    update_entry s path
      (λ e. some (record {
        mode = 0x1FF;
        has_mode = true;
        symlink_target = target;
        has_symlink_target = true;
      }))
      false

unfoldable pub remove_entry : MetaStore → Text → Bool → MetaStore × Option MetaError
unfolding update_entry
remove_entry s path recursive = update_entry s path (λ e. none) recursive

unfoldable pub lookup_entry : MetaStore → Text → Option MetaEntry
unfolding read_locked find_entry
lookup_entry s path = elim (normalize_remote_path path) [
  | err e ↦ none
  | ok p ↦ elim (read_locked s) [ err e ↦ none | ok d ↦ find_entry p d ]
]

-- The path of an entry after a move.
unfoldable pub moved_path : Text → Text → Text → Text
moved_path source target p =
    if eqb p source
    then target
    else if has_prefix (tree_prefix source) p
    then target ++ drop (length source) p
    else p

-- The loop of `move` over the entries, into the new map.
unfoldable pub move_onto : Text → Text → Entries → Entries → Entries
unfolding moved_path put_entry
move_onto source target next [] = next
move_onto source target next ((p, e) ∷ d) =
    move_onto source target (put_entry (moved_path source target p) e next) d

unfoldable pub move_entries : MetaStore → Text → Text → MetaStore × Option MetaError
unfolding read_locked write_locked move_onto
move_entries s source target = elim (normalize_remote_path source) [
  | err e ↦ (s, some (bad_path e))
  | ok from ↦ elim (normalize_remote_path target) [
    | err e ↦ (s, some (bad_path e))
    | ok to ↦ elim (read_locked s) [
      | err e ↦ (s, some e)
      | ok d ↦ write_locked s (move_onto from to [] d)
    ]
  ]
]

unfoldable pub copy_entry : MetaStore → Text → Text → MetaStore × Option MetaError
unfolding lookup_entry update_entry
copy_entry s source target = elim (lookup_entry s source) [
  | none ↦ (s, none)
  | some e ↦ update_entry s target (λ current. some e) false
]

unfoldable pub symlink_target_of : MetaStore → Text → Option Text
unfolding lookup_entry
symlink_target_of s path = elim (lookup_entry s path) [
  | none ↦ none
  | some e ↦ if e.has_symlink_target then some e.symlink_target else none
]

-- A mount may have no store.
abbrev pub recorded_target : Option MetaStore → Text → Option Text
recorded_target none p = none
recorded_target (some s) p = symlink_target_of s p
