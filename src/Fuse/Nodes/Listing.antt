-- ===== src/Fuse/Nodes/Listing.antt =====
-- `Lookup`, `Readdir` and `Readlink` (internal/fs/fuse_mount.go). A map of entries by name is a list
-- without two entries of a name; a range over it comes before a sort, so its order is none.
pub mod Layers
pub mod Links
use ti_cli.Common.{
  ℕ, Bool, true, false, not, ◌&&◌, ◌||◌, Option, none, some, List, [], ◌∷◌, if◌then◌else◌, ltb,
  ◌==◌,
}
use ti_cli.Common.Text.{Text, codes, eqb, contains, utf8}
use ti_cli.Common.Result.{Result, ok, err}
use ti_cli.Paths.Clean.{is_dot_dot}
use ti_cli.Paths.Remote.{is_local_only, child_path}
use ti_cli.Fuse.Errors.{Errno, FsError, einval, enoent, enotsup, fuse_errno}
use ti_cli.Fuse.Metadata.{recorded_target}
use ti_cli.Fuse.DataPlane.{DataPlane}
use ti_cli.Fuse.Upload.{stat_version}
use ti_cli.Fuse.Handles.{GitEntry}
use ti_cli.Fuse.Nodes.{
  Surroundings, Mount, DirEntry, Kind, regular, directory, symbolic, local_info,
}

-- The order of Go's strings, which is that of their code points.
unfoldable pub ltb_text : Text → Text → Bool
ltb_text s [] = false
ltb_text [] (d ∷ t) = true
ltb_text (c ∷ s) (d ∷ t) = ltb c d || (c == d && ltb_text s t)

-- Names that a listing may have and a directory has no entry of.
unfoldable pub is_skipped : Text → Bool
is_skipped name = eqb name [] || eqb name (codes ".") || is_dot_dot name || contains b'/' name

unfoldable pub named : Text → List DirEntry → Option DirEntry
named x [] = none
named x (e ∷ es) = if eqb e.name x then some e else named x es

unfoldable pub put_named : DirEntry → List DirEntry → List DirEntry
put_named e [] = e ∷ []
put_named e (f ∷ fs) = if eqb f.name e.name then e ∷ fs else f ∷ put_named e fs

unfoldable pub put_all : List DirEntry → List DirEntry → List DirEntry
unfolding put_named
put_all [] by_name = by_name
put_all (e ∷ es) by_name = put_all es (put_named e by_name)

unfoldable pub insert_named : DirEntry → List DirEntry → List DirEntry
unfolding ltb_text
insert_named e [] = e ∷ []
insert_named e (f ∷ fs) = if ltb_text e.name f.name then e ∷ f ∷ fs else f ∷ insert_named e fs

-- `sort.Slice` by name.
unfoldable pub sort_named : List DirEntry → List DirEntry
unfolding insert_named
sort_named [] = []
sort_named (e ∷ es) = insert_named e (sort_named es)

-- The entries of the workspace over the remote ones, and those of the local disk over both; a
-- workspace that cannot be listed counts only where there is no remote entry.
unfoldable pub merge_listings :
    List DirEntry → Result FsError (List DirEntry) → List DirEntry → Result Errno (List DirEntry)
unfolding put_all sort_named
merge_listings [] (err e) on_disk = err (fuse_errno e)
merge_listings (f ∷ fs) (err e) on_disk = ok (sort_named (put_all on_disk (f ∷ fs)))
merge_listings far (ok near) on_disk = ok (sort_named (put_all on_disk (put_all near far)))

unfoldable pub has_child : Text → Text → Bool
unfolding is_skipped
has_child parent name =
    not (is_skipped name) && elim (child_path parent name) [ none ↦ false | some p ↦ true ]

unfoldable pub remote_entries : Text → List (Text × Bool) → List DirEntry
unfolding has_child
remote_entries parent [] = []
remote_entries parent ((name, dir) ∷ names) =
    if has_child parent name
    then record { name = name; kind = if dir then directory else regular }
      ∷ remote_entries parent names
    else remote_entries parent names

unfoldable pub local_entries : Text → List (Text × Option Kind) → List DirEntry
unfolding has_child
local_entries parent [] = []
local_entries parent ((name, none) ∷ names) = local_entries parent names
local_entries parent ((name, some kind) ∷ names) =
    if has_child parent name
    then record { name = name; kind = kind } ∷ local_entries parent names
    else local_entries parent names

-- The layer that an entry was found in.
pub data Layer : Type 0 where
  on_disk in_workspace on_service : Layer

module _ (d : DataPlane) (env : Surroundings d) where
  unfoldable pub lookup_layered : Mount d env → Text → Mount d env × Result Errno Layer
  lookup_layered m p =
      let (g, found) = env.git_entry m.git p in
      let m' = record m { git = g } in
      elim found [
        | err e ↦ (m', err (fuse_errno e))
        | ok entry ↦ elim entry [
          | some it ↦ (m', ok in_workspace)
          | none ↦ elim (stat_version d m.runtime.remote p) [
            | err e ↦ (m', err (fuse_errno e))
            | ok v ↦ (m', ok on_service)
          ]
        ]
      ]

  unfoldable pub lookup : Mount d env → Text → Text → Mount d env × Result Errno Layer
  unfolding lookup_layered
  lookup m parent name = elim (child_path parent name) [
    | none ↦ (m, err einval)
    | some p ↦ elim (local_info d env m p) [
      | some (abs, dir) ↦ (m, ok on_disk)
      | none ↦ if is_local_only m.layers p then (m, err enoent) else lookup_layered m p
    ]
  ]

  abbrev pub is_on_disk : Mount d env → Text → Bool
  is_on_disk m p = elim (local_info d env m p) [ none ↦ false | some i ↦ true ]

  -- The first phase; a directory that is only on the disk may have no remote listing.
  unfoldable pub list_remote : Mount d env → Text → Result Errno (List DirEntry)
  list_remote m p =
      if is_local_only m.layers p then ok [] else elim (env.list_dir m.runtime.remote p) [
        | err e ↦ if is_on_disk m p then ok [] else err (fuse_errno e)
        | ok names ↦ ok (put_all (remote_entries p names) [])
      ]

  unfoldable pub list_local : Mount d env → Text → List DirEntry
  list_local m p = elim (local_info d env m p) [
    | none ↦ []
    | some (abs, dir) ↦ elim (env.local_read_dir m.disk abs) [
      | err e ↦ []
      | ok names ↦ local_entries p names
    ]
  ]

  unfoldable pub readdir : Mount d env → Text → Mount d env × Result Errno (List DirEntry)
  readdir m p = elim (list_remote m p) [
    | err e ↦ (m, err e)
    | ok far ↦
        let (g, found) = env.git_readdir m.git p in
        (record m { git = g }, merge_listings far found (list_local m p))
  ]

  unfoldable pub readlink_recorded : Mount d env → Text → Result Errno (List ℕ)
  readlink_recorded m p = elim (recorded_target m.metadata p) [
    | none ↦ err enotsup
    | some target ↦ ok (utf8 target)
  ]

  unfoldable pub readlink_git : Mount d env → GitEntry → Mount d env × Result Errno (List ℕ)
  readlink_git m it =
      let (g, got) = env.git_read_file m.git it in
      elim got [
        | err e ↦ (record m { git = g }, err (fuse_errno e))
        | ok bytes ↦ (record m { git = g }, ok bytes)
      ]

  unfoldable pub readlink_layered : Mount d env → Text → Mount d env × Result Errno (List ℕ)
  unfolding readlink_git readlink_recorded
  readlink_layered m p =
      let (g, found) = env.git_entry m.git p in
      let m' = record m { git = g } in
      elim found [
        | err e ↦ (m', err (fuse_errno e))
        | ok entry ↦ elim entry [
          | none ↦ (m', readlink_recorded m' p)
          | some it ↦
              if eqb it.kind (codes "symlink")
              then readlink_git m' it
              else (m', readlink_recorded m' p)
        ]
      ]

  unfoldable pub readlink : Mount d env → Text → Mount d env × Result Errno (List ℕ)
  unfolding readlink_layered
  readlink m p = elim (local_info d env m p) [
    | none ↦ readlink_layered m p
    | some (abs, dir) ↦ elim (env.local_read_link m.disk abs) [
      | err e ↦ (m, err (fuse_errno e))
      | ok target ↦ (m, ok (utf8 target))
    ]
  ]
