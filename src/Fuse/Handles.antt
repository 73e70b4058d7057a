-- ===== src/Fuse/Handles.antt =====
-- The open handles of a mount (internal/fs/fuse_mount.go: `openHandles` of the runtime). A number
-- stands for the address of a handle; the source ranges over them in no order, the list has the
-- newest in front. A walk over all handles is one step.
pub mod Newest
use ti_cli.Common.{
  ℕ, suc, ◌+◌, ◌%◌, ◌^◌, Bool, true, false, not, ◌&&◌, ◌||◌, Option, none, some, List, [], ◌∷◌,
  if◌then◌else◌, ltb, ◌==◌,
}
use ti_cli.Common.Text.{Text, eqb}
use ti_cli.Common.Result.{Result, ok, err}
use ti_cli.Fuse.Version.{Version, unknown}
use ti_cli.Fuse.Errors.{Errno}
use ti_cli.Fuse.File.{File, setattr, retarget, mark_deleted, refresh_after_path_truncate}

-- What is read of a `fuseGitEntry`.
pub record GitEntry : Type 0 where
  pub kind : Text
  pub mode : Text
  pub workspace : Text

-- A handle with a `hook` is of a git workspace, and commits in place of an upload.
pub record Handle : Type 0 where
  pub id : ℕ
  pub seq : ℕ
  pub pid : ℕ
  pub hook : Option GitEntry
  pub file : File

pub record Registry : Type 0 where
  -- How many handles were registered; `openSeq` has 64 bits of it.
  pub made : ℕ
  pub handles : List Handle

abbrev pub next_id : Registry → ℕ
next_id r = r.made + 1

unfoldable pub register_open_handle : Registry → File → ℕ → Option GitEntry → Registry
register_open_handle r file pid hook = record {
  made = r.made + 1;
  handles =
      record { id = next_id r; seq = (r.made + 1) % 2 ^ 64; pid = pid; hook = hook; file = file }
      ∷ r.handles;
}

unfoldable pub without : ℕ → List Handle → List Handle
without i [] = []
without i (h ∷ hs) = if h.id == i then without i hs else h ∷ without i hs

unfoldable pub unregister_open_handle : Registry → ℕ → Registry
unfolding without
unregister_open_handle r i = record r { handles = without i r.handles }

unfoldable pub each_file : (File → File) → List Handle → List Handle
each_file f [] = []
each_file f (h ∷ hs) = record h { file = f h.file } ∷ each_file f hs

unfoldable pub retarget_open_handles : Registry → Text → Text → Version → Registry
unfolding each_file
retarget_open_handles r source target version = record r {
  handles = each_file (λ f. retarget f source target version) r.handles;
}

unfoldable pub mark_deleted_open_handles : Registry → Text → Registry
unfolding each_file
mark_deleted_open_handles r path = record r {
  handles = each_file (λ f. mark_deleted f path) r.handles;
}

unfoldable pub is_writable_for : Text → File → Bool
is_writable_for path f = not f.closed && not f.deleted && f.writable && eqb f.path path

unfoldable pub writable_open_handles_for_path : Text → List Handle → List Handle
unfolding is_writable_for
writable_open_handles_for_path path [] = []
writable_open_handles_for_path path (h ∷ hs) =
    if is_writable_for path h.file
    then h ∷ writable_open_handles_for_path path hs
    else writable_open_handles_for_path path hs

unfoldable pub set_file : ℕ → File → List Handle → List Handle
set_file i f [] = []
set_file i f (h ∷ hs) = (if h.id == i then record h { file = f } else h) ∷ set_file i f hs

-- The handle that adopts the call, with its result; `none` leaves the call to the path.
unfoldable pub adopt_single_caller_path_setattr :
    Registry → ℕ → Text → Option ℕ → Option ℕ → Registry × Option (Result Errno (Unit {0}))
unfolding writable_open_handles_for_path set_file
adopt_single_caller_path_setattr r pid path size mode =
    if pid == 0 then (r, none) else elim (writable_open_handles_for_path path r.handles) [
      | [] ↦ (r, none)
      | h ∷ others ↦ elim others [
        | g ∷ more ↦ (r, none)
        | [] ↦
            let (f, done) = setattr h.file size mode in
            if not (h.pid == pid)
            then (r, none)
            else (record r { handles = set_file h.id f r.handles }, some done)
      ]
    ]

unfoldable pub refresh_open_handles_after_path_truncate : Registry → Text → Version → Registry
unfolding each_file is_writable_for
refresh_open_handles_after_path_truncate r path version = record r {
  handles =
      each_file
        (λ f. if is_writable_for path f then refresh_after_path_truncate f path version else f)
        r.handles;
}

unfoldable pub is_dirty_for : Text → File → Bool
is_dirty_for path f = not f.closed && not f.deleted && eqb f.path path && f.dirty

unfoldable pub is_newer : Option Handle → Handle → Bool
is_newer none h = true
is_newer (some best) h = ltb best.seq h.seq

unfoldable pub newest_dirty : Text → Option Handle → List Handle → Option Handle
unfolding is_dirty_for is_newer
newest_dirty path best [] = best
newest_dirty path best (h ∷ hs) =
    newest_dirty path (if is_dirty_for path h.file && is_newer best h then some h else best) hs

unfoldable pub dirty_open_handle_data : Registry → Text → Option (List ℕ × Version)
unfolding newest_dirty
dirty_open_handle_data r path = elim (newest_dirty path none r.handles) [
  | none ↦ none
  | some h ↦ some (h.file.bytes, h.file.version)
]
