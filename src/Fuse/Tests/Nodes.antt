-- ===== src/Fuse/Tests/Nodes.antt =====
-- Calls on paths of a small mount, and on the files that are open in it.
use ti_cli.Common.{Bool, true, false, none, some, List, [], ◌∷◌, ◌≡◌, refl, inl, arith}
use ti_cli.Common.Int.{pos}
use ti_cli.Common.Text.{codes, eqb, has_prefix}
use ti_cli.Common.Result.{Result, ok}
use ti_cli.Fuse.Version.{known, conflicts_with}
use ti_cli.Fuse.Errors.{Errno}
use ti_cli.Fuse.Cache.{get, under, tree_prefix, put, store, shrink, update, remove}
use ti_cli.Fuse.Cache.Invariant.{new_cache-Inv}
use ti_cli.Fuse.Runtime.{Runtime, write_with_dirty}
use ti_cli.Fuse.File.{
  File, new_file, flush, retarget, flush_write, wrap, fit, splice, mark_dirty_range, write,
  mark_deleted,
}
use ti_cli.Fuse.File.Marks.{new_file-Tracks}
use ti_cli.Fuse.File.Track.{apply_all-Tracks, apply_all, apply}
use ti_cli.Fuse.Handles.{
  Handle, mark_deleted_open_handles, each_file, dirty_open_handle_data, newest_dirty, is_dirty_for,
  is_newer, register_open_handle,
}
use ti_cli.Fuse.Handles.Newest.{Among}
use ti_cli.Fuse.Nodes.{is_dir_info, Mount, Answer, remove_remote}
use ti_cli.Fuse.Nodes.Renaming.{rename_remote}
use ti_cli.Fuse.Nodes.Opening.{Opened, open_remote, opened}
use ti_cli.Fuse.Nodes.Calls.{KernelCall, unlinks, opens, writes_to, flushes, run_calls}
use ti_cli.Fuse.Nodes.Follows.{removed_stays_gone, rename_follows, version_at}
use ti_cli.Fuse.Nodes.ReadOnly.{read_only_frozen}
use ti_cli.Fuse.Nodes.ReadOnly.Frozen.{ReadOnly}
use ti_cli.Fuse.Nodes.Sees.{Adds, open_sees_newest, IsEdited, NoneNewer}
use ti_cli.Fuse.Ranges.{
  merge_dirty_ranges, join_all, join, sort, insert, before, clean, clean_range, total_dirty,
  dirty_parts, collect_parts, range_parts, add_parts, add_part,
}
use ti_cli.Fuse.Ranges.Parts.{member}
use ti_cli.Fuse.Upload.{
  check_write_base, should_patch, adaptive_part_size, patch_upload, read_part, upload, stat_version,
}
use ti_cli.Fuse.WriteBack.{put_and_upload}
use ti_cli.Fuse.Tests.Service.{memory, memory-IsStore, find, stored, collect, patched, patched_byte}
use ti_cli.Fuse.Tests.Around.{around, around-MovesFiles, rename_in, moved, delete_in}
use ti_cli.Fuse.Tests.Handles.{path, old, seventh, mounted, one_file, edits, edited, fresh}

abbrev handle : File → Handle
handle f = record { id = 1; seq = 1; pid = 42; hook = none; file = f }

abbrev with_handles : Bool → List Handle → Mount memory around
with_handles read_only hs = record {
  runtime = mounted;
  read_only = read_only;
  layers = record { remote_root = codes "/"; local_root = []; profile = [] };
  metadata = none;
  registry = record { made = 1; handles = hs };
  disk = tt;
  git = tt;
}

abbrev pub editing : Mount memory around
editing = with_handles false (handle edited ∷ [])

abbrev renamed_to : Answer memory around
renamed_to = rename_remote memory around editing path (codes "/b")

abbrev followed : File
followed =
    retarget edited path (codes "/b")
      (version_at memory around renamed_to.0.runtime.remote (codes "/b"))

abbrev sent : (Runtime memory × File) × Result Errno (Unit {0})
sent = flush memory renamed_to.0.runtime 5 followed none

renamed_run : renamed_to ≡ (renamed_to.0, none)
unfolding rename_remote rename_in eqb
renamed_run = refl

sent_run : sent ≡ ((sent.0.0, sent.0.1), ok tt)
unfolding rename_remote rename_in moved stat_version find eqb retarget has_prefix tree_prefix
    apply_all apply write new_file wrap fit splice mark_dirty_range known flush flush_write
    write_with_dirty put_and_upload upload check_write_base conflicts_with should_patch
    merge_dirty_ranges join_all join sort insert before clean clean_range total_dirty put store
    shrink update remove adaptive_part_size patch_upload dirty_parts collect_parts range_parts
    add_parts add_part patched patched_byte collect member stored read_part
sent_run = refl

edited-path : edited.path ≡ path
unfolding apply_all apply write new_file wrap
edited-path = refl

rename_follows_example :
    Among (record (handle edited) { file = followed }) renamed_to.0.registry.handles
    × (followed.path ≡ codes "/b")
    × (sent.0.0.remote.files (codes "/b") ≡ some edited.bytes)
unfolding apply_all apply write new_file wrap eqb
rename_follows_example =
    rename_follows memory around memory-IsStore around-MovesFiles editing renamed_to.0 sent.0.0 path
      (codes "/b") (handle edited) sent.0.1 old 5 renamed_run (inl refl) edited-path
      (apply_all-Tracks old fresh edits ((omega arith, omega arith), tt)
        (new_file-Tracks path old true seventh))
      refl refl refl sent_run

abbrev removed : Answer memory around
removed = remove_remote memory around editing path false

abbrev ghost : Handle
ghost = handle (mark_deleted edited path)

removed_run : removed ≡ (removed.0, none)
unfolding remove_remote delete_in eqb
removed_run = refl

ghost-Among : Among ghost removed.0.registry.handles
unfolding remove_remote delete_in eqb mark_deleted_open_handles each_file
ghost-Among = inl refl

ghost-path : under path ghost.file.path ≡ true
unfolding mark_deleted under eqb apply_all apply write new_file wrap
ghost-path = refl

removed_stays_gone_example :
    ((flush memory mounted 6 ghost.file none).0.0 ≡ mounted)
    × ((get removed.0.runtime.cache 6 path seventh).1 ≡ none)
unfolding under eqb
removed_stays_gone_example =
    removed_stays_gone memory around editing removed.0 path false ghost mounted 6 none path seventh
      removed_run ghost-Among ghost-path (new_cache-Inv (pos 0) (pos 0) (pos 0)) refl

abbrev reopened : Opened memory around
reopened = open_remote memory around editing 5 43 path false false

reopened_run : reopened ≡ (reopened.0, ok (some 2))
unfolding open_remote stat_version find eqb dirty_open_handle_data newest_dirty is_dirty_for
    is_newer apply_all apply write new_file wrap fit splice mark_dirty_range opened
    register_open_handle is_dir_info
reopened_run = refl

edited-IsEdited : IsEdited path edited
unfolding apply_all apply write new_file wrap
edited-IsEdited = (refl, refl, refl, refl)

open_sees_newest_example :
    (b : Handle) × Among b editing.registry.handles
    × IsEdited path b.file
    × NoneNewer path b.seq editing.registry.handles
    × Adds memory around editing reopened.0 path b.file.bytes b.file.version
open_sees_newest_example =
    open_sees_newest memory around editing reopened.0 5 43 2 path false false (handle edited)
      reopened_run refl (inl refl) edited-IsEdited

abbrev reading : Mount memory around
reading = with_handles true (handle (new_file path old false false seventh) ∷ [])

abbrev attempts : List KernelCall
attempts =
    unlinks (codes "/") (codes "a")
    ∷ opens 5 42 path true true
    ∷ writes_to 1 (9 ∷ []) (pos 0)
    ∷ flushes 1 6
    ∷ []

read_only_frozen_example :
    ((run_calls memory around reading attempts).runtime.remote ≡ one_file)
    × ReadOnly (run_calls memory around reading attempts).registry.handles
unfolding new_file
read_only_frozen_example = read_only_frozen memory around reading attempts refl (refl, tt)
