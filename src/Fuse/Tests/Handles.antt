-- ===== src/Fuse/Tests/Handles.antt =====
-- Edits and flushes of one small file.
use ti_cli.Common.{
  ℕ, zero, suc, true, false, none, some, List, [], ◌∷◌, ◌≡◌, ◌⊎◌, refl, arith, length,
  if◌then◌else◌,
}
use ti_cli.Common.Int.{pos}
use ti_cli.Common.Text.{Text, codes, eqb}
use ti_cli.Common.Result.{Result, ok}
use ti_cli.Fuse.Version.{Version, known, conflicts_with}
use ti_cli.Fuse.Errors.{Errno, FsError}
use ti_cli.Fuse.Ranges.{
  merge_dirty_ranges, join_all, join, sort, insert, before, clean, clean_range, total_dirty,
  dirty_parts, collect_parts, range_parts, add_parts, add_part, DirtyRange,
}
use ti_cli.Fuse.Upload.{
  check_write_base, should_patch, adaptive_part_size, patch_upload, read_part, upload, stat_version,
}
use ti_cli.Fuse.Upload.Stores.{upload_stores}
use ti_cli.Fuse.Upload.Guard.{SameObject, upload_guarded}
use ti_cli.Fuse.Upload.Patch.{Agrees}
use ti_cli.Fuse.Cache.{put, store, shrink, update, remove, new_cache}
use ti_cli.Fuse.Cache.Invariant.{new_cache-Inv}
use ti_cli.Fuse.Runtime.{Runtime, read_through, write_with_dirty, read_through-write}
use ti_cli.Fuse.File.{
  flush_write, wrap, fit, splice, mark_dirty_range, File, read, write, new_file, flush,
}
use ti_cli.Fuse.File.Edits.{read-write}
use ti_cli.Fuse.File.Marks.{covered-merge_raw, Tracks, new_file-Tracks}
use ti_cli.Fuse.File.Track.{apply, Call, writes, apply_all, apply_all-Tracks}
use ti_cli.Fuse.File.Flush.{session_stores}
use ti_cli.Fuse.Tests.Service.{
  patched, patched_byte, collect, Memory, memory, memory-IsStore, find, stored,
}
use ti_cli.Fuse.Ranges.Parts.{member}
use ti_cli.Fuse.Ranges.Cover.{covered}
use ti_cli.Fuse.WriteBack.{Identity, Disk, Store, put_and_upload}

abbrev pub path : Text
path = codes "/a"

abbrev pub old : List ℕ
old = 1 ∷ 2 ∷ 3 ∷ 4 ∷ []

abbrev pub seventh : Version
seventh = record { revision = pos 7; resource_id = [] }

abbrev pub one_file : Memory
one_file = record { files = λ q. if eqb q path then some old else none; revision = 7 }

abbrev pub nobody : Identity
nobody = record {
  profile = [];
  file_system_name = [];
  tenant_id = [];
  endpoint = [];
  remote_path = [];
  mount_path = [];
  api_key_fingerprint = [];
}

-- Nothing is pending, and nothing fails.
abbrev pub good_disk : Disk
good_disk = record { bytes = λ _. none; metas = []; fails = λ _. false; ops = 0 }

abbrev pub a_store : Store
a_store = record { max_bytes = 100; identity = nobody; disk = good_disk }

abbrev pub mounted : Runtime memory
mounted = record {
  remote = one_file;
  cache = new_cache (pos 0) (pos 0) (pos 0);
  key = length;
  write_back = some a_store;
}

abbrev pub fresh : File
fresh = new_file path old true false seventh

abbrev pub edits : List Call
edits = writes (9 ∷ 8 ∷ []) (pos 1) ∷ []

abbrev pub edited : File
edited = apply_all fresh edits

abbrev flushed : (Runtime memory × File) × Result Errno (Unit {0})
flushed = flush memory mounted 5 edited none

flush_run : flush memory mounted 5 edited none ≡ ((flushed.0.0, flushed.0.1), ok tt)
unfolding flush flush_write apply_all apply eqb write new_file wrap fit splice mark_dirty_range
    write_with_dirty put_and_upload upload check_write_base known stat_version find conflicts_with
    should_patch merge_dirty_ranges join_all join sort insert before clean clean_range total_dirty
    put store shrink update remove adaptive_part_size patch_upload dirty_parts collect_parts
    range_parts add_parts add_part patched patched_byte collect member stored read_part
flush_run = refl

pub old_there : one_file.files edited.path ≡ some old
unfolding apply_all apply write eqb new_file wrap
old_there = refl

session_stores_example : flushed.0.0.remote.files edited.path ≡ some edited.bytes
unfolding apply_all apply write new_file wrap
session_stores_example =
    session_stores memory memory-IsStore mounted flushed.0.0 5 path old seventh edits edited
      flushed.0.1 ((omega arith, omega arith), tt) refl old_there refl refl flush_run

apply_all-Tracks_example : Tracks old edited
apply_all-Tracks_example =
    apply_all-Tracks old fresh edits ((omega arith, omega arith), tt)
      (new_file-Tracks path old true seventh)

read-write_example : read (write fresh (9 ∷ 8 ∷ []) (pos 3)).0 2 (pos 3) ≡ ok (9 ∷ 8 ∷ [])
unfolding new_file
read-write_example = read-write fresh (9 ∷ 8 ∷ []) 3 refl (omega arith)

abbrev pub middle : List DirtyRange
middle = record { start = 1; end = 3 } ∷ []

abbrev pub changed : List ℕ
changed = 1 ∷ 9 ∷ 8 ∷ 4 ∷ []

abbrev pub uploaded : Memory × Result FsError Version
uploaded = upload memory one_file path changed seventh 4 middle

pub upload_run : uploaded ≡ (uploaded.0, ok (record seventh { revision = pos 8 }))
unfolding eqb write_with_dirty put_and_upload upload check_write_base known stat_version find
    conflicts_with should_patch merge_dirty_ranges join_all join sort insert before clean
    clean_range total_dirty adaptive_part_size patch_upload dirty_parts collect_parts range_parts
    add_parts add_part patched patched_byte collect member stored read_part new_cache
upload_run = refl

changed-Agrees : 4 ≡ length changed → Agrees old changed middle
unfolding covered
changed-Agrees same zero lt c = refl
changed-Agrees same (suc zero) lt c = absurd (ground (arith, covered-merge_raw middle 1))
changed-Agrees same (suc (suc zero)) lt c = absurd (ground (arith, covered-merge_raw middle 2))
changed-Agrees same (suc (suc (suc zero))) lt c = refl
changed-Agrees same (suc (suc (suc (suc i)))) lt c = absurd (omega arith)

upload_stores_example : uploaded.0.files path ≡ some changed
unfolding eqb
upload_stores_example =
    upload_stores memory memory-IsStore one_file path changed seventh 4 middle
      (record seventh { revision = pos 8 }) uploaded.0 old refl refl changed-Agrees upload_run

abbrev pub sixth : Version
sixth = record { revision = pos 6; resource_id = [] }

read_through-write_example :
    let r = (write_with_dirty memory mounted 5 path changed seventh 4 middle).0 in
    ((read_through memory r 9 path (record seventh { revision = pos 8 })).1 ≡ ok changed)
    × ((read_through memory r 9 path (record seventh { revision = pos 8 })).0.remote ≡ r.remote)
unfolding eqb write_with_dirty put_and_upload upload check_write_base known stat_version find
    conflicts_with should_patch merge_dirty_ranges join_all join sort insert before clean
    clean_range total_dirty adaptive_part_size patch_upload dirty_parts collect_parts range_parts
    add_parts add_part patched patched_byte collect member stored read_part new_cache
read_through-write_example =
    read_through-write memory mounted 5 9 path changed seventh 4 middle
      (record seventh { revision = pos 8 }) (new_cache-Inv (pos 0) (pos 0) (pos 0)) (omega arith)
      (omega arith) refl refl

-- The file was opened with a version that the service no longer has.
abbrev refused : Memory × Result FsError Version
refused = upload memory one_file path changed sixth 4 middle

upload_guarded_example :
    (refused.0 ≡ one_file)
    ⊎ ((v : Version) × (stat_version memory one_file path ≡ ok v) × SameObject v sixth)
unfolding known eqb
upload_guarded_example =
    upload_guarded memory one_file refused.0 path changed sixth 4 middle refused.1 refl refl
