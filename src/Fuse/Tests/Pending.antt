-- ===== src/Fuse/Tests/Pending.antt =====
-- One write through a write-back store, and its recovery. Files are named by the path's length.
use ti_cli.Common.{ℕ, some, [], ◌≡◌, ◌≢◌, refl, ap, arith, length}
use ti_cli.Common.Int.{pos}
use ti_cli.Common.Text.{eqb}
use ti_cli.Common.Result.{Result, ok, err}
use ti_cli.Fuse.Version.{Version, known, conflicts_with}
use ti_cli.Fuse.Errors.{FsError, write_conflict}
use ti_cli.Fuse.Upload.{upload, check_write_base, stat_version}
use ti_cli.Fuse.WriteBack.{Disk, Store, attempt, put, new_meta, put_and_upload, recover}
use ti_cli.Fuse.WriteBack.Keeps.{find_meta, put_and_upload_pending}
use ti_cli.Fuse.WriteBack.Recovers.{recover-put}
use ti_cli.Fuse.Tests.Service.{Memory, memory, find}
use ti_cli.Fuse.Tests.Handles.{
  path, seventh, sixth, one_file, middle, changed, nobody, good_disk, a_store, uploaded, upload_run,
}

abbrev through : (Store × Memory) × Result FsError Version
through = put_and_upload length memory a_store one_file path changed seventh 4 middle

through_run : through ≡ (through.0, ok (record seventh { revision = pos 8 }))
unfolding put_and_upload
through_run = rw (put_and_upload, upload_run) refl

-- The disk after the write was kept.
abbrev kept : Disk
kept = (put length nobody path changed seventh 4 middle good_disk).0

put_run : put length nobody path changed seventh 4 middle good_disk ≡ (kept, ok tt)
unfolding put attempt
put_run = refl

abbrev refused : Memory × Result FsError Version
refused = upload memory one_file path changed sixth 4 middle

abbrev old_write : Disk
old_write = (put length nobody path changed sixth 4 middle good_disk).0

old_run : put length nobody path changed sixth 4 middle good_disk ≡ (old_write, ok tt)
unfolding put attempt
old_run = refl

refused_run : refused ≡ (refused.0, err write_conflict)
unfolding upload check_write_base known conflicts_with stat_version find eqb
refused_run = refl

put_and_upload_pending_example :
    (put_and_upload length memory a_store one_file path changed sixth 4 middle
      ≡ ((record a_store { disk = old_write }, refused.0), err write_conflict))
    × (find_meta 2 old_write.metas
        ≡ some (some (new_meta length nobody path changed sixth 4 middle)))
    × (old_write.bytes 2 ≡ some changed)
put_and_upload_pending_example =
    put_and_upload_pending length memory a_store old_write one_file refused.0 path changed sixth 4
      middle write_conflict (omega arith) old_run refused_run

path_named : path ≢ []
path_named e = absurd (cc)

abbrev recovered : (Store × Memory) × Result FsError ℕ
recovered = recover length memory (record a_store { disk = kept }) one_file

recovered_run : recovered.1 ≡ ok 1
unfolding put attempt
recovered_run =
    (recover-put length memory a_store kept one_file path changed seventh 4 middle
      (record seventh { revision = pos 8 }) refl path_named put_run
      (ap (λ (o : Memory × Result FsError Version). o.1) upload_run) (λ n. refl)).0

recover-put_example :
    let out = recover length memory (record a_store { disk = kept }) one_file in
    (out.1 ≡ ok 1) × (out.0.0.disk.metas ≡ []) × (out.0.1 ≡ uploaded.0)
unfolding put attempt
recover-put_example =
    recover-put length memory a_store kept one_file path changed seventh 4 middle
      (record seventh { revision = pos 8 }) refl path_named put_run
      (ap (λ (o : Memory × Result FsError Version). o.1) upload_run) (λ n. refl)
