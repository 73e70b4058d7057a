-- ===== src/Paths/Tests.antt =====
-- Runs on short paths.
use ti_cli.Common.{some, ◌∷◌, ◌++◌, ◌≡◌, refl}
use ti_cli.Common.Text.{
  Text, codes, eqb, has_prefix, trim_space, trim_left, is_space, trim_prefix, contains,
}
use ti_cli.Common.Result.{ok}
use ti_cli.Paths.Clean.{
  cut_slash, resolve_parts, resolve_part, pop_part, join_slash, clean_path, ends_in_slash,
  join_path, trim_slashes, trim_slashes_left, trim_slashes_right,
}
use ti_cli.Paths.Archive.{canonical_archive_path, pack_entry_rel, safe_overlay_target, overlay_root}
use ti_cli.Paths.Archive.Safe.{safe_overlay_target-pack_entry_rel}
use ti_cli.Paths.Remote.{
  normalize_remote_path, has_control_rune, default_remote_path, to_remote_path,
  remote_to_local_path,
}
use ti_cli.Paths.Remote.RoundTrip.{remote_to_local_path-to_remote_path}

safe_overlay_target-pack_entry_rel_example :
    safe_overlay_target (codes "/w") (codes "a/b")
    ≡ ok (overlay_root (codes "/w") ++ b'/' ∷ codes "a/b")
unfolding pack_entry_rel clean_path cut_slash resolve_parts resolve_part pop_part join_slash eqb
    has_prefix trim_prefix contains
safe_overlay_target-pack_entry_rel_example =
    safe_overlay_target-pack_entry_rel (codes "/w") (codes "entries/a/b") (codes "a/b") refl refl

remote_to_local_path-to_remote_path_example :
    remote_to_local_path (codes "/team") (to_remote_path (codes "/team") (codes "src/./a"))
    ≡ some (codes "/src/a")
unfolding normalize_remote_path default_remote_path canonical_archive_path to_remote_path
    has_control_rune ends_in_slash join_path clean_path cut_slash resolve_parts resolve_part
    pop_part join_slash eqb has_prefix contains trim_space trim_left is_space trim_prefix
    trim_slashes_left trim_slashes_right trim_slashes
remote_to_local_path-to_remote_path_example =
    remote_to_local_path-to_remote_path (codes "/team") (codes "src/./a") (codes "/team")
      (codes "/src/a") refl refl refl
