-- ===== src/Fuse/Tests/Listings.antt =====
-- A listing of a small directory, and a link in it.
use ti_cli.Common.{false, none, some, List, [], ◌∷◌, ◌≡◌, refl}
use ti_cli.Common.Text.{utf8, codes, eqb, has_prefix, trim_space, trim_left, is_space, contains}
use ti_cli.Common.Result.{ok}
use ti_cli.Paths.Clean.{
  cut_slash, resolve_parts, resolve_part, pop_part, join_slash, clean_path, ends_in_slash,
}
use ti_cli.Paths.Remote.{
  normalize_remote_path, has_control_rune, child_path, is_local_only, local_path, local_abs,
  overlay_enabled,
}
use ti_cli.Fuse.Metadata.{MetaStore, absent, read_locked}
use ti_cli.Fuse.Nodes.{Mount, Answer, DirEntry, regular, directory, local_info}
use ti_cli.Fuse.Nodes.Linking.{symlink_remote}
use ti_cli.Fuse.Nodes.Listing.{
  readdir, list_remote, list_local, merge_listings, put_all, put_named, sort_named, insert_named,
  ltb_text, named, remote_entries, has_child, is_skipped, readlink,
}
use ti_cli.Fuse.Nodes.Listing.Layers.{readdir_layers, Rising, last_named, or_else, or_nothing}
use ti_cli.Fuse.Nodes.Listing.Links.{readlink-symlink_remote}
use ti_cli.Fuse.Tests.Service.{memory}
use ti_cli.Fuse.Tests.Around.{around}
use ti_cli.Fuse.Tests.Nodes.{editing}

abbrev two : List DirEntry
two =
    record { name = codes "a"; kind = regular } ∷ record { name = codes "b"; kind = directory } ∷ []

readdir_run : readdir memory around editing (codes "/") ≡ (editing, ok two)
unfolding readdir list_remote list_local merge_listings put_all put_named sort_named insert_named
    ltb_text remote_entries has_child is_skipped child_path normalize_remote_path has_control_rune
    ends_in_slash clean_path cut_slash resolve_parts resolve_part pop_part join_slash eqb has_prefix
    contains is_local_only local_path local_abs overlay_enabled local_info trim_space trim_left
    is_space
readdir_run = refl

readdir_layers_example :
    Rising two
    × (named (codes "b") two
        ≡ or_else (last_named (codes "b") (list_local memory around editing (codes "/"))) (
            or_else
              (last_named (codes "b") [])
              (named (codes "b") (or_nothing (list_remote memory around editing (codes "/"))))))
readdir_layers_example =
    readdir_layers memory around editing editing (codes "/") two (codes "b") readdir_run

abbrev fresh_store : MetaStore
fresh_store = record { file = absent; stuck = false }

abbrev recording : Mount memory around
recording = record editing { metadata = some fresh_store }

abbrev linked : Answer memory around
linked = symlink_remote memory around recording (codes "a") (codes "/l")

linked_run : linked ≡ (linked.0, none)
unfolding symlink_remote
linked_run = refl

readlink-symlink_remote_example :
    (readlink memory around linked.0 (codes "/l")).1 ≡ ok (utf8 (codes "a"))
unfolding normalize_remote_path has_control_rune ends_in_slash clean_path cut_slash resolve_parts
    resolve_part pop_part join_slash eqb has_prefix read_locked local_info local_abs local_path
    overlay_enabled trim_space trim_left is_space
readlink-symlink_remote_example =
    readlink-symlink_remote memory around recording linked.0 fresh_store [] (codes "a") (codes "/l")
      tt refl refl refl refl refl refl linked_run
