-- ===== src/Paths/Archive.antt =====
-- Paths in a pack of local files, and where its entries go (internal/fs/pack.go). Messages are left
-- out of the errors; `\\` is the backslash, which is no separator on Unix.
pub mod Safe
pub mod Links
use ti_cli.Common.{
  ℕ, Bool, true, false, not, ◌&&◌, ◌||◌, List, [], ◌∷◌, ◌++◌, drop, length, ◌==◌, if◌then◌else◌,
}
use ti_cli.Common.Text.{Text, codes, eqb, has_prefix, trim_prefix, trim_space, contains}
use ti_cli.Common.Result.{Result, ok, err, ◌>>=◌}
use ti_cli.Paths.Clean.{
  split_slash, is_dot_dot, is_rooted, clean_path, join_path, dir_path, trim_slashes, trim_one_slash,
}

pub data PathError : Type 0 where
  missing_remote_path invalid_remote_path invalid_pack_path invalid_pack_entry unsafe_pack_symlink
        invalid_manifest_path :
      PathError

-- A part that `path.Clean` would not keep, whether or not an empty one counts.
abbrev pub has_dots : List Text → Bool
has_dots [] = false
has_dots (p ∷ ps) = (eqb p (codes ".") || is_dot_dot p) || has_dots ps

abbrev pub has_bad_part : List Text → Bool
has_bad_part [] = false
has_bad_part (p ∷ ps) = (eqb p [] || eqb p (codes ".") || is_dot_dot p) || has_bad_part ps

abbrev pub rooted_form : Text → Text
rooted_form s = if has_prefix (codes "/") s then s else b'/' ∷ s

abbrev pub root_for_dot : Text → Text
root_for_dot s = if eqb s (codes ".") then codes "/" else s

unfoldable pub canonical_archive_path : Text → Result PathError Text
canonical_archive_path value =
    let v = trim_space value in
    let cleaned = root_for_dot (clean_path (rooted_form v)) in
    if eqb v [] || eqb v (codes ".")
    then ok (codes "/")
    else if contains 0 v || contains b'\\' v
    then err invalid_pack_path
    else if has_dots (split_slash (trim_slashes cleaned))
    then err invalid_pack_path
    else ok cleaned

unfoldable pub join_archive_path : Text → Text → Result PathError Text
unfolding canonical_archive_path
join_archive_path base rel = canonical_archive_path base >>= λ b.
    let r = trim_space rel in
    if eqb r []
    then err invalid_pack_path
    else if contains b'\\' r
    then err invalid_pack_path
    else if has_prefix (codes "/") r
    then canonical_archive_path r
    else if has_bad_part (split_slash r)
    then err invalid_pack_path
    else if eqb b (codes "/")
    then canonical_archive_path (b'/' ∷ r)
    else canonical_archive_path (trim_one_slash b ++ b'/' ∷ r)

-- <local root>/overlay.
unfoldable pub overlay_root : Text → Text
overlay_root local_root = join_path local_root (codes "overlay")

unfoldable pub overlay_path : Text → Text → Result PathError Text
unfolding canonical_archive_path overlay_root
overlay_path local_root archive_path = canonical_archive_path archive_path >>= λ canonical.
    let rel = trim_prefix (codes "/") canonical in
    if eqb rel []
    then ok (overlay_root local_root)
    else ok (join_path (overlay_root local_root) rel)

unfoldable pub pack_entry_rel : Text → Result PathError Text
pack_entry_rel name =
    let rel = trim_prefix (codes "entries/") name in
    if not (has_prefix (codes "entries/") name)
    then err invalid_pack_entry
    else if eqb rel []
    then err invalid_pack_entry
    else if contains 0 rel || contains b'\\' rel || has_prefix (codes "/") rel
    then err invalid_pack_entry
    else if eqb (clean_path rel) (codes ".") || not (eqb (clean_path rel) rel)
    then err invalid_pack_entry
    else if has_bad_part (split_slash rel)
    then err invalid_pack_entry
    else ok rel

-- Is a clean path the clean root or below it?
abbrev pub inside : Text → Text → Bool
inside root target = eqb target root || has_prefix (root ++ codes "/") target

unfoldable pub safe_overlay_target : Text → Text → Result PathError Text
unfolding overlay_root
safe_overlay_target local_root rel =
    let target = clean_path (join_path (overlay_root local_root) rel) in
    if inside (clean_path (overlay_root local_root)) target
    then ok target
    else err invalid_pack_entry

unfoldable pub manifest_path_rel : Text → Result PathError Text
unfolding canonical_archive_path
manifest_path_rel archive_path = elim (canonical_archive_path archive_path) [
  | err e ↦ err invalid_manifest_path
  | ok canonical ↦
      let rel = trim_prefix (codes "/") canonical in
      if eqb rel [] then err invalid_manifest_path else ok rel
]

-- Where a link at `rel` of the overlay leads.
unfoldable pub symlink_resolved : Text → Text → Text → Text
unfolding overlay_root
symlink_resolved local_root rel link =
    let link_dir = join_path (clean_path (overlay_root local_root)) (dir_path rel) in
    clean_path (join_path link_dir link)

unfoldable pub validate_pack_symlink_target : Text → Text → Text → Result PathError (Unit {0})
unfolding symlink_resolved overlay_root
validate_pack_symlink_target local_root rel link =
    if eqb link [] || contains 0 link || contains b'\\' link
    then err unsafe_pack_symlink
    else if has_prefix (codes "/") link
    then err unsafe_pack_symlink
    else if inside (clean_path (overlay_root local_root)) (symlink_resolved local_root rel link)
    then ok tt
    else err unsafe_pack_symlink
