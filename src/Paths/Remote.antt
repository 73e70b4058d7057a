-- ===== src/Paths/Remote.antt =====
-- Paths of the remote file system, and what of them a layered mount keeps on the local disk
-- (internal/fs/data.go, pack.go, fuse_mount.go). A profile is "none", "portable" or another.

pub mod Normal
pub mod RoundTrip
pub mod Child
use ti_cli.Common.{
  ℕ, Bool, true, false, not, ◌&&◌, ◌||◌, Option, none, some, List, [], ◌∷◌, ◌++◌, drop, length, ltb,
  ◌==◌, if◌then◌else◌,
}
use ti_cli.Common.Text.{Text, codes, eqb, has_prefix, trim_prefix, trim_space, contains}
use ti_cli.Common.Result.{Result, ok, err}
use ti_cli.Paths.Clean.{
  split_slash, is_dot_dot, clean_path, join_path, dir_path, trim_slashes, trim_one_slash,
  ends_in_slash,
}
use ti_cli.Paths.Archive.{
  PathError, missing_remote_path, invalid_remote_path, canonical_archive_path, overlay_path,
  rooted_form, root_for_dot,
}

abbrev pub is_control : ℕ → Bool
is_control c = ltb c 0x20 || c == 0x7F

unfoldable pub has_control_rune : Text → Bool
has_control_rune [] = false
has_control_rune (c ∷ s) = is_control c || has_control_rune s

-- A slash at the end is kept.
unfoldable pub normalize_remote_path : Text → Result PathError Text
unfolding has_control_rune ends_in_slash
normalize_remote_path value =
    let v = rooted_form value in
    let cleaned = root_for_dot (clean_path v) in
    if eqb value []
    then err missing_remote_path
    else if has_control_rune value
    then err invalid_remote_path
    else if ends_in_slash v && not (eqb cleaned (codes "/"))
    then ok (cleaned ++ codes "/")
    else ok cleaned

unfoldable pub default_remote_path : Text → Text
default_remote_path value = if eqb (trim_space value) [] then codes "/" else value

abbrev or_root : Result PathError Text → Text
or_root (ok p) = p
or_root (err e) = codes "/"

unfoldable pub to_remote_path : Text → Text → Text
unfolding default_remote_path normalize_remote_path canonical_archive_path
to_remote_path remote_root local_path =
    let root = or_root (normalize_remote_path (default_remote_path remote_root)) in
    let p = or_root (canonical_archive_path local_path) in
    if eqb p (codes "/") then root else join_path root (trim_prefix (codes "/") p)

-- The part of a normal path below a normal root.
unfoldable pub below_root : Text → Text → Option Text
below_root root p =
    let top = trim_one_slash root in
    if eqb root (codes "/")
    then some p
    else if eqb p top
    then some (codes "/")
    else if has_prefix (top ++ codes "/") p
    then some (b'/' ∷ trim_prefix (top ++ codes "/") p)
    else none

unfoldable pub remote_to_local_path : Text → Text → Option Text
unfolding default_remote_path normalize_remote_path below_root
remote_to_local_path remote_root remote_path =
    elim (normalize_remote_path (default_remote_path remote_root)) [
      | err e ↦ none
      | ok root ↦ elim (normalize_remote_path remote_path) [
        | err e ↦ none
        | ok p ↦ below_root root p
      ]
    ]

-- The name of a child that the kernel asks for; `none` is EINVAL.
unfoldable pub child_path : Text → Text → Option Text
unfolding normalize_remote_path
child_path parent name =
    let at_root = normalize_remote_path (b'/' ∷ name) in
    let below = normalize_remote_path (join_path parent name) in
    if eqb name []
      || eqb name (codes ".")
      || is_dot_dot name
      || contains b'/' name
      || contains 0 name
    then none
    else elim (if eqb parent (codes "/") then at_root else below) [ err e ↦ none | ok p ↦ some p ]

abbrev pub Profile : Type 0
Profile = Text

-- What a layered mount is set up with.
pub record Layers : Type 0 where
  pub remote_root : Text
  pub local_root : Text
  pub profile : Profile

unfoldable pub overlay_enabled : Layers → Bool
overlay_enabled l =
    not (eqb (trim_space l.local_root) [])
    && not (eqb (trim_space l.profile) [])
    && not (eqb l.profile (codes "none"))

unfoldable pub local_path : Layers → Text → Option Text
unfolding overlay_enabled remote_to_local_path
local_path l remote_path =
    if not (overlay_enabled l) then none else remote_to_local_path l.remote_root remote_path

unfoldable pub local_abs : Layers → Text → Option Text
unfolding local_path overlay_path
local_abs l remote_path = elim (local_path l remote_path) [
  | none ↦ none
  | some p ↦ elim (overlay_path l.local_root p) [ err e ↦ none | ok abs ↦ some abs ]
]

abbrev pub local_only_names : List Text
local_only_names =
    codes ".git"
    ∷ codes ".hg"
    ∷ codes ".svn"
    ∷ codes "node_modules"
    ∷ codes ".pnpm-store"
    ∷ codes "target"
    ∷ codes "dist"
    ∷ codes "build"
    ∷ codes "coverage"
    ∷ codes "tmp"
    ∷ codes ".tmp"
    ∷ codes ".tmp-api-extractor"
    ∷ codes ".cache"
    ∷ codes ".turbo"
    ∷ codes ".gradle"
    ∷ codes ".venv"
    ∷ codes "__pycache__"
    ∷ codes ".pytest_cache"
    ∷ codes ".mypy_cache"
    ∷ codes ".ruff_cache"
    ∷ []

unfoldable pub is_among : Text → List Text → Bool
is_among name [] = false
is_among name (n ∷ ns) = eqb name n || is_among name ns

abbrev pub starts_with_cache : List Text → Bool
starts_with_cache [] = false
starts_with_cache (p ∷ ps) = eqb p (codes "cache")

unfoldable pub any_local_only : List Text → Bool
unfolding is_among
any_local_only [] = false
any_local_only (p ∷ ps) =
    is_among p local_only_names
    || ((eqb p (codes ".next") || eqb p (codes ".vitepress")) && starts_with_cache ps)
    || any_local_only ps

unfoldable pub is_local_only : Layers → Text → Bool
unfolding local_path any_local_only
is_local_only l remote_path = elim (local_path l remote_path) [
  | none ↦ false
  | some p ↦
      let clean = trim_slashes (trim_prefix (codes "/") (clean_path p)) in
      if eqb clean [] then false else any_local_only (split_slash clean)
]

-- `is_dir` says which local paths are directories there.
unfoldable pub local_parent_exists : Layers → (Text → Bool) → Text → Bool
unfolding local_path is_local_only to_remote_path local_abs
local_parent_exists l is_dir remote_path = elim (local_path l remote_path) [
  | none ↦ false
  | some p ↦
      let parent = dir_path p in
      let parent_remote = to_remote_path l.remote_root parent in
      let portable = eqb l.profile (codes "portable") in
      if eqb p (codes "/")
      then false
      else if eqb parent (codes "/")
      then is_local_only l parent_remote || portable
      else if is_local_only l parent_remote
      then true
      else if not portable
      then false
      else elim (local_abs l parent_remote) [ none ↦ false | some abs ↦ is_dir abs ]
]
