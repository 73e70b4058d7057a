-- ===== src/Paths/Clean.antt =====
-- `strings.Split` at slashes, `path.Clean` and `path.Join`; `filepath` is the same on Unix.
pub mod Laws
pub mod Trim
use mathlib.Core.List.{reverse}
use ti_cli.Common.{ℕ, Bool, true, false, ◌&&◌, ◌||◌, List, [], ◌∷◌, ◌++◌, ◌==◌, if◌then◌else◌}
use ti_cli.Common.Text.{Text, codes, eqb, has_prefix}

-- The part up to the first slash, and the parts after it.
unfoldable pub cut_slash : Text → Text × List Text
cut_slash [] = ([], [])
cut_slash (c ∷ s) =
    let (first, others) = cut_slash s in
    if c == b'/' then ([], first ∷ others) else (c ∷ first, others)

abbrev pub split_slash : Text → List Text
split_slash s = (cut_slash s).0 ∷ (cut_slash s).1

unfoldable pub join_slash : List Text → Text
join_slash [] = []
join_slash (p ∷ []) = p
join_slash (p ∷ q ∷ ps) = p ++ b'/' ∷ join_slash (q ∷ ps)

abbrev pub is_dot_dot : Text → Bool
is_dot_dot p = eqb p (codes "..")

-- Neither empty nor a dot.
abbrev pub is_idle : Text → Bool
is_idle p = eqb p [] || eqb p (codes ".")

unfoldable pub pop_part : Bool → List Text → List Text
pop_part rooted [] = if rooted then [] else codes ".." ∷ []
pop_part rooted (p ∷ ps) = if is_dot_dot p then codes ".." ∷ p ∷ ps else ps

-- One part of a path, over the parts before it, the last of them in front.
unfoldable pub resolve_part : Bool → List Text → Text → List Text
unfolding pop_part
resolve_part rooted stack p =
    if is_idle p then stack else if is_dot_dot p then pop_part rooted stack else p ∷ stack

unfoldable pub resolve_parts : Bool → List Text → List Text → List Text
unfolding resolve_part
resolve_parts rooted stack [] = stack
resolve_parts rooted stack (p ∷ ps) = resolve_parts rooted (resolve_part rooted stack p) ps

abbrev pub is_rooted : Text → Bool
is_rooted [] = false
is_rooted (c ∷ s) = c == b'/'

abbrev pub is_nil {ℓ} : {A : Type ℓ} → List A → Bool
is_nil [] = true
is_nil (x ∷ xs) = false

-- `path.Clean`.
unfoldable pub clean_path : Text → Text
unfolding cut_slash join_slash resolve_parts
clean_path s =
    let parts = reverse (resolve_parts (is_rooted s) [] (split_slash s)) in
    if is_rooted s
    then b'/' ∷ join_slash parts
    else if is_nil parts
    then codes "."
    else join_slash parts

-- `path.Join` of two elements.
unfoldable pub join_path : Text → Text → Text
unfolding clean_path
join_path [] [] = []
join_path [] (d ∷ t) = clean_path (d ∷ t)
join_path (c ∷ s) [] = clean_path (c ∷ s)
join_path (c ∷ s) (d ∷ t) = clean_path ((c ∷ s) ++ b'/' ∷ (d ∷ t))

-- What `path.Split` gives as the directory: up to and with the last slash.
unfoldable pub dir_part : Text → Text
dir_part [] = []
dir_part (c ∷ s) =
    let rest = dir_part s in if is_nil rest then (if c == b'/' then c ∷ [] else []) else c ∷ rest

-- `path.Dir`.
unfoldable pub dir_path : Text → Text
unfolding dir_part clean_path
dir_path s = clean_path (dir_part s)

-- `strings.TrimRight(s, "/")`.
unfoldable pub trim_slashes_right : Text → Text
trim_slashes_right [] = []
trim_slashes_right (c ∷ s) =
    let rest = trim_slashes_right s in if c == b'/' && is_nil rest then [] else c ∷ rest

unfoldable pub trim_slashes_left : Text → Text
trim_slashes_left [] = []
trim_slashes_left (c ∷ s) = if c == b'/' then trim_slashes_left s else c ∷ s

-- `strings.Trim(s, "/")`.
unfoldable pub trim_slashes : Text → Text
unfolding trim_slashes_left trim_slashes_right
trim_slashes s = trim_slashes_right (trim_slashes_left s)

-- `strings.TrimSuffix(s, "/")`.
unfoldable pub trim_one_slash : Text → Text
trim_one_slash [] = []
trim_one_slash (c ∷ s) =
    if is_nil s then (if c == b'/' then [] else c ∷ []) else c ∷ trim_one_slash s

-- `strings.HasSuffix(s, "/")`.
unfoldable pub ends_in_slash : Text → Bool
ends_in_slash [] = false
ends_in_slash (c ∷ []) = c == b'/'
ends_in_slash (c ∷ d ∷ s) = ends_in_slash (d ∷ s)
