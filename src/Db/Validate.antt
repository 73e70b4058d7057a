-- ===== src/Db/Validate.antt =====
-- Checks of the values of database flags (internal/db/validate/validate.go). An error keeps its
-- code; the flag's name and the wording of the message are left out. Text is valid UTF-8.
pub mod Ids
pub mod Names
use ti_cli.Common.{
  ℕ, zero, suc, ◌+◌, Bool, true, false, not, ◌&&◌, ◌||◌, Option, none, some, [], ◌∷◌, ◌++◌, ltb,
  leb, ◌==◌, if◌then◌else◌, length, drop,
}
use ti_cli.Common.Int.{ℤ, pos, negsuc, ltb_ℤ, pos_part, eqb_ℤ}
use ti_cli.Common.Text.{Text, codes, eqb, trim_space, trim_prefix, has_prefix, contains, byte_len}
use ti_cli.Common.Result.{Result, ok, err, ◌>>◌}

pub data ValidateError : Type 0 where
  missing_required_flag unsupported_cluster_type invalid_cluster_name : ValidateError
  invalid_cluster_id invalid_branch_name invalid_branch_id : ValidateError
  invalid_export_id invalid_concurrency invalid_view invalid_non_negative_flag : ValidateError

abbrev pub Checked : Type 0
Checked = Result ValidateError (Unit {0})

unfoldable pub required : Text → Checked
required s = if eqb (trim_space s) [] then err missing_required_flag else ok tt

unfoldable pub cluster_type : Text → Checked
cluster_type s =
    if eqb (trim_space s) []
    then err missing_required_flag
    else if not (eqb (trim_space s) (codes "starter"))
    then err unsupported_cluster_type
    else ok tt

unfoldable pub is_alnum : ℕ → Bool
is_alnum c = (leb b'A' c && leb c b'Z') || (leb b'a' c && leb c b'z') || (leb b'0' c && leb c b'9')

-- The rest of a match of `clusterNamePattern` after its first character: characters of the middle,
-- then one that is no hyphen.
unfoldable pub name_tail : Text → Bool
unfolding is_alnum
name_tail [] = false
name_tail (c ∷ []) = is_alnum c
name_tail (c ∷ d ∷ s) = (is_alnum c || c == b'-') && name_tail (d ∷ s)

unfoldable pub cluster_name_matches : Text → Bool
unfolding is_alnum name_tail
cluster_name_matches [] = false
cluster_name_matches (c ∷ s) =
    is_alnum c && (leb 3 (length s) && (leb (length s) 63 && name_tail s))

unfoldable pub cluster_name : Text → Checked
unfolding required cluster_name_matches
cluster_name s =
    required s >> (if not (cluster_name_matches s) then err invalid_cluster_name else ok tt)

unfoldable pub optional_cluster_name : Text → Checked
unfolding cluster_name
optional_cluster_name s = if eqb (trim_space s) [] then ok tt else cluster_name s

-- The end of the checks of an id.
unfoldable pub plain_id : ValidateError → Text → Result ValidateError Text
plain_id e s = if eqb s [] || contains b'/' s then err e else ok s

unfoldable pub cluster_id : Text → Result ValidateError Text
unfolding required plain_id
cluster_id s =
    required s >> plain_id invalid_cluster_id (trim_prefix (codes "clusters/") (trim_space s))

unfoldable pub has_control : Text → Bool
has_control [] = false
has_control (c ∷ s) = ltb c 0x20 || c == 0x7f || has_control s

unfoldable pub branch_name : Text → Checked
unfolding required has_control
branch_name s =
    let t = trim_space s in
    required s
    >> (if ltb 64 (byte_len t) || contains b'/' t
        then err invalid_branch_name
        else if has_control t
        then err invalid_branch_name
        else ok tt)

-- What follows the last occurrence (`strings.LastIndex`) of a separator that is not empty.
unfoldable pub after_last : Text → Text → Option Text
after_last sep [] = none
after_last sep (c ∷ s) = elim (after_last sep s) [
  | some t ↦ some t
  | none ↦ if has_prefix sep (c ∷ s) then some (drop (length sep) (c ∷ s)) else none
]

abbrev pub after_or : Text → Text → Text
after_or sep s = elim (after_last sep s) [ some t ↦ t | none ↦ s ]

unfoldable pub branch_id : Text → Result ValidateError Text
unfolding required plain_id
branch_id s =
    required s
    >> plain_id invalid_branch_id
        (trim_prefix (codes "branches/") (after_or (codes "/branches/") (trim_space s)))

unfoldable pub export_id : Text → Result ValidateError Text
unfolding required plain_id
export_id s =
    required s
    >> plain_id invalid_export_id
        (trim_prefix (codes "exports/") (after_or (codes "/exports/") (trim_space s)))

unfoldable pub concurrency : ℤ → Result ValidateError ℤ
concurrency n = if ltb_ℤ n (pos 1) || ltb_ℤ (pos 32) n then err invalid_concurrency else ok n

unfoldable pub view : Text → Checked
view s =
    let t = trim_space s in
    if eqb t [] || eqb t (codes "BASIC") || eqb t (codes "FULL") then ok tt else err invalid_view

unfoldable pub non_negative : ℤ → Checked
non_negative n = if ltb_ℤ n (pos 0) then err invalid_non_negative_flag else ok tt

unfoldable pub optional_non_negative : ℤ → Checked
unfolding non_negative
optional_non_negative n = if eqb_ℤ n (negsuc 0) then ok tt else non_negative n
