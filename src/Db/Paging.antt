-- ===== src/Db/Paging.antt =====
-- The tokens that continue a list of clusters (internal/db/pagination.go). Base64, the JSON of the
-- standard library and the fingerprint of a page are parameters; messages are left out.
pub mod Tokens
use ti_cli.Common.{
  ℕ, ◌*◌, Bool, true, false, not, ◌&&◌, ◌||◌, Option, none, some, List, [], ◌∷◌, if◌then◌else◌, ltb,
  ◌==◌, length,
}
use ti_cli.Common.Int.{ℤ, pos, negsuc, ltb_ℤ, pos_part, is_positive, eqb_ℤ}
use ti_cli.Common.Text.{Text, codes, eqb, trim_space, byte_len}
use ti_cli.Common.Result.{Result, ok, err}

pub record ListCursor : Type 0 where
  pub version : ℤ
  pub profile_name : Text
  pub cluster_type : Text
  pub region_code : Text
  pub filter : Text
  pub order_by : Text
  pub upstream_page_size : ℤ
  pub upstream_page_token : Text
  pub matched_offset : ℤ
  pub page_fingerprint : Text

pub data PageError : Type 0 where
  invalid_page_size invalid_page_token page_token_context_mismatch : PageError

-- `--page-size`, with 10 for none.
unfoldable pub result_page_size : ℤ → Result PageError ℕ
result_page_size value =
    if eqb_ℤ value (pos 0)
    then ok 10
    else if ltb_ℤ value (pos 0) || ltb_ℤ (pos 1000) value
    then err invalid_page_size
    else ok (pos_part value)

-- A profile has a name and a region of placement.
unfoldable pub normalized_profile_name : Option (Text × Text) → Text
normalized_profile_name none = codes "default"
normalized_profile_name (some (name, region)) =
    if eqb (trim_space name) [] then codes "default" else trim_space name

unfoldable pub effective_region_code : Option (Text × Text) → Text
effective_region_code none = []
effective_region_code (some (name, region)) = trim_space region

unfoldable pub new_list_cursor : Option (Text × Text) → Text → Text → Text → ListCursor
unfolding normalized_profile_name effective_region_code
new_list_cursor profile cluster_type filter order_by = record {
  version = pos 1;
  profile_name = normalized_profile_name profile;
  cluster_type = cluster_type;
  region_code = effective_region_code profile;
  filter = filter;
  order_by = order_by;
  upstream_page_size = pos 100;
  upstream_page_token = [];
  matched_offset = pos 0;
  page_fingerprint = [];
}

abbrev pub maximum_page_token_length : ℕ
maximum_page_token_length = 16 * 1024

unfoldable pub same_context : ListCursor → ListCursor → Bool
same_context c e =
    eqb c.profile_name e.profile_name
    && eqb c.cluster_type e.cluster_type
    && eqb c.region_code e.region_code
    && eqb c.filter e.filter
    && eqb c.order_by e.order_by

-- The checks of a cursor that was read.
unfoldable pub checked_cursor : ListCursor → ListCursor → Result PageError ListCursor
unfolding same_context
checked_cursor c expected =
    if not (eqb_ℤ c.version (pos 1))
      || not (eqb_ℤ c.upstream_page_size (pos 100))
      || ltb_ℤ c.matched_offset (pos 0)
    then err invalid_page_token
    else if not (same_context c expected)
    then err page_token_context_mismatch
    else if eqb_ℤ c.matched_offset (pos 0) && not (eqb c.page_fingerprint [])
    then err invalid_page_token
    else if is_positive c.matched_offset && eqb c.page_fingerprint []
    then err invalid_page_token
    else ok c

-- `from_base64` and `from_json` read what they are given as a whole.
module _ (from_base64 : Text → Option (List ℕ)) (from_json : List ℕ → Option ListCursor) where
  unfoldable pub decode_list_cursor : Text → ListCursor → Result PageError ListCursor
  unfolding checked_cursor
  decode_list_cursor raw expected =
      if eqb (trim_space raw) []
      then ok expected
      else if ltb maximum_page_token_length (byte_len raw)
      then err invalid_page_token
      else elim (from_base64 raw) [
        | none ↦ err invalid_page_token
        | some bytes ↦
            if ltb maximum_page_token_length (length bytes)
            then err invalid_page_token
            else elim (from_json bytes) [
              | none ↦ err invalid_page_token
              | some c ↦ checked_cursor c expected
            ]
      ]

module _ (to_base64 : List ℕ → Text) (to_json : ListCursor → List ℕ) where
  unfoldable pub encode_list_cursor : ListCursor → Text
  encode_list_cursor c = to_base64 (to_json c)
