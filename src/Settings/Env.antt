-- ===== src/Settings/Env.antt =====
-- Variables under a canonical and an older name (internal/config/envcompat/envcompat.go). The
-- environment is a function, whether it is a map or that of the process.
pub mod Agrees
use ti_cli.Common.{Bool, true, false, not, Option, none, some, List, [], ◌∷◌, if◌then◌else◌}
use ti_cli.Common.Text.{Text, codes, eqb}
use ti_cli.Common.Result.{Result, ok, err}

pub record Pair : Type 0 where
  pub canonical : Text
  pub legacy : Text

abbrev pub Env : Type 0
Env = Text → Option Text

pub data EnvError : Type 0 where
  environment_conflict : EnvError

abbrev pair : Text → Text → Pair
pair c l = record { canonical = c; legacy = l }

abbrev pub public_pairs : List Pair
public_pairs =
    pair (codes "TI_PROFILE") (codes "TDC_PROFILE")
    ∷ pair (codes "TI_REGION_CODE") (codes "TDC_REGION_CODE")
    ∷ pair (codes "TIDB_CLOUD_PUBLIC_KEY") (codes "TDC_PUBLIC_KEY")
    ∷ pair (codes "TIDB_CLOUD_PRIVATE_KEY") (codes "TDC_PRIVATE_KEY")
    ∷ pair (codes "TI_FS_TOKEN") (codes "TDC_FS_TOKEN")
    ∷ pair (codes "TI_FS_FILE_SYSTEM_ID") (codes "TDC_FS_FILE_SYSTEM_ID")
    ∷ pair (codes "TI_LOGGING") (codes "TDC_LOGGING")
    ∷ pair (codes "TI_TELEMETRY") (codes "TDC_TELEMETRY")
    ∷ pair (codes "TI_TELEMETRY_TAG") (codes "TDC_TELEMETRY_TAG")
    ∷ pair (codes "TI_TELEMETRY_EXTRA") (codes "TDC_TELEMETRY_EXTRA")
    ∷ pair (codes "TI_VAULT_TOKEN") (codes "TDC_VAULT_TOKEN")
    ∷ pair (codes "TI_INSTALL_DIR") (codes "TDC_INSTALL_DIR")
    ∷ []

-- What two lookups give: a value and whether it is under the older name, or nothing.
unfoldable pub resolved : Option Text → Option Text → Result EnvError (Option (Text × Bool))
resolved none none = ok none
resolved none (some l) = ok (some (l, true))
resolved (some c) none = ok (some (c, false))
resolved (some c) (some l) =
    if not (eqb c l) then err environment_conflict else ok (some (c, false))

unfoldable pub resolve : Env → Pair → Result EnvError (Option (Text × Bool))
unfolding resolved
resolve env p = resolved (env p.canonical) (env p.legacy)

unfoldable pub validate_pairs : Env → List Pair → Option EnvError
validate_pairs env [] = none
validate_pairs env (p ∷ ps) = elim (resolve env p) [ err e ↦ some e | ok v ↦ validate_pairs env ps ]

unfoldable pub validate_env : Env → Option EnvError
unfolding validate_pairs
validate_env env = validate_pairs env public_pairs
