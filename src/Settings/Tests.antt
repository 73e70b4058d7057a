-- ===== src/Settings/Tests.antt =====
-- An environment with one variable under both names.
use ti_cli.Common.{none, some, ◌≡◌, ◌↔◌, if◌then◌else◌, All}
use ti_cli.Common.Text.{codes, eqb}
use ti_cli.Settings.Env.{Env, validate_env, public_pairs}
use ti_cli.Settings.Env.Agrees.{Agrees, validate_env_lem}

abbrev doubled : Env
doubled name =
    if eqb name (codes "TI_PROFILE")
    then some (codes "a")
    else if eqb name (codes "TDC_PROFILE")
    then some (codes "b")
    else none

validate_env_lem_example : (validate_env doubled ≡ none) ↔ All (Agrees doubled) public_pairs
validate_env_lem_example = validate_env_lem doubled
