-- ===== src/Telemetry/Event/Valid.antt =====
-- What an event that the validation lets through satisfies.
use ti_cli.Common.{
  ◌≤◌, Bool, true, ◌||◌, Option, length, ◌≡◌, ◌⊎◌, arith, inl, inr, Bool-cases, All,
}
use ti_cli.Common.Int.{ℤ}
use ti_cli.Common.Text.{Text, codes, eqb, eqb_sound, byte_len}
use ti_cli.Common.Result.{ok}
use ti_cli.Telemetry.Event.{Json, WireEvent, Event}
use ti_cli.Telemetry.Event.Patterns.{
  event_id_matches, installation_id_matches, all_words, command_path_matches, error_code_matches,
  cli_version_matches, one_of, allowed_regions, allowed_operating_systems, allowed_architectures,
}
use ti_cli.Telemetry.Event.Checks.{
  within, valid_string, validate_event, cloud_providers, install_sources, profile_sources,
}
use ti_cli.Telemetry.Event.Shapes.{
  Between, IsAlnumOr, IsInstallationId, IsCommandPath, IsFlagName, IsUpTo, IsOneOf, IsCliVersion,
}
use ti_cli.Telemetry.Event.Shapes.Accepted.{
  event_id_matches_sound, installation_id_matches_sound, command_path_matches_sound,
  all_words_sound, within_sound, one_of_sound, error_code_matches_sound, cli_version_matches_sound,
}

-- Whatever is kept of an event has its shape, is in its range or in its table.
pub record IsValid {Time : Type 0} (e : Event Time) : Type 0 where
  pub id : Between 16 64 (IsAlnumOr (codes "_-")) e.event_id
  pub name :
      (e.event_name ≡ codes "ti.command.finished") ⊎ (e.event_name ≡ codes "tdc.command.finished")
  pub installation : IsInstallationId e.anonymous_installation_id
  pub command : IsCommandPath e.command_path
  pub command_short : byte_len e.command_path ≤ 128
  pub flags_few : length e.flag_names ≤ 64
  pub flags : All IsFlagName e.flag_names
  pub exit : IsUpTo 255 e.exit_code
  pub error : Between 0 64 (IsAlnumOr (codes "._-")) e.error_code
  pub duration : IsUpTo 86400000 e.duration_ms
  pub provider : IsOneOf e.cloud_provider cloud_providers
  pub region : IsOneOf e.region_code allowed_regions
  pub cli : IsCliVersion e.cli_version
  pub system : IsOneOf e.os allowed_operating_systems
  pub machine : IsOneOf e.arch allowed_architectures
  pub install : IsOneOf e.install_source install_sources
  pub profile : IsOneOf e.profile_source profile_sources

-- The guards that an accepted event has passed.
record Passed {Time : Type 0} (e : Event Time) : Type 0 where
  id : event_id_matches e.event_id ≡ true
  name :
      (eqb e.event_name (codes "ti.command.finished")
        || eqb e.event_name (codes "tdc.command.finished"))
      ≡ true
  installation : installation_id_matches e.anonymous_installation_id ≡ true
  command : command_path_matches e.command_path ≡ true
  command_short : byte_len e.command_path ≤ 128
  flags_few : length e.flag_names ≤ 64
  flags : all_words e.flag_names ≡ true
  exit : within e.exit_code 255 ≡ true
  error : error_code_matches e.error_code ≡ true
  duration : within e.duration_ms 86400000 ≡ true
  provider : one_of e.cloud_provider cloud_providers ≡ true
  region : one_of e.region_code allowed_regions ≡ true
  cli : cli_version_matches e.cli_version ≡ true
  system : one_of e.os allowed_operating_systems ≡ true
  machine : one_of e.arch allowed_architectures ≡ true
  install : one_of e.install_source install_sources ≡ true
  profile : one_of e.profile_source profile_sources ≡ true

Passed-IsValid : {Time : Type 0} (e : Event Time) → Passed e → IsValid e
Passed-IsValid e g = record {
  id = event_id_matches_sound e.event_id g.id;
  name = elim (Bool-cases (eqb e.event_name (codes "ti.command.finished"))) [
    | inl h ↦ inl (eqb_sound e.event_name (codes "ti.command.finished") h)
    | inr h ↦ inr (
        eqb_sound e.event_name (codes "tdc.command.finished") (let either = g.name in ground arith))
  ];
  installation = installation_id_matches_sound e.anonymous_installation_id g.installation;
  command = command_path_matches_sound e.command_path g.command;
  command_short = g.command_short;
  flags_few = g.flags_few;
  flags = all_words_sound e.flag_names g.flags;
  exit = within_sound e.exit_code 255 g.exit;
  error = error_code_matches_sound e.error_code g.error;
  duration = within_sound e.duration_ms 86400000 g.duration;
  provider = one_of_sound e.cloud_provider cloud_providers g.provider;
  region = one_of_sound e.region_code allowed_regions g.region;
  cli = cli_version_matches_sound e.cli_version g.cli;
  system = one_of_sound e.os allowed_operating_systems g.system;
  machine = one_of_sound e.arch allowed_architectures g.machine;
  install = one_of_sound e.install_source install_sources g.install;
  profile = one_of_sound e.profile_source profile_sources g.profile;
}

module _ (Time : Type 0) (parse_time : Text → Option Time)
    (parse_json : Text → Option (Json × Bool)) (write_json : Json → Option Text) where
  validate_event-Passed :
      (raw : WireEvent) (version : ℤ) (received_at : Time) (e : Event Time)
      → validate_event Time parse_time parse_json write_json raw version received_at ≡ ok e
      → Passed e
  unfolding validate_event valid_string
  validate_event-Passed raw version received_at e h = record {
    id = ground arith;
    name = ground arith;
    installation = ground arith;
    command = ground arith;
    command_short = ground arith;
    flags_few = ground arith;
    flags = ground arith;
    exit = ground arith;
    error = ground arith;
    duration = ground arith;
    provider = ground arith;
    region = ground arith;
    cli = ground arith;
    system = ground arith;
    machine = ground arith;
    install = ground arith;
    profile = ground arith;
  }

  -- An event that is let through has its event id, installation id, command path, flag names, error
  -- code and program version in the shape of its pattern, its name among the two, its exit code up
  -- to 255 and its duration up to a day, and each source in its table.
  pub validate_event-IsValid :
      (raw : WireEvent) (version : ℤ) (received_at : Time) (e : Event Time)
      → validate_event Time parse_time parse_json write_json raw version received_at ≡ ok e
      → IsValid e
  validate_event-IsValid raw version received_at e h =
      Passed-IsValid e (validate_event-Passed raw version received_at e h)
