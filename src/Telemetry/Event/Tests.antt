-- ===== src/Telemetry/Event/Tests.antt =====
-- A small event and a small value.
use ti_cli.Common.{ℕ, none, some, [], ◌∷◌, ◌≡◌, refl}
use ti_cli.Common.Int.{pos}
use ti_cli.Common.Text.{codes, eqb, byte_len, rune_len, has_prefix}
use ti_cli.Common.Result.{ok}
use ti_cli.Telemetry.Event.{
  Json, scalar, array, object, no_items, item, no_members, member, WireEvent, Event,
}
use ti_cli.Telemetry.Event.Patterns.{
  event_id_matches, installation_id_matches, flag_name_matches, all_words, command_path_matches,
  split_spaces, error_code_matches, cli_version_matches, one_of, class_between, all, is_word,
  is_alnum_ascii, is_lower, is_digit,
}
use ti_cli.Telemetry.Event.Checks.{validate_event, validate_metadata, valid_string, within}
use ti_cli.Telemetry.Event.Valid.{IsValid, validate_event-IsValid}

abbrev sample : WireEvent
sample = record {
  event_id = codes "abcdefghijklmnop";
  event_name = codes "ti.command.finished";
  occurred_at = codes "2025-01-01T00:00:00Z";
  anonymous_installation_id = codes "ti_abcdefghijklmnop";
  command_path = codes "ti db list";
  flag_names = some (codes "limit" ∷ []);
  exit_code = some (pos 0);
  error_code = [];
  duration_ms = some (pos 12);
  cloud_provider = codes "aws";
  region_code = codes "aws-us-east-1";
  cli_version = codes "1.2.3";
  os = codes "linux";
  arch = codes "arm64";
  install_source = codes "homebrew";
  profile_source = codes "env";
  tag = none;
  extra = none;
}

abbrev kept : Event ℕ
kept = record {
  event_id = sample.event_id;
  event_name = sample.event_name;
  occurred_at = 7;
  received_at = 9;
  anonymous_installation_id = sample.anonymous_installation_id;
  command_path = sample.command_path;
  flag_names = codes "limit" ∷ [];
  exit_code = pos 0;
  error_code = [];
  duration_ms = pos 12;
  cloud_provider = sample.cloud_provider;
  region_code = sample.region_code;
  cli_version = sample.cli_version;
  os = sample.os;
  arch = sample.arch;
  install_source = sample.install_source;
  profile_source = sample.profile_source;
  tag = [];
  extra = none;
  schema_version = pos 1;
}

sample_run : validate_event ℕ (λ _. some 7) (λ _. none) (λ _. none) sample (pos 1) 9 ≡ ok kept
unfolding validate_event validate_metadata valid_string within event_id_matches
    installation_id_matches flag_name_matches all_words command_path_matches split_spaces
    error_code_matches cli_version_matches one_of class_between all is_word is_alnum_ascii is_lower
    is_digit eqb byte_len rune_len has_prefix
sample_run = refl

validate_event-IsValid_example : IsValid kept
validate_event-IsValid_example =
    validate_event-IsValid ℕ (λ _. some 7) (λ _. none) (λ _. none) sample (pos 1) 9 kept sample_run

abbrev nested : Json
nested = array (item (object (member (codes "Token") scalar no_members)) no_items)
