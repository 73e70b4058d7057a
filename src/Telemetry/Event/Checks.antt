-- ===== src/Telemetry/Event/Checks.antt =====
-- The validation of a batch (`decodeAndValidateBatch` and what it calls in
-- internal/telemetrybackend/event.go). The parsers of JSON and of RFC 3339 times and the JSON
-- writer of the standard library are parameters.
use ti_cli.Common.{
  ℕ, Bool, true, false, not, ◌&&◌, ◌||◌, Option, none, some, List, [], ◌∷◌, ltb, leb, ◌==◌,
  if◌then◌else◌, length,
}
use ti_cli.Common.Int.{ℤ, pos, ltb_ℤ, eqb_ℤ}
use ti_cli.Common.Text.{Text, codes, eqb, byte_len}
use ti_cli.Common.Result.{Result, ok, err, ◌>>=◌, ◌>>◌}
use ti_cli.Telemetry.Event.{
  Json, EventError, WireEvent, BatchRequest, Event, prohibited_field, invalid_schema,
  multiple_values, unsupported_version, invalid_sent_at, invalid_event_count, invalid_event_id,
  invalid_event_name, invalid_occurred_at, invalid_installation_id, invalid_command_path,
  invalid_flag_names, invalid_exit_code, invalid_error_code, invalid_duration,
  invalid_cloud_provider, invalid_region_code, invalid_cli_version, invalid_os, invalid_arch,
  invalid_install_source, invalid_profile_source, metadata_needs_v2, invalid_tag, invalid_extra,
}
use ti_cli.Telemetry.Event.Patterns.{
  event_id_matches, installation_id_matches, all_words, command_path_matches, error_code_matches,
  cli_version_matches, one_of, allowed_regions, allowed_operating_systems, allowed_architectures,
}
use ti_cli.Telemetry.Event.Extra.{walk_for_disallowed_field, walk_for_invalid_extra}

abbrev pub Checked : Type 0 → Type 0
Checked = Result EventError

-- `if !c { return e }`.
abbrev pub check : Bool → EventError → Checked (Unit {0})
check true e = ok tt
check false e = err e

abbrev pub or_fail : {A : Type 0} → Option A → EventError → Checked A
or_fail none e = err e
or_fail (some a) e = ok a

-- `validString`; its other test is that of UTF-8.
unfoldable pub valid_string : Text → ℕ → Bool
valid_string s max_bytes = leb (byte_len s) max_bytes

unfoldable pub within : ℤ → ℕ → Bool
within n high = not (ltb_ℤ n (pos 0)) && not (ltb_ℤ (pos high) n)

abbrev pub cloud_providers : List Text
cloud_providers =
    [] ∷ codes "aws" ∷ codes "alibaba_cloud" ∷ codes "gcp" ∷ codes "azure" ∷ codes "unknown" ∷ []

abbrev pub install_sources : List Text
install_sources =
    []
    ∷ codes "github-release"
    ∷ codes "homebrew"
    ∷ codes "scoop"
    ∷ codes "source"
    ∷ codes "dev"
    ∷ codes "unknown"
    ∷ []

abbrev pub profile_sources : List Text
profile_sources = [] ∷ codes "default" ∷ codes "explicit" ∷ codes "env" ∷ codes "unknown" ∷ []

-- `parse_json` also says whether the text ends after the value.
module _ (Time : Type 0) (parse_time : Text → Option Time)
    (parse_json : Text → Option (Json × Bool)) (write_json : Json → Option Text) where
  unfoldable pub validate_extra : Option Text → Checked (Option Text)
  validate_extra none = ok none
  validate_extra (some raw) = do
    (value, ends) ← or_fail (parse_json raw) invalid_extra
    check ends invalid_extra
    check (not (walk_for_invalid_extra value 0)) invalid_extra
    encoded ← or_fail (write_json value) invalid_extra
    check (leb (byte_len encoded) 2048) invalid_extra
    ok (some encoded)

  abbrev pub is_none : {A : Type 0} → Option A → Bool
  is_none none = true
  is_none (some a) = false

  unfoldable pub validate_tag : Option Text → Checked Text
  unfolding valid_string
  validate_tag none = ok []
  validate_tag (some tag) = do check (valid_string tag 128) invalid_tag; ok tag

  -- `validateMetadata` from schema version 2 on.
  unfoldable pub read_metadata : WireEvent → Checked (Text × Option Text)
  unfolding validate_extra validate_tag
  read_metadata raw = do
    tag ← validate_tag raw.tag
    extra ← validate_extra raw.extra
    ok (tag, extra)

  unfoldable pub validate_metadata : WireEvent → ℤ → Checked (Text × Option Text)
  unfolding read_metadata
  validate_metadata raw version =
      if eqb_ℤ version (pos 1)
      then check (is_none raw.tag && is_none raw.extra) metadata_needs_v2 >> ok ([], none)
      else read_metadata raw

  unfoldable pub validate_event : WireEvent → ℤ → Time → Checked (Event Time)
  unfolding validate_metadata
  validate_event raw version received_at = do
    check (event_id_matches raw.event_id) invalid_event_id
    check
        (eqb raw.event_name (codes "ti.command.finished")
          || eqb raw.event_name (codes "tdc.command.finished"))
        invalid_event_name
    occurred_at ← or_fail (parse_time raw.occurred_at) invalid_occurred_at
    check (installation_id_matches raw.anonymous_installation_id) invalid_installation_id
    check (valid_string raw.command_path 128 && command_path_matches raw.command_path)
        invalid_command_path
    flag_names ← or_fail raw.flag_names invalid_flag_names
    check (leb (length flag_names) 64) invalid_flag_names
    check (all_words flag_names) invalid_flag_names
    exit_code ← or_fail raw.exit_code invalid_exit_code
    check (within exit_code 255) invalid_exit_code
    check (error_code_matches raw.error_code) invalid_error_code
    duration_ms ← or_fail raw.duration_ms invalid_duration
    check (within duration_ms 86400000) invalid_duration
    check (one_of raw.cloud_provider cloud_providers) invalid_cloud_provider
    check (one_of raw.region_code allowed_regions) invalid_region_code
    check (cli_version_matches raw.cli_version) invalid_cli_version
    check (one_of raw.os allowed_operating_systems) invalid_os
    check (one_of raw.arch allowed_architectures) invalid_arch
    check (one_of raw.install_source install_sources) invalid_install_source
    check (one_of raw.profile_source profile_sources) invalid_profile_source
    (tag, extra) ← validate_metadata raw version
    ok (record {
      event_id = raw.event_id;
      event_name = raw.event_name;
      occurred_at = occurred_at;
      received_at = received_at;
      anonymous_installation_id = raw.anonymous_installation_id;
      command_path = raw.command_path;
      flag_names = flag_names;
      exit_code = exit_code;
      error_code = raw.error_code;
      duration_ms = duration_ms;
      cloud_provider = raw.cloud_provider;
      region_code = raw.region_code;
      cli_version = raw.cli_version;
      os = raw.os;
      arch = raw.arch;
      install_source = raw.install_source;
      profile_source = raw.profile_source;
      tag = tag;
      extra = extra;
      schema_version = version;
    })

  unfoldable pub validate_events : List WireEvent → ℤ → Time → Checked (List (Event Time))
  unfolding validate_event
  validate_events [] version received_at = ok []
  validate_events (raw ∷ raws) version received_at = do
    event ← validate_event raw version received_at
    events ← validate_events raws version received_at
    ok (event ∷ events)

  unfoldable pub has_disallowed_field : Text → Bool
  has_disallowed_field body = elim (parse_json body) [
    | none ↦ false
    | some (value, ends) ↦ ends && walk_for_disallowed_field value
  ]

  -- `decode_request` reads one request with no unknown field, and says whether the body ends there.
  unfoldable pub decode_and_validate_batch :
      (Text → Option (BatchRequest × Bool)) → Text → ℕ → Time → Checked (List (Event Time))
  unfolding has_disallowed_field validate_events
  decode_and_validate_batch decode_request body max_events received_at = do
    check (not (has_disallowed_field body)) prohibited_field
    (request, ends) ← or_fail (decode_request body) invalid_schema
    check ends multiple_values
    check (eqb_ℤ request.schema_version (pos 1) || eqb_ℤ request.schema_version (pos 2))
        unsupported_version
    sent_at ← or_fail (parse_time request.sent_at) invalid_sent_at
    check (not (length request.events == 0) && not (ltb max_events (length request.events)))
        invalid_event_count
    validate_events request.events request.schema_version received_at
