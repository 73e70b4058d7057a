-- ===== src/Telemetry/Event.antt =====
-- Events of the telemetry backend as they arrive and as they are kept
-- (internal/telemetrybackend/event.go), and decoded JSON. Text is valid UTF-8.
pub mod Patterns
pub mod Extra
pub mod Checks
pub mod Shapes
pub mod Valid
mod Tests
use ti_cli.Common.{ℕ, Option, List}
use ti_cli.Common.Int.{ℤ}
use ti_cli.Common.Text.{Text}

-- Numbers, strings, booleans and null are `scalar`; the members of an object stand in some order.
mutual
  pub data Json : Type 0 where
    scalar : Json
    array : Items → Json
    object : Members → Json

  pub data Items : Type 0 where
    no_items : Items
    item : Json → Items → Items

  pub data Members : Type 0 where
    no_members : Members
    member : Text → Json → Members → Members

pub data EventError : Type 0 where
  prohibited_field invalid_schema multiple_values unsupported_version : EventError
  invalid_sent_at invalid_event_count invalid_event_id invalid_event_name : EventError
  invalid_occurred_at invalid_installation_id invalid_command_path : EventError
  invalid_flag_names invalid_exit_code invalid_error_code invalid_duration : EventError
  invalid_cloud_provider invalid_region_code invalid_cli_version invalid_os : EventError
  invalid_arch invalid_install_source invalid_profile_source : EventError
  metadata_needs_v2 invalid_tag invalid_extra : EventError

-- A field that may be absent is an option.
pub record WireEvent : Type 0 where
  pub event_id : Text
  pub event_name : Text
  pub occurred_at : Text
  pub anonymous_installation_id : Text
  pub command_path : Text
  pub flag_names : Option (List Text)
  pub exit_code : Option ℤ
  pub error_code : Text
  pub duration_ms : Option ℤ
  pub cloud_provider : Text
  pub region_code : Text
  pub cli_version : Text
  pub os : Text
  pub arch : Text
  pub install_source : Text
  pub profile_source : Text
  pub tag : Option Text
  pub extra : Option Text

pub record BatchRequest : Type 0 where
  pub schema_version : ℤ
  pub sent_at : Text
  pub events : List WireEvent

-- `Time` is that of the standard library.
pub record Event (Time : Type 0) : Type 0 where
  pub event_id : Text
  pub event_name : Text
  pub occurred_at : Time
  pub received_at : Time
  pub anonymous_installation_id : Text
  pub command_path : Text
  pub flag_names : List Text
  pub exit_code : ℤ
  pub error_code : Text
  pub duration_ms : ℤ
  pub cloud_provider : Text
  pub region_code : Text
  pub cli_version : Text
  pub os : Text
  pub arch : Text
  pub install_source : Text
  pub profile_source : Text
  pub tag : Text
  pub extra : Option Text
  pub schema_version : ℤ
