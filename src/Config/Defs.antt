-- ===== src/Config/Defs.antt =====
-- The types of src/config.rs with their default values. A path is its text.
use icloud_location.Prelude.{ℕ, Bool, true, Option, none, List, [], String}
use icloud_location.Prelude.Int.{ℤ, pos}
use icloud_location.Std.Float.{Float}
use icloud_location.Tracking.Error.{TrackingError}
use icloud_location.Tracking.Zone.Defs.{Zone}

pub data AppleRegion : Type 0 where
  global china_gcj02 china_bd09 china_wgs84 : AppleRegion

pub record AccountConfig : Type 0 where
  pub username : String
  pub region : AppleRegion
  pub session_root : Option String
  pub device_ids : List String

pub record TrackingConfig (F : Type 0) : Type 0 where
  pub tick_seconds : ℕ
  pub prefetch_seconds : ℕ
  pub default_interval_seconds : ℕ
  pub maximum_interval_seconds : ℕ
  pub gps_accuracy_threshold_meters : F
  pub old_location_adjustment_seconds : ℤ
  pub old_location_maximum_seconds : ℕ
  pub pass_through_delay_seconds : ℕ
  pub stationary_enabled : Bool
  pub stationary_still_seconds : ℕ
  pub stationary_radius_meters : F
  pub in_zone_interval_seconds : ℕ
  pub stationary_interval_seconds : ℕ
  pub exit_zone_interval_seconds : ℕ
  pub fixed_interval_seconds : ℕ
  pub travel_time_factor : F

pub record WazeConfig (F : Type 0) : Type 0 where
  pub region : String
  pub real_time : Bool
  pub minimum_distance_km : F
  pub maximum_distance_km : F
  pub history_database : Option String

pub record ExternalSourceConfig : Type 0 where
  pub id : String
  pub alive_interval_seconds : ℕ
  pub request_throttle_seconds : ℕ

pub record AwayTimeZoneConfig : Type 0 where
  pub offset_hours : ℤ
  pub device_ids : List String

pub record AppConfig (F : Type 0) : Type 0 where
  pub version : ℕ
  pub accounts : List AccountConfig
  pub tracking : TrackingConfig F
  pub zones : List (Zone F)
  pub base_zone_id : Option String
  pub tracked_from_zones : List String
  pub waze : Option (WazeConfig F)
  pub external_sources : List ExternalSourceConfig
  pub away_time_zones : List AwayTimeZoneConfig

pub data ConfigError : Type 0 where
  no_configuration_directory : ConfigError
  unsupported_version : ℕ → ConfigError
  invalid : String → ConfigError
  zone : TrackingError → ConfigError
  io toml_deserialize toml_serialize : String → ConfigError

abbrev pub current_config_version : ℕ
current_config_version = 1

module _ {F : Type 0} (f : Float F) where
  -- `TrackingConfig::default()`
  unfoldable pub default_tracking : TrackingConfig F
  default_tracking = record {
    tick_seconds = 5;
    prefetch_seconds = 15;
    default_interval_seconds = 60;
    maximum_interval_seconds = 7200;
    gps_accuracy_threshold_meters = f.decimal 100 0;
    old_location_adjustment_seconds = pos 0;
    old_location_maximum_seconds = 0;
    pass_through_delay_seconds = 60;
    stationary_enabled = true;
    stationary_still_seconds = 1800;
    stationary_radius_meters = f.decimal 100 0;
    in_zone_interval_seconds = 120;
    stationary_interval_seconds = 300;
    exit_zone_interval_seconds = 30;
    fixed_interval_seconds = 0;
    travel_time_factor = f.decimal 5 1;
  }

  -- `AppConfig::default()`
  unfoldable pub default_config : AppConfig F
  unfolding default_tracking
  default_config = record {
    version = current_config_version;
    accounts = [];
    tracking = default_tracking;
    zones = [];
    base_zone_id = none;
    tracked_from_zones = [];
    waze = none;
    external_sources = [];
    away_time_zones = [];
  }

  -- `WazeConfig::default()`
  unfoldable pub default_waze : WazeConfig F
  default_waze = record {
    region = "eu";
    real_time = true;
    minimum_distance_km = f.decimal 1 0;
    maximum_distance_km = f.decimal 100 0;
    history_database = none;
  }

-- `AccountConfig::default()` and `ExternalSourceConfig::default()`
abbrev pub default_account : AccountConfig
default_account = record { username = ""; region = global; session_root = none; device_ids = [] }

abbrev pub default_source : ExternalSourceConfig
default_source = record { id = ""; alive_interval_seconds = 1200; request_throttle_seconds = 60 }
