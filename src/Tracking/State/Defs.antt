-- ===== src/Tracking/State/Defs.antt =====
-- The records of crates/icloud-tracking/src/state.rs.
--
-- `J` is `serde_json::Value`, the raw data of a device, which the crate only stores.
use icloud_location.Prelude.{ℕ, Bool, false, Option, none, [], String}
use icloud_location.Prelude.Int.{ℤ, pos}
use icloud_location.Std.TreeMap.{TreeMap, TreeSet}
use icloud_location.Core.{LocationSample, LocationSourceKind, BatterySnapshot, DeviceAvailability}
use icloud_location.Tracking.Interval.Defs.{Direction, unknown}
use icloud_location.Tracking.Direction.Defs.{DirectionHistory, empty_history}
use icloud_location.Tracking.ZoneState.Defs.{ZoneTransitionState, outside}
use icloud_location.Tracking.Quality.Defs.{LocationQuality}

pub record AccountTrackingState (I : Type 0) : Type 0 where
  pub device_ids : TreeSet
  pub authentication_error_count : ℕ
  pub next_discovery_at : Option I

pub record TrackFromZoneState (F I : Type 0) : Type 0 where
  pub zone_id : String
  pub last_distance_km : Option F
  pub direction : Direction
  pub direction_history : DirectionHistory
  pub went_beyond_three_km : Bool
  pub next_update_at : Option I

pub record DeviceTrackingState (F I J : Type 0) : Type 0 where
  pub device_id : String
  pub current_location : Option (LocationSample F I)
  pub previous_location : Option (LocationSample F I)
  pub last_update_at : Option I
  pub next_update_at : Option I
  pub current_zone : Option String
  pub zone_transition : ZoneTransitionState I
  pub direction : Direction
  pub direction_history : DirectionHistory
  pub last_zone_distance_km : Option F
  pub zone_distances_km : TreeMap F
  pub track_from_zones : TreeMap (TrackFromZoneState F I)
  pub went_beyond_three_km : Bool
  pub distance_moved_meters : Option F
  pub location_quality : Option LocationQuality
  pub consecutive_bad_updates : ℕ
  pub authentication_error_count : ℕ
  pub paused : Bool
  pub battery : Option BatterySnapshot
  pub battery_updated_at : Option I
  pub battery_source : Option LocationSourceKind
  pub name : Option String
  pub model : Option String
  pub family_shared : Option Bool
  pub availability : Option DeviceAvailability
  pub offline_since : Option I
  pub raw_device : J
  pub route_zone_id : Option String
  pub route_distance_km : Option F
  pub route_duration_seconds : Option ℕ
  pub route_updated_at : Option I
  pub nearby_group : Option ℕ
  pub nearby_device_id : Option String
  pub nearby_device_distance_meters : Option F
  pub away_time_zone_offset_hours : ℤ

module _ {F I J : Type 0} (null : J) where
  -- `DeviceTrackingState::new`, with `serde_json::Value::Null`.
  abbrev pub new_device : String → DeviceTrackingState F I J
  new_device id = record {
    device_id = id;
    current_location = none;
    previous_location = none;
    last_update_at = none;
    next_update_at = none;
    current_zone = none;
    zone_transition = outside;
    direction = unknown;
    direction_history = empty_history;
    last_zone_distance_km = none;
    zone_distances_km = [];
    track_from_zones = [];
    went_beyond_three_km = false;
    distance_moved_meters = none;
    location_quality = none;
    consecutive_bad_updates = 0;
    authentication_error_count = 0;
    paused = false;
    battery = none;
    battery_updated_at = none;
    battery_source = none;
    name = none;
    model = none;
    family_shared = none;
    availability = none;
    offline_since = none;
    raw_device = null;
    route_zone_id = none;
    route_distance_km = none;
    route_duration_seconds = none;
    route_updated_at = none;
    nearby_group = none;
    nearby_device_id = none;
    nearby_device_distance_meters = none;
    away_time_zone_offset_hours = pos 0;
  }
