-- ===== src/Tracking/State/Snapshot.antt =====
-- `DeviceTrackingSnapshot` and `TrackingSnapshot` of crates/icloud-tracking/src/state.rs.
--
-- `Z` is `DateTime<FixedOffset>`: `with_offset` is `FixedOffset::east_opt` followed by
-- `with_timezone`, of the crate `chrono`.
use icloud_location.Prelude.{
  ℕ, ◌+◌, ◌*◌, ◌==◌, Bool, Option, none, some, List, [], ◌∷◌, String, ltb, if◌then◌else◌, map,
  map_option, unwrap_or,
}
use icloud_location.Prelude.Int.{ℤ, pos, negsuc}
use icloud_location.Std.Result.{ok, panic, ◌>>=◌, or_panic}
use icloud_location.Std.Words.{i64_max}
use icloud_location.Std.Chrono.{Chrono}
use icloud_location.Std.TreeMap.{TreeMap}
use icloud_location.Core.{LocationSample, LocationSourceKind, BatterySnapshot, DeviceAvailability}
use icloud_location.Tracking.Error.{Tracked}
use icloud_location.Tracking.External.Defs.{ExternalSourceHealth}
use icloud_location.Tracking.Interval.Defs.{Direction}
use icloud_location.Tracking.Quality.Defs.{LocationQuality}
use icloud_location.Tracking.ZoneState.Defs.{counts}
use icloud_location.Tracking.State.Defs.{DeviceTrackingState, TrackFromZoneState}
use icloud_location.Tracking.State.Device.{offline_duration_seconds, seconds_since}
use icloud_location.Tracking.State.Events.{TrackingState}

pub record TrackFromZoneSnapshot (F I : Type 0) : Type 0 where
  pub distance_km : Option F
  pub direction : Direction
  pub next_update_at : Option I

pub record DeviceTrackingSnapshot (F I J Z : Type 0) : Type 0 where
  pub device_id : String
  pub name : Option String
  pub model : Option String
  pub family_shared : Option Bool
  pub availability : Option DeviceAvailability
  pub offline_duration_seconds : ℕ
  pub location_age_seconds : Option ℕ
  pub current_location : Option (LocationSample F I)
  pub previous_location : Option (LocationSample F I)
  pub current_zone : Option String
  pub zone_distances_km : TreeMap F
  pub track_from_zones : TreeMap (TrackFromZoneSnapshot F I)
  pub direction : Direction
  pub distance_moved_meters : Option F
  pub location_quality : Option LocationQuality
  pub next_update_at : Option I
  pub battery : Option BatterySnapshot
  pub battery_updated_at : Option I
  pub battery_source : Option LocationSourceKind
  pub route_zone_id : Option String
  pub route_distance_km : Option F
  pub route_duration_seconds : Option ℕ
  pub arrival_at : Option I
  pub nearby_group : Option ℕ
  pub nearby_device_id : Option String
  pub nearby_device_distance_meters : Option F
  pub away_time_zone_offset_hours : ℤ
  pub away_time_zone_time : Option Z
  pub raw_device : J

pub record TrackingSnapshot (F I J Z : Type 0) : Type 0 where
  pub version : ℕ
  pub generated_at : I
  pub devices : List (DeviceTrackingSnapshot F I J Z)
  pub zone_occupancy : TreeMap ℕ
  pub external_source_health : TreeMap (ExternalSourceHealth I)

module _ {I D : Type 0} (c : Chrono I D) where
  -- The time of arrival, unless the duration is no `i64`; a sum out of range is a panic.
  unfoldable pub arrival_time : Option ℕ → Option I → I → Tracked (Option I)
  arrival_time none updated now = ok none
  arrival_time (some n) updated now = if ltb i64_max n then ok none else (do
    d ← or_panic (c.seconds (pos n))
    at ← or_panic (c.plus (unwrap_or updated now) d)
    ok (some at))

module _ {I Z : Type 0} (with_offset : ℤ → I → Option Z) where
  -- The local time away from home: none without an offset. The seconds are an `i32`, and an
  -- overflow is a panic, as it is where overflow is checked.
  unfoldable pub away_time : ℤ → I → Tracked (Option Z)
  away_time (pos n) now =
      if n == 0
      then ok none
      else if ltb 596523 n
      then panic
      else ok (with_offset (pos (n * 3600)) now)
  away_time (negsuc n) now =
      if ltb 596522 n then panic else ok (with_offset (negsuc (n * 3600 + 3599)) now)

abbrev track_snapshot : {F I : Type 0} → TrackFromZoneState F I → TrackFromZoneSnapshot F I
track_snapshot track = record {
  distance_km = track.last_distance_km;
  direction = track.direction;
  next_update_at = track.next_update_at;
}

module _ {F I D J Z : Type 0} (c : Chrono I D) (with_offset : ℤ → I → Option Z) where
  -- `DeviceTrackingSnapshot::from_state`
  unfoldable pub from_state :
      DeviceTrackingState F I J → I → Tracked (DeviceTrackingSnapshot F I J Z)
  from_state s generated_at = do
    arrival_at ← arrival_time c s.route_duration_seconds s.route_updated_at generated_at
    away_time_zone_time ← away_time with_offset s.away_time_zone_offset_hours generated_at
    ok (record {
      device_id = s.device_id;
      name = s.name;
      model = s.model;
      family_shared = s.family_shared;
      availability = s.availability;
      offline_duration_seconds = offline_duration_seconds c generated_at s;
      location_age_seconds =
          map_option (λ l. seconds_since c (some l.timestamp) generated_at) s.current_location;
      current_location = s.current_location;
      previous_location = s.previous_location;
      current_zone = s.current_zone;
      zone_distances_km = s.zone_distances_km;
      track_from_zones = map (λ (id, track). (id, track_snapshot track)) s.track_from_zones;
      direction = s.direction;
      distance_moved_meters = s.distance_moved_meters;
      location_quality = s.location_quality;
      next_update_at = s.next_update_at;
      battery = s.battery;
      battery_updated_at = s.battery_updated_at;
      battery_source = s.battery_source;
      route_zone_id = s.route_zone_id;
      route_distance_km = s.route_distance_km;
      route_duration_seconds = s.route_duration_seconds;
      arrival_at = arrival_at;
      nearby_group = s.nearby_group;
      nearby_device_id = s.nearby_device_id;
      nearby_device_distance_meters = s.nearby_device_distance_meters;
      away_time_zone_offset_hours = s.away_time_zone_offset_hours;
      away_time_zone_time = away_time_zone_time;
      raw_device = s.raw_device;
    })

  -- The devices of a snapshot, in the order of their keys.
  unfoldable pub snapshot_devices :
      TreeMap (DeviceTrackingState F I J) → I → Tracked (List (DeviceTrackingSnapshot F I J Z))
  snapshot_devices [] generated_at = ok []
  snapshot_devices ((_, device) ∷ devices) generated_at = do
    first ← from_state device generated_at
    rest ← snapshot_devices devices generated_at
    ok (first ∷ rest)

  -- `TrackingState::snapshot`
  unfoldable pub snapshot : TrackingState F I J → I → Tracked (TrackingSnapshot F I J Z)
  snapshot s generated_at = do
    devices ← snapshot_devices s.devices generated_at
    ok (record {
      version = s.version;
      generated_at = generated_at;
      devices = devices;
      zone_occupancy = counts s.zone_occupancy;
      external_source_health = s.external_source_health;
    })
