-- ===== src/Runtime/Defs.antt =====
-- The configuration, the state and the errors of src/runtime.rs, and what the runtime calls.
--
-- A `std::time::Duration` is its number of nanoseconds.
use icloud_location.Prelude.{ℕ, ◌/◌, Option, String, List}
use icloud_location.Prelude.Int.{ℤ}
use icloud_location.Std.Result.{Result}
use icloud_location.Std.Float.{Float}
use icloud_location.Std.Chrono.{Chrono}
use icloud_location.Std.TreeMap.{TreeMap, TreeSet}
use icloud_location.Core.{
  DeviceSnapshot, LocationRequest, ProviderError, EventSinkError, TrackingEvent,
}
use icloud_location.Routing.{
  RouteRequest, RouteEstimate, RouteHistoryEntry, RouteHistoryQuery, RoutingError,
}
use icloud_location.Tracking.Error.{TrackingError}
use icloud_location.Tracking.Quality.Defs.{LocationQualityPolicy}
use icloud_location.Tracking.Zone.Defs.{ZoneSet}
use icloud_location.Tracking.ZoneState.Defs.{PassThroughPolicy}
use icloud_location.Tracking.Stationary.Defs.{StationaryPolicy}
use icloud_location.Tracking.State.Defs.{DeviceTrackingState}
use icloud_location.Tracking.State.Events.{TrackingState}

-- `Duration::as_secs`
abbrev pub as_secs : ℕ → ℕ
as_secs d = d / 1000000000

pub record RuntimeConfig (F : Type 0) : Type 0 where
  pub tick_interval : ℕ
  pub prefetch_window : ℕ
  pub default_update_interval : ℕ
  pub location_quality : LocationQualityPolicy F
  pub zones : ZoneSet F
  pub base_zone_id : Option String
  pub pass_through : PassThroughPolicy
  pub stationary : StationaryPolicy F
  pub maximum_update_interval : ℕ
  pub away_time_zone_offsets : TreeMap ℤ
  pub old_location_adjustment_seconds : ℤ
  pub old_location_maximum_seconds : Option ℕ
  pub in_zone_interval : ℕ
  pub stationary_interval : ℕ
  pub exit_zone_interval : ℕ
  pub fixed_interval : Option ℕ
  pub travel_time_factor : F

pub data RuntimeError : Type 0 where
  invalid_configuration unknown_account unknown_device external_request external_source
        invalid_external_trigger :
      String → RuntimeError
  invalid_external_battery : RuntimeError
  tracking : TrackingError → RuntimeError
  event : EventSinkError → RuntimeError

-- The types and the operations that the runtime is given. `W` is the world outside: a call takes it
-- and gives it back changed. `P`, `R` and `H` are the providers of locations and of routes, and the
-- history of routes.
pub record Env : Type 1 where
  pub F : Type 0
  pub I : Type 0
  pub D : Type 0
  pub J : Type 0
  pub W : Type 0
  pub P : Type 0
  pub R : Type 0
  pub H : Type 0
  pub float : Float F
  pub chrono : Chrono I D
  -- `serde_json::Value::Null`
  pub null : J
  -- `Clock::now`
  pub now : W → I × W
  -- `TrackingStateStore::save`
  pub save : TrackingState F I J → W → Result TrackingError (Unit {0}) × W
  -- `EventSink::emit`
  pub emit : TrackingEvent I → W → Result EventSinkError (Unit {0}) × W
  -- `LocationProvider::locate`
  pub locate : P → LocationRequest → W → Result ProviderError (List (DeviceSnapshot F I J)) × W
  -- `RouteProvider::route`, `RouteHistoryStore::lookup` and `RouteHistoryStore::store`
  pub route : R → RouteRequest F I → W → Result RoutingError (RouteEstimate F) × W
  pub lookup :
      H → RouteHistoryQuery F → W → Result RoutingError (Option (RouteHistoryEntry F I)) × W
  pub store : H → RouteHistoryEntry F I → W → Result RoutingError (RouteHistoryEntry F I) × W

pub record AccountRuntime (I P : Type 0) : Type 0 where
  pub provider : P
  pub configured_device_ids : Option TreeSet
  pub device_ids : TreeSet
  pub next_discovery_at : I
  pub authentication_error_count : ℕ

-- `TrackingRuntime`, with the world in place of the store, the event sink and the clock.
pub record Runtime (e : Env) : Type 0 where
  pub config : RuntimeConfig e.F
  pub accounts : TreeMap (AccountRuntime e.I e.P)
  pub state : TrackingState e.F e.I e.J
  pub route_provider : Option e.R
  pub route_history : Option e.H
  pub world : e.W

abbrev pub Device : Env → Type 0
Device e = DeviceTrackingState e.F e.I e.J
