-- ===== src/Runtime/Refresh/Interval.antt =====
-- The direction and the interval of a device, in `apply_refresh` (src/runtime.rs).
use text.Mathlib.Text.{starts_with}
use icloud_location.Prelude.{
  ℕ, Bool, true, false, ◌||◌, Option, none, some, String, str_eq, is_some, is_some_and, unwrap_or,
  map_option,
}
use icloud_location.Std.Result.{Result, or_panic}
use icloud_location.Std.Float.{Float}
use icloud_location.Std.Chrono.{Chrono}
use icloud_location.Std.Filter.{filter}
use icloud_location.Std.Sort.{first}
use icloud_location.Std.Words.{i64_or_max}
use icloud_location.Prelude.Int.{pos}
use icloud_location.Core.{LocationSample, distance_meters}
use icloud_location.Tracking.Direction.Defs.{
  DirectionInput, DirectionDecision, record_decision, determine_direction,
}
use icloud_location.Tracking.Interval.Defs.{Direction}
use icloud_location.Tracking.Interval.Determine.{
  TrackingIntervalContext, TrackingIntervalDecision, determine,
}
use icloud_location.Tracking.Quality.Defs.{
  LocationQuality, good, grace, rejected, RejectionReason, old_location, poor_gps,
}
use icloud_location.Tracking.Stationary.Defs.{StationaryZone, StationaryZoneManager, device_zone}
use icloud_location.Tracking.ZoneState.Defs.{update_occupancy}
use icloud_location.Tracking.State.Defs.{DeviceTrackingState}
use icloud_location.Runtime.Defs.{Env, RuntimeConfig, RuntimeError, as_secs}
use icloud_location.Runtime.Refresh.Sighting.{is_good}
use icloud_location.Runtime.Refresh.Route.{Route}
use icloud_location.Runtime.Action.{
  Action, pure, gets, tracked, on_state, on_device, device, ◌>>=◌, ◌>>◌,
}

-- What is known of an update where its interval is determined.
pub record Facts (F : Type 0) : Type 0 where
  pub quality : Option LocationQuality
  pub offline : Bool
  pub external_update : Bool
  pub external_exit : Bool
  pub previous_zone : Option String
  pub final_zone : Option String
  pub closest_zone_id : Option String
  pub distance_from_zone_km : F
  pub route : Option (Route F)
  pub state_changed : Bool

abbrev has_reason : (RejectionReason → Bool) → Option LocationQuality → Bool
has_reason is none = false
has_reason is (some good) = false
has_reason is (some (grace r)) = is r
has_reason is (some (rejected r)) = is r

abbrev is_old_location : RejectionReason → Bool
is_old_location old_location = true
is_old_location _ = false

abbrev is_poor_gps : RejectionReason → Bool
is_poor_gps poor_gps = true
is_poor_gps _ = false

-- `zone.starts_with("stationary_")`
abbrev pub is_stationary_name : Option String → Bool
is_stationary_name zone = is_some_and zone (λ id. starts_with id "stationary_")

module _ {F I J : Type 0} (f : Float F) where
  -- The distance of the stationary zone of a device.
  abbrev center_distance : DeviceTrackingState F I J → StationaryZone F I → Option F
  center_distance d zone =
      map_option
        (λ (l : LocationSample F I).
          f.div (distance_meters f l.coordinates zone.center) (f.decimal 1000 0))
        d.current_location

  unfoldable pub stationary_distance :
      Option String → DeviceTrackingState F I J → StationaryZoneManager F I → Option F
  stationary_distance zone d m =
      elim (first (filter (λ z. is_some_and zone (λ id. str_eq id z.id)) m.zones)) [
        | none ↦ none
        | some z ↦ center_distance d z
      ]

module _ {F I J : Type 0} (f : Float F) where
  -- The context of a target at a distance, with the travel time where a route is known.
  unfoldable pub context_of :
      RuntimeConfig F
      → Facts F
      → DeviceTrackingState F I J
      → Bool
      → Bool
      → Bool
      → F
      → Direction
      → Bool
      → Option ℕ
      → TrackingIntervalContext F
  context_of c facts d changed in_target was_in_target distance direction beyond travel = record {
    state_changed = changed;
    in_zone = in_target;
    was_in_zone = was_in_target;
    in_stationary_zone = is_stationary_name facts.final_zone;
    stationary_zone_is_small = is_stationary_name facts.final_zone;
    external_exit_trigger_recent = facts.external_exit;
    external_update = facts.external_update;
    location_old = has_reason is_old_location facts.quality;
    gps_poor = has_reason is_poor_gps facts.quality;
    location_good = is_good facts.quality;
    offline = facts.offline;
    pass_through_timer_active = is_some d.zone_transition.pending_zone;
    battery_percent = elim d.battery [ none ↦ none | some b ↦ b.level_percent ];
    distance_from_zone_km = distance;
    direction = direction;
    went_beyond_three_km = beyond;
    waze_enabled = is_some travel;
    waze_travel_seconds = travel;
    travel_time_factor = c.travel_time_factor;
    in_zone_interval_seconds = as_secs c.in_zone_interval;
    stationary_interval_seconds = as_secs c.stationary_interval;
    exit_zone_interval_seconds = as_secs c.exit_zone_interval;
    old_location_threshold_seconds = c.location_quality.old_location_threshold_seconds;
    fixed_interval_seconds = elim c.fixed_interval [ none ↦ 0 | some n ↦ as_secs n ];
    maximum_interval_seconds = as_secs c.maximum_update_interval;
    error_count = d.consecutive_bad_updates;
  }

  -- The context of the device itself.
  unfoldable pub device_context :
      RuntimeConfig F → Facts F → DeviceTrackingState F I J → TrackingIntervalContext F
  unfolding context_of
  device_context c facts d =
      context_of c facts d facts.state_changed (is_some d.current_zone)
        (is_some facts.previous_zone) facts.distance_from_zone_km d.direction d.went_beyond_three_km
        (elim facts.route [ none ↦ none | some r ↦ r.duration_seconds ])

module _ {F I J : Type 0} where
  abbrev pub take_route : Facts F → I → DeviceTrackingState F I J → DeviceTrackingState F I J
  take_route facts now d = elim facts.route [
    | none ↦ d
    | some r ↦ record d {
      route_zone_id = facts.closest_zone_id;
      route_distance_km = some r.distance_km;
      route_duration_seconds = r.duration_seconds;
      route_updated_at = some now;
    }
  ]

module _ {F : Type 0} (f : Float F) where
  -- `Duration::from_secs(n).as_secs_f64()`
  abbrev travel_seconds : Option ℕ → Option F
  travel_seconds o = map_option (λ n. f.decimal n 0) o

module _ {F I J : Type 0} (f : Float F) where
  abbrev direction_input : Facts F → Option ℕ → DeviceTrackingState F I J → DirectionInput F
  direction_input facts previous d = record {
    in_zone = is_some d.current_zone;
    current_distance_km = facts.distance_from_zone_km;
    previous_distance_km = d.last_zone_distance_km;
    current_travel_time_seconds =
        travel_seconds f (elim facts.route [ none ↦ none | some r ↦ r.duration_seconds ]);
    previous_travel_time_seconds = travel_seconds f previous;
    previous_direction = d.direction;
    went_beyond_three_km = d.went_beyond_three_km;
  }

  abbrev turn : DirectionDecision → F → DeviceTrackingState F I J → DeviceTrackingState F I J
  turn decision distance d = record d {
    direction_history = record_decision d.direction_history decision;
    direction = decision.direction;
    last_zone_distance_km = some distance;
    went_beyond_three_km = d.went_beyond_three_km || f.le (f.decimal 3 0) distance;
  }

module _ {e : Env} where
  -- The distance of the update, by a route or by the nearest zone, or else by the stationary zone.
  unfoldable pub distance_of : String → Option e.F → Action e e.F
  unfolding stationary_distance
  distance_of id (some km) = pure km
  distance_of id none = do
    manager ← gets (λ s. s.state.stationary_zones)
    d ← device id
    pure (
        unwrap_or (stationary_distance e.float (device_zone id manager) d manager)
          (e.float.decimal 0 0))

  -- The route, the zone and the direction of the device.
  unfoldable pub steer : String → e.I → Facts e.F → Action e DirectionDecision
  steer id now facts = do
    before ← device id
    on_device id (take_route facts now)
    on_device id (λ d. record d { current_zone = facts.final_zone })
    d ← device id
    direction ← tracked (
        determine_direction e.float (direction_input e.float facts before.route_duration_seconds d)
          d.direction_history)
    on_device id (turn e.float direction facts.distance_from_zone_km)
    on_state
        (λ t. record t { zone_occupancy = update_occupancy id facts.final_zone t.zone_occupancy })
    pure direction

  unfoldable pub decide_interval : String → Facts e.F → Action e TrackingIntervalDecision
  unfolding device_context
  decide_interval id facts = do
    config ← gets (λ s. s.config)
    d ← device id
    tracked (determine e.float (device_context e.float config facts d))

module _ {I D : Type 0} (c : Chrono I D) where
  -- `now + TimeDelta::seconds(i64::try_from(seconds).unwrap_or(i64::MAX))`
  unfoldable pub after_seconds : I → ℕ → Result RuntimeError I
  after_seconds now n = elim (c.seconds (pos (i64_or_max n))) [
    | none ↦ or_panic none
    | some d ↦ or_panic (c.plus now d)
  ]
