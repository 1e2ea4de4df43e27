-- ===== src/Runtime/Refresh/Tracks.antt =====
-- The zones that a device is tracked from, in `apply_refresh` (src/runtime.rs).
use icloud_location.Prelude.{
  ℕ, Bool, false, ◌&&◌, ◌||◌, Option, none, some, [], ◌∷◌, String, opt_str_eq, unwrap_or,
  if◌then◌else◌,
}
use icloud_location.Std.Float.{Float}
use icloud_location.Std.Filter.{filter}
use icloud_location.Std.TreeMap.{TreeMap, TreeSet, get, insert, add, contains}
use icloud_location.Std.Words.{min_of}
use icloud_location.Tracking.Direction.Defs.{
  DirectionInput, DirectionDecision, empty_history, record_decision, determine_direction,
}
use icloud_location.Tracking.Interval.Defs.{unknown}
use icloud_location.Tracking.Interval.Determine.{TrackingIntervalDecision, determine}
use icloud_location.Tracking.State.Defs.{DeviceTrackingState, TrackFromZoneState}
use icloud_location.Runtime.Defs.{Env, RuntimeConfig, Device}
use icloud_location.Runtime.Refresh.Interval.{Facts, context_of, after_seconds}
use icloud_location.Runtime.Action.{
  Action, pure, gets, lift, tracked, on_device, device, ◌>>=◌, ◌>>◌,
}

-- The zones of the configuration that devices are tracked from, and the base zone.
unfoldable pub tracked_zone_ids : {F : Type 0} → RuntimeConfig F → TreeSet
tracked_zone_ids c = elim c.base_zone_id [
  | none ↦ c.pass_through.tracked_from_zones
  | some id ↦ add id c.pass_through.tracked_from_zones
]

module _ {F I : Type 0} where
  -- `TrackFromZoneState::default()`
  abbrev empty_track : TrackFromZoneState F I
  empty_track = record {
    zone_id = "";
    last_distance_km = none;
    direction = unknown;
    direction_history = empty_history;
    went_beyond_three_km = false;
    next_update_at = none;
  }

  abbrev track_of : String → TreeMap (TrackFromZoneState F I) → TrackFromZoneState F I
  track_of zone tracks = unwrap_or (get zone tracks) empty_track

  abbrev track_input : Bool → F → TrackFromZoneState F I → DirectionInput F
  track_input in_target distance track = record {
    in_zone = in_target;
    current_distance_km = distance;
    previous_distance_km = track.last_distance_km;
    current_travel_time_seconds = none;
    previous_travel_time_seconds = none;
    previous_direction = track.direction;
    went_beyond_three_km = track.went_beyond_three_km;
  }

module _ {F I : Type 0} (f : Float F) where
  abbrev turn_track : DirectionDecision → F → TrackFromZoneState F I → TrackFromZoneState F I
  turn_track decision distance track = record track {
    direction_history = record_decision track.direction_history decision;
    direction = decision.direction;
    last_distance_km = some distance;
    went_beyond_three_km = track.went_beyond_three_km || f.le (f.decimal 3 0) distance;
  }

module _ {F I J : Type 0} where
  -- `track_from_zones.retain(..)`
  abbrev retain_tracks : TreeSet → DeviceTrackingState F I J → DeviceTrackingState F I J
  retain_tracks ids d = record d {
    track_from_zones =
        filter (λ (entry : String × TrackFromZoneState F I). contains entry.0 ids)
          d.track_from_zones;
  }

  abbrev change_track :
      String
      → (TrackFromZoneState F I → TrackFromZoneState F I)
      → DeviceTrackingState F I J
      → DeviceTrackingState F I J
  change_track zone g d = record d {
    track_from_zones = insert zone (g (track_of zone d.track_from_zones)) d.track_from_zones;
  }

  abbrev set_track_time : String → I → DeviceTrackingState F I J → DeviceTrackingState F I J
  set_track_time zone at d = change_track zone (λ t. record t { next_update_at = some at }) d

module _ {e : Env} where
  abbrev pub direction_to :
      Bool
      → Bool
      → e.F
      → DirectionDecision
      → TrackFromZoneState e.F e.I
      → Action e DirectionDecision
  direction_to is_closest in_target distance direction track =
      if is_closest
      then pure direction
      else tracked (
          determine_direction e.float (track_input in_target distance track)
            track.direction_history)

  abbrev pub interval_to :
      Bool
      → Bool
      → Bool
      → e.F
      → TrackingIntervalDecision
      → Facts e.F
      → String
      → Device e
      → Action e TrackingIntervalDecision
  interval_to is_closest in_target was_in_target distance decision facts zone d =
      if is_closest then pure decision else (do
        config ← gets (λ s. s.config)
        let track = track_of zone d.track_from_zones
        tracked (
            determine e.float (
              context_of e.float config facts d
                (facts.state_changed && (in_target || was_in_target)) in_target was_in_target
                distance track.direction track.went_beyond_three_km none)))

  -- A zone at a distance: its direction, its interval and its next update.
  unfoldable pub follow_zone :
      String
      → e.I
      → Facts e.F
      → DirectionDecision
      → TrackingIntervalDecision
      → String
      → e.F
      → Action e ℕ
  unfolding context_of after_seconds
  follow_zone id now facts direction decision zone distance = do
    start ← device id
    let in_target = opt_str_eq start.current_zone (some zone)
    let was_in_target = opt_str_eq facts.previous_zone (some zone)
    let is_closest = opt_str_eq facts.closest_zone_id (some zone)
    on_device id (change_track zone (λ t. record t { zone_id = zone }))
    opened ← device id
    turned ←
        direction_to is_closest in_target distance direction (track_of zone opened.track_from_zones)
    on_device id (change_track zone (turn_track e.float turned distance))
    d ← device id
    target ← interval_to is_closest in_target was_in_target distance decision facts zone d
    if d.paused then pure target.seconds else (do
      at ← lift (after_seconds e.chrono now target.seconds)
      on_device id (set_track_time zone at)
      pure target.seconds)

  abbrev pub follow_known :
      String
      → e.I
      → Facts e.F
      → DirectionDecision
      → TrackingIntervalDecision
      → String
      → ℕ
      → Option e.F
      → Action e ℕ
  follow_known id now facts direction decision zone seconds none = pure seconds
  follow_known id now facts direction decision zone seconds (some distance) = do
    target ← follow_zone id now facts direction decision zone distance
    pure (min_of seconds target)

  -- The shortest of the intervals.
  unfoldable pub follow_zones :
      String
      → e.I
      → Facts e.F
      → DirectionDecision
      → TrackingIntervalDecision
      → TreeSet
      → ℕ
      → Action e ℕ
  unfolding follow_zone
  follow_zones id now facts direction decision [] seconds = pure seconds
  follow_zones id now facts direction decision (zone ∷ zones) seconds = do
    d ← device id
    shorter ←
        follow_known id now facts direction decision zone seconds (get zone d.zone_distances_km)
    follow_zones id now facts direction decision zones shorter

  unfoldable pub follow :
      String → e.I → Facts e.F → DirectionDecision → TrackingIntervalDecision → Action e ℕ
  unfolding tracked_zone_ids follow_zones
  follow id now facts direction decision = do
    config ← gets (λ s. s.config)
    on_device id (retain_tracks (tracked_zone_ids config))
    follow_zones id now facts direction decision (tracked_zone_ids config) decision.seconds
