-- ===== src/Runtime/Refresh/Quality.antt =====
-- The first part of `apply_refresh` for one device: its data, the quality of its location, its
-- battery (src/runtime.rs).
use icloud_location.Prelude.{
  ℕ, Bool, not, ◌&&◌, ◌||◌, Option, none, some, List, [], ◌∷◌, String, any, is_some, is_some_and,
  unwrap_or, if◌then◌else◌,
}
use icloud_location.Prelude.Int.{pos, negsuc}
use icloud_location.Std.Float.{Float}
use icloud_location.Std.Chrono.{Chrono}
use icloud_location.Std.TreeMap.{TreeMap, get}
use icloud_location.Core.{
  DeviceSnapshot, LocationSample, LocationSourceKind, TrackingEvent, BatterySnapshot,
  DeviceAvailability,
}
use icloud_location.Tracking.Interval.Defs.{is_towards}
use icloud_location.Tracking.Quality.Defs.{
  LocationQuality, OldLocationContext, evaluate, calculate_old_location_threshold,
}
use icloud_location.Tracking.State.Defs.{DeviceTrackingState, TrackFromZoneState}
use icloud_location.Tracking.State.Device.{
  apply_location, update_battery, update_availability, is_online,
}
use icloud_location.Runtime.Defs.{Env, RuntimeConfig}
use icloud_location.Runtime.Accounts.{same_instant, ensure_device}
use icloud_location.Runtime.Action.{
  Action, pure, gets, tracked, on_state, on_device, device, ◌>>=◌, ◌>>◌,
}

module _ {I D : Type 0} (c : Chrono I D) where
  -- `u64::try_from(seconds).ok()`
  abbrev seconds_until : I → Option I → List ℕ → List ℕ
  seconds_until last none rest = rest
  seconds_until last (some next) rest = elim (c.num_seconds (c.since next last)) [
    | pos n ↦ n ∷ rest
    | negsuc n ↦ rest
  ]

module _ {F I D : Type 0} (c : Chrono I D) where
  abbrev track_intervals : I → TreeMap (TrackFromZoneState F I) → List ℕ → List ℕ
  track_intervals last [] rest = rest
  track_intervals last ((_, track) ∷ tracks) rest =
      seconds_until c last track.next_update_at (track_intervals last tracks rest)

module _ {F : Type 0} (f : Float F) where
  abbrev is_below_one : Option F → Bool
  is_below_one distance = is_some_and distance (λ d. f.lt d (f.decimal 1 0))

module _ {F I D J : Type 0} (f : Float F) (c : Chrono I D) where
  -- The intervals up to the next updates, counted from the last one.
  unfoldable pub tracked_intervals : DeviceTrackingState F I J → List ℕ
  tracked_intervals s = elim s.last_update_at [
    | none ↦ []
    | some last ↦
        track_intervals c last s.track_from_zones (seconds_until c last s.next_update_at [])
  ]

  unfoldable pub is_approaching : DeviceTrackingState F I J → Bool
  is_approaching s =
      any
        (λ (entry : String × TrackFromZoneState F I).
          is_towards entry.1.direction && is_below_one f entry.1.last_distance_km)
        s.track_from_zones
      || (is_towards s.direction && is_below_one f s.last_zone_distance_km)

  unfoldable pub old_location_context :
      RuntimeConfig F → DeviceTrackingState F I J → OldLocationContext F
  unfolding tracked_intervals is_approaching
  old_location_context config s = record {
    approaching_tracked_zone = is_approaching s;
    old_location_count = s.consecutive_bad_updates;
    tracked_interval_seconds = tracked_intervals s;
    in_zone = is_some s.current_zone;
    distance_from_zone_km = unwrap_or s.last_zone_distance_km (f.decimal 0 0);
    pass_through_timer_active = is_some s.zone_transition.pending_zone;
    configured_maximum_seconds = config.old_location_maximum_seconds;
    adjustment_seconds = config.old_location_adjustment_seconds;
  }

abbrev pub is_offline : DeviceAvailability → Bool
is_offline availability = not (is_online availability)

module _ {F I J : Type 0} where
  -- What the snapshot says of the device itself.
  abbrev describe :
      RuntimeConfig F → DeviceSnapshot F I J → DeviceTrackingState F I J → DeviceTrackingState F I J
  describe config snapshot d = record d {
    name = some snapshot.name;
    model = snapshot.model;
    family_shared = snapshot.family_shared;
    raw_device = snapshot.raw;
    away_time_zone_offset_hours = unwrap_or (get snapshot.id config.away_time_zone_offsets) (pos 0);
  }

module _ {F I D J : Type 0} (c : Chrono I D) where
  -- The battery and its source.
  abbrev pub charge :
      BatterySnapshot
      → I
      → LocationSourceKind
      → DeviceTrackingState F I J
      → DeviceTrackingState F I J
  charge battery at source d =
      let d' = update_battery c battery at d in
      if is_some_and d'.battery_updated_at (λ t. same_instant c t at)
      then record d' { battery_source = some source }
      else d'

module _ {e : Env} where
  -- The device is entered if it is new, and described; the events say whether it went offline.
  unfoldable pub open_device :
      DeviceSnapshot e.F e.I e.J → e.I → Action e (List (TrackingEvent e.I))
  open_device snapshot now = do
    on_state (λ t. record t { devices = ensure_device e.null snapshot.id t.devices })
    config ← gets (λ s. s.config)
    on_device snapshot.id (describe config snapshot)
    d ← device snapshot.id
    on_device snapshot.id (update_availability e.chrono snapshot.availability now)
    pure (
        if is_offline snapshot.availability && not (is_some_and d.availability is_offline)
        then TrackingEvent.device_offline snapshot.id ∷ []
        else [])

  -- A location is judged and applied.
  unfoldable pub judge : String → e.I → LocationSample e.F e.I → Action e LocationQuality
  judge id now sample = do
    config ← gets (λ s. s.config)
    d ← device id
    threshold ←
        tracked (
          calculate_old_location_threshold e.float (old_location_context e.float e.chrono config d))
    let policy = record (config.location_quality) { old_location_threshold_seconds = threshold }
    quality ←
        tracked
          (evaluate e.float e.chrono policy d.current_location sample now d.consecutive_bad_updates)
    on_device id (apply_location e.float sample quality)
    on_device id (λ s. record s { location_quality = some quality })
    pure quality

  unfoldable pub judge_location :
      String → e.I → Option (LocationSample e.F e.I) → Action e (Option LocationQuality)
  judge_location id now none = pure none
  judge_location id now (some sample) = do quality ← judge id now sample; pure (some quality)

  unfoldable pub apply_battery :
      String → e.I → LocationSourceKind → Option BatterySnapshot → Action e (Unit {0})
  apply_battery id at source none = pure tt
  apply_battery id at source (some battery) = on_device id (charge e.chrono battery at source)
