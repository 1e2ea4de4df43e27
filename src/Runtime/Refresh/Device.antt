-- ===== src/Runtime/Refresh/Device.antt =====
-- `TrackingRuntime::apply_refresh` for one snapshot (src/runtime.rs).
use icloud_location.Prelude.{
  ℕ, Bool, true, false, not, Option, none, some, List, ◌++◌, String, is_empty, if◌then◌else◌, map,
}
use icloud_location.Prelude.Int.{pos_part}
use icloud_location.Std.Chrono.{Chrono}
use icloud_location.Std.TreeMap.{get}
use icloud_location.Std.Words.{u64_max}
use icloud_location.Core.{
  DeviceSnapshot, LocationSample, LocationSourceKind, apple, TrackingEvent, ExternalTrigger,
}
use icloud_location.Tracking.Interval.Defs.{offline_interval_seconds}
use icloud_location.Tracking.Stationary.Defs.{device_zone}
use icloud_location.Tracking.State.Defs.{DeviceTrackingState, TrackFromZoneState}
use icloud_location.Runtime.Defs.{Env}
use icloud_location.Runtime.Refresh.Quality.{is_offline, open_device, judge_location, apply_battery}
use icloud_location.Runtime.Refresh.Sighting.{sight, watch_stationary}
use icloud_location.Runtime.Refresh.Route.{find_route}
use icloud_location.Runtime.Refresh.Interval.{
  Facts, distance_of, steer, decide_interval, after_seconds,
}
use icloud_location.Runtime.Refresh.Tracks.{follow}
use icloud_location.Runtime.Action.{
  Action, pure, gets, lift, on_device, device, emit_at, for_each, ◌>>=◌, ◌>>◌,
}

-- `matches!(external_trigger, Some(ExternalTrigger::ZoneExited(_)))`
abbrev pub is_exit : Option ExternalTrigger → Bool
is_exit (some (ExternalTrigger.zone_exited id)) = true
is_exit (some (ExternalTrigger.zone_entered id)) = false
is_exit (some ExternalTrigger.manual) = false
is_exit (some ExternalTrigger.background) = false
is_exit none = false

module _ {F I : Type 0} where
  abbrev source_of : Option (LocationSample F I) → LocationSourceKind
  source_of none = apple
  source_of (some l) = l.source

  abbrev time_of : I → Option (LocationSample F I) → I
  time_of now none = now
  time_of now (some l) = l.timestamp

module _ {F I D J : Type 0} (c : Chrono I D) where
  -- The age of the location in whole seconds, which is never negative.
  abbrev location_age : I → DeviceTrackingState F I J → ℕ
  location_age now d = elim d.current_location [
    | none ↦ u64_max
    | some l ↦ pos_part (c.num_seconds (c.since now l.timestamp))
  ]

  -- The interval of the device, which depends on the age of its location while it is offline.
  unfoldable pub interval_of : Bool → I → DeviceTrackingState F I J → ℕ → ℕ
  interval_of offline now d seconds =
      if offline then offline_interval_seconds (location_age now d) else seconds

module _ {F I J : Type 0} where
  abbrev all_tracks : Option I → DeviceTrackingState F I J → DeviceTrackingState F I J
  all_tracks at d = record d {
    track_from_zones =
        map
          (λ (entry : String × TrackFromZoneState F I).
            (entry.0, record (entry.1) { next_update_at = at }))
          d.track_from_zones;
  }

  -- The next update of the device and, where asked, of its tracked zones.
  abbrev pub set_time : Bool → I → DeviceTrackingState F I J → DeviceTrackingState F I J
  set_time tracks at d =
      let d' = record d { next_update_at = some at } in
      if tracks then all_tracks (some at) d' else d'

module _ {e : Env} where
  -- The next update of a device that is not paused.
  unfoldable pub plan_update : String → e.I → Bool → ℕ → Action e (Unit {0})
  unfolding interval_of after_seconds
  plan_update id now offline seconds = do
    d ← device id
    if d.paused then pure tt else (do
      at ← lift (after_seconds e.chrono now (interval_of e.chrono offline now d seconds))
      on_device id (set_time offline at))

  -- The device's location, battery, zones, stationary zone and route.
  unfoldable pub gather :
      DeviceSnapshot e.F e.I e.J
      → e.I
      → Bool
      → Option ExternalTrigger
      → Action e (Facts e.F × List (TrackingEvent e.I))
  unfolding judge_location apply_battery
  gather snapshot now external_update trigger = do
    previous_zone ←
        gets (λ s. elim (get snapshot.id s.state.devices) [ none ↦ none | some d ↦ d.current_zone ])
    opened ← open_device snapshot now
    quality ← judge_location snapshot.id now snapshot.location
    apply_battery snapshot.id (time_of now snapshot.location) (source_of snapshot.location)
        snapshot.battery
    (seen, zone_events) ← sight snapshot.id now trigger quality
    still_events ← watch_stationary snapshot.id now quality seen.observation
    (route, route_events) ← find_route snapshot.id seen.closest_zone_id now seen.observation
    let events = opened ++ zone_events ++ still_events ++ route_events
    distance ←
        distance_of snapshot.id
          (elim route [ none ↦ seen.closest_distance_km | some r ↦ some r.distance_km ])
    stationary ← gets (λ s. device_zone snapshot.id s.state.stationary_zones)
    pure (
      record {
        quality = quality;
        offline = is_offline snapshot.availability;
        external_update = external_update;
        external_exit = is_exit trigger;
        previous_zone = previous_zone;
        final_zone = elim stationary [ none ↦ seen.selected_regular_zone | some z ↦ some z ];
        closest_zone_id = seen.closest_zone_id;
        distance_from_zone_km = distance;
        route = route;
        state_changed = not (is_empty events);
      },
      events,
    )

  unfoldable pub refresh_device :
      DeviceSnapshot e.F e.I e.J → e.I → Bool → Option ExternalTrigger → Action e (Unit {0})
  refresh_device snapshot now external_update trigger = do
    (facts, events) ← gather snapshot now external_update trigger
    direction ← steer snapshot.id now facts
    decision ← decide_interval snapshot.id facts
    seconds ← follow snapshot.id now facts direction decision
    plan_update snapshot.id now facts.offline seconds
    for_each events (emit_at now)
    emit_at now (TrackingEvent.device_updated snapshot.id)
