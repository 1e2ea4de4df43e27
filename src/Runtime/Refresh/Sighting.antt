-- ===== src/Runtime/Refresh/Sighting.antt =====
-- The zones of an accepted location, and stationary zones, in `apply_refresh` (src/runtime.rs).
use mathlib.Core.List.{foldl}
use icloud_location.Prelude.{
  Bool, true, false, Option, none, some, List, [], String, str_eq, is_some_and, unwrap_or,
  if◌then◌else◌, map_option,
}
use icloud_location.Std.Float.{Float}
use icloud_location.Std.Filter.{filter}
use icloud_location.Std.Sort.{first}
use icloud_location.Std.TreeMap.{TreeMap, insert}
use icloud_location.Core.{Coordinates, LocationSample, TrackingEvent, ExternalTrigger}
use icloud_location.Tracking.Quality.Defs.{LocationQuality, good, grace, rejected}
use icloud_location.Tracking.Zone.Defs.{ZoneDistance, select}
use icloud_location.Tracking.ZoneState.Defs
use icloud_location.Tracking.Stationary.Defs.{StationaryObservation}
use icloud_location.Tracking.Stationary.Observe.{observe}
use icloud_location.Runtime.Defs.{Env}
use icloud_location.Runtime.Action.{
  Action, pure, gets, tracked, on_state, on_device, device, ◌>>=◌, ◌>>◌,
}

-- What is known of an update so far: the nearest zone, the zone of the device, where it was seen and
-- how far it moved.
pub record Sighting (F : Type 0) : Type 0 where
  pub closest_distance_km : Option F
  pub closest_zone_id : Option String
  pub selected_regular_zone : Option String
  pub observation : Option (Coordinates F × F)

abbrev pub no_sighting : {F : Type 0} → Sighting F
no_sighting = record {
  closest_distance_km = none;
  closest_zone_id = none;
  selected_regular_zone = none;
  observation = none;
}

abbrev pub is_accepted : Option LocationQuality → Bool
is_accepted none = false
is_accepted (some good) = true
is_accepted (some (grace _)) = true
is_accepted (some (rejected _)) = false

abbrev pub is_good : Option LocationQuality → Bool
is_good (some good) = true
is_good (some (grace _)) = false
is_good (some (rejected _)) = false
is_good none = false

-- The zone that the device is in, by the trigger or by the selection.
unfoldable pub triggered_zone :
    Option ExternalTrigger → Option String → Option String → Option String
triggered_zone (some (ExternalTrigger.zone_entered id)) current selected = some id
triggered_zone (some (ExternalTrigger.zone_exited id)) current selected =
    if is_some_and current (λ zone. str_eq zone id) then none else current
triggered_zone (some ExternalTrigger.manual) current selected = selected
triggered_zone (some ExternalTrigger.background) current selected = selected
triggered_zone none current selected = selected

module _ {F : Type 0} (f : Float F) where
  abbrev kilometers : F → F
  kilometers meters = f.div meters (f.decimal 1000 0)

  -- `distances.map(..).collect()`
  abbrev pub as_kilometers : List (ZoneDistance F) → TreeMap F
  as_kilometers ds =
      foldl (λ m (d : ZoneDistance F). insert d.zone_id (kilometers d.distance_meters) m) [] ds

  -- The base zone, or else the nearest one.
  unfoldable pub tracking_zone : Option String → List (ZoneDistance F) → Option (ZoneDistance F)
  tracking_zone base ds =
      elim (first (filter (λ d. is_some_and base (λ id. str_eq d.zone_id id)) ds)) [
        | some d ↦ some d
        | none ↦ first ds
      ]

module _ {F I : Type 0} where
  abbrev pub observation_of :
      String → I → Option LocationQuality → Coordinates F → F → StationaryObservation F I
  observation_of id now quality location moved = record {
    device_id = id;
    location = location;
    observed_at = now;
    distance_moved_meters = moved;
    location_is_good = is_good quality;
    monitored_only = false;
  }

module _ {e : Env} where
  -- An accepted location with its zones.
  unfoldable pub sight_at :
      String
      → e.I
      → Option ExternalTrigger
      → LocationSample e.F e.I
      → Action e (Sighting e.F × List (TrackingEvent e.I))
  sight_at id now trigger location = do
    config ← gets (λ s. s.config)
    let accuracy = unwrap_or location.horizontal_accuracy_meters (e.float.decimal 0 0)
    selection ← tracked (select e.float config.zones location.coordinates accuracy)
    on_device id (λ d. record d { zone_distances_km = as_kilometers e.float selection.distances })
    d ← device id
    let nearest = tracking_zone e.float config.base_zone_id selection.distances
    let selected = triggered_zone trigger d.current_zone selection.selected_zone
    (transition, events) ←
        tracked (Defs.update e.chrono id selected now config.pass_through d.zone_transition)
    on_device id
        (λ s. record s { zone_transition = transition; current_zone = transition.current_zone })
    pure (
      record {
        closest_distance_km =
            map_option (λ z. e.float.div z.distance_meters (e.float.decimal 1000 0)) nearest;
        closest_zone_id = map_option (λ z. z.zone_id) nearest;
        selected_regular_zone = transition.current_zone;
        observation =
            some (location.coordinates, unwrap_or d.distance_moved_meters (e.float.decimal 0 0));
      },
      events,
    )

  abbrev pub sight_location :
      String
      → e.I
      → Option ExternalTrigger
      → Option (LocationSample e.F e.I)
      → Action e (Sighting e.F × List (TrackingEvent e.I))
  sight_location id now trigger none = pure (no_sighting, [])
  sight_location id now trigger (some location) = sight_at id now trigger location

  unfoldable pub sight :
      String
      → e.I
      → Option ExternalTrigger
      → Option LocationQuality
      → Action e (Sighting e.F × List (TrackingEvent e.I))
  sight id now trigger quality =
      if is_accepted quality
      then (do d ← device id; sight_location id now trigger d.current_location)
      else pure (no_sighting, [])

  -- The location is observed by the manager of stationary zones.
  unfoldable pub watch_stationary :
      String
      → e.I
      → Option LocationQuality
      → Option (Coordinates e.F × e.F)
      → Action e (List (TrackingEvent e.I))
  watch_stationary id now quality none = pure []
  watch_stationary id now quality (some (location, moved)) = do
    config ← gets (λ s. s.config)
    manager ← gets (λ s. s.state.stationary_zones)
    (zones, events) ← tracked (
        observe e.float e.chrono config.stationary config.zones
          (observation_of id now quality location moved) manager)
    on_state (λ t. record t { stationary_zones = zones })
    pure events
