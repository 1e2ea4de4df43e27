-- ===== src/Tracking/Stationary/Observe.antt =====
-- `StationaryZoneManager::observe` of crates/icloud-tracking/src/stationary.rs.
use icloud_location.Prelude.{
  ℕ, suc, Bool, false, not, ◌&&◌, ◌||◌, Option, none, some, List, [], ◌∷◌, ◌++◌, String,
  if◌then◌else◌, is_some, unwrap_or, is_empty, position, get_elem?, modify, length, map_option,
}
use icloud_location.Prelude.Int.{pos}
use icloud_location.Std.Result.{ok, ◌>>=◌, ◌>>◌, or_panic}
use icloud_location.Std.Words.{i64_or_max, saturating_add, u64_max}
use icloud_location.Std.Float.{Float}
use icloud_location.Std.Chrono.{Chrono}
use icloud_location.Std.TreeMap.{get, insert, remove}
use icloud_location.Core.{TrackingEvent}
use icloud_location.Tracking.Error.{Tracked}
use icloud_location.Tracking.Zone.Defs.{ZoneSet, select}
use icloud_location.Tracking.Stationary.Defs.{
  StationaryPolicy, StationaryZone, StationaryObservation, StationaryZoneManager, validate, is_near,
  reopen, new_zone, occupy, observe_existing,
}

module _ {F I D : Type 0} (f : Float F) (c : Chrono I D) where
  -- `now - removed >= Duration::seconds(cooldown)`
  unfoldable pub has_cooled_down : I → ℕ → I → Tracked Bool
  has_cooled_down now cooldown removed = do
    d ← or_panic (c.seconds (pos (i64_or_max cooldown)))
    ok (not (c.shorter (c.since now removed) d))

  -- An idle zone that was removed long enough ago.
  unfoldable pub is_reusable : I → ℕ → StationaryZone F I → Tracked Bool
  is_reusable now cooldown zone = if zone.active then ok false else elim zone.last_removed_at [
    | none ↦ ok false
    | some removed ↦ has_cooled_down now cooldown removed
  ]

  -- `reusable_zone`
  unfoldable pub reusable_zone : I → ℕ → List (StationaryZone F I) → Tracked (Option ℕ)
  reusable_zone now cooldown [] = ok none
  reusable_zone now cooldown (zone ∷ zones) = do
    reusable ← is_reusable now cooldown zone
    if reusable
        then ok (some 0)
        else (do rest ← reusable_zone now cooldown zones; ok (map_option suc rest))

  abbrev pub is_joinable : StationaryObservation F I → StationaryZone F I → Bool
  is_joinable o zone = zone.active && is_near f o.location zone

  -- The zone for a device that stays: its position, the zones with it, and the last identifier.
  abbrev pub Place : Type 0
  Place = ℕ × List (StationaryZone F I) × ℕ

  -- No zone is near: an idle one is set up again, or there is a new one.
  unfoldable pub open_zone :
      StationaryPolicy F → StationaryObservation F I → StationaryZoneManager F I → Tracked Place
  open_zone policy o m = do
    idle ← reusable_zone o.observed_at policy.reuse_cooldown_seconds m.zones
    ok (elim idle [
      | some i ↦ (i, modify i (reopen f policy o.location) m.zones, m.next_id)
      | none ↦
          let n = saturating_add u64_max m.next_id 1 in
          (length m.zones, m.zones ++ (new_zone f policy o.location n ∷ []), n)
    ])

  unfoldable pub place :
      StationaryPolicy F → StationaryObservation F I → StationaryZoneManager F I → Tracked Place
  place policy o m = elim (position (is_joinable o) m.zones) [
    | some i ↦ ok (i, m.zones, m.next_id)
    | none ↦ open_zone policy o m
  ]

  -- The end of `observe`: the device is put into a zone.
  unfoldable pub settle :
      StationaryPolicy F
      → StationaryObservation F I
      → StationaryZoneManager F I
      → Tracked (StationaryZoneManager F I × List (TrackingEvent I))
  settle policy o m = do
    (i, zones, next_id) ← place policy o m
    zone ← or_panic (get_elem? zones i)
    ok (
      record {
        zones = modify i (occupy o.device_id) zones;
        device_zones = insert o.device_id zone.id m.device_zones;
        still_since = remove o.device_id m.still_since;
        next_id = next_id;
      },
      (if is_empty zone.occupants
            then TrackingEvent.stationary_zone_created zone.id o.device_id ∷ []
            else [])
          ++ (TrackingEvent.zone_entered o.device_id zone.id ∷ []),
    )

  -- A device that moves little: since when, and whether that is long enough.
  unfoldable pub stay :
      StationaryPolicy F
      → StationaryObservation F I
      → StationaryZoneManager F I
      → Tracked (StationaryZoneManager F I × List (TrackingEvent I))
  stay policy o m = do
    let since = unwrap_or (get o.device_id m.still_since) o.observed_at
    let waiting = record m { still_since = insert o.device_id since m.still_since }
    still ← or_panic (c.seconds (pos (i64_or_max policy.still_seconds)))
    if c.shorter (c.since o.observed_at since) still
        then ok (waiting, [])
        else settle policy o waiting

  abbrev pub forget : String → StationaryZoneManager F I → StationaryZoneManager F I
  forget device m = record m { still_since = remove device m.still_since }

  -- The device is in no stationary zone.
  unfoldable pub observe_free :
      StationaryPolicy F
      → ZoneSet F
      → StationaryObservation F I
      → StationaryZoneManager F I
      → Tracked (StationaryZoneManager F I × List (TrackingEvent I))
  observe_free policy regular_zones o m =
      if not policy.enabled || not o.location_is_good || o.monitored_only
      then ok (forget o.device_id m, [])
      else (do
        selection ← select f regular_zones o.location (f.decimal 0 0)
        if is_some selection.selected_zone
            then ok (forget o.device_id m, [])
            else if f.lt policy.movement_limit_meters o.distance_moved_meters
            then ok (record m { still_since = insert o.device_id o.observed_at m.still_since }, [])
            else stay policy o m)

  -- `observe`
  unfoldable pub observe :
      StationaryPolicy F
      → ZoneSet F
      → StationaryObservation F I
      → StationaryZoneManager F I
      → Tracked (StationaryZoneManager F I × List (TrackingEvent I))
  observe policy regular_zones o m = do
    validate f policy o.distance_moved_meters
    elim (get o.device_id m.device_zones) [
      | some id ↦ observe_existing f o id m
      | none ↦ observe_free policy regular_zones o m
    ]

  -- Observations in their order.
  unfoldable pub observe_all :
      StationaryPolicy F
      → ZoneSet F
      → List (StationaryObservation F I)
      → StationaryZoneManager F I
      → Tracked (StationaryZoneManager F I)
  observe_all policy regular_zones [] m = ok m
  observe_all policy regular_zones (o ∷ os) m = do
    (m1, _) ← observe policy regular_zones o m
    observe_all policy regular_zones os m1
