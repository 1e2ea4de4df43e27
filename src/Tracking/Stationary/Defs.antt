-- ===== src/Tracking/Stationary/Defs.antt =====
-- `StationaryZoneManager` of crates/icloud-tracking/src/stationary.rs.
--
-- `device_zones` and `still_since` are maps, `zones` is a vector, which only grows.

use Prim.Native.String.{◌++◌}
use icloud_location.Prelude.{
  ℕ, Bool, true, false, ◌||◌, Option, none, some, List, [], ◌∷◌, String, str_eq, if◌then◌else◌,
  is_empty, position, get_elem?, modify,
}
use icloud_location.Std.Result.{ok, ◌>>=◌, reject_if, or_panic, ok_or}
use icloud_location.Std.Float.{Float, is_invalid, is_not_positive}
use icloud_location.Std.TreeMap.{TreeMap, TreeSet, get, insert, remove, add, discard}
use icloud_location.Std.Display.{show_nat}
use icloud_location.Core.{Coordinates, TrackingEvent, distance_meters}
use icloud_location.Tracking.Error.{Tracked, invalid_input}

pub record StationaryPolicy (F : Type 0) : Type 0 where
  pub enabled : Bool
  pub still_seconds : ℕ
  pub movement_limit_meters : F
  pub radius_meters : F
  pub reuse_cooldown_seconds : ℕ

pub record StationaryZone (F I : Type 0) : Type 0 where
  pub id : String
  pub center : Coordinates F
  pub radius_meters : F
  pub active : Bool
  pub occupants : TreeSet
  pub last_removed_at : Option I

pub record StationaryObservation (F I : Type 0) : Type 0 where
  pub device_id : String
  pub location : Coordinates F
  pub observed_at : I
  pub distance_moved_meters : F
  pub location_is_good : Bool
  pub monitored_only : Bool

pub record StationaryZoneManager (F I : Type 0) : Type 0 where
  pub zones : List (StationaryZone F I)
  pub device_zones : TreeMap String
  pub still_since : TreeMap I
  pub next_id : ℕ

module _ {F I : Type 0} where
  -- `StationaryZoneManager::default()`
  abbrev pub empty_manager : StationaryZoneManager F I
  empty_manager = record { zones = []; device_zones = []; still_since = []; next_id = 0 }

  unfoldable pub device_zone : String → StationaryZoneManager F I → Option String
  device_zone device m = get device m.device_zones

  abbrev pub has_id : String → StationaryZone F I → Bool
  has_id id zone = str_eq zone.id id

  -- `zone.occupants.insert(device)`
  abbrev pub occupy : String → StationaryZone F I → StationaryZone F I
  occupy device zone = record zone { occupants = add device zone.occupants }

  -- `zone.occupants.remove(device)`, and what follows when the set is empty then.
  abbrev pub vacate : String → I → StationaryZone F I → StationaryZone F I
  vacate device now zone =
      let left = discard device zone.occupants in
      if is_empty left
      then record zone { occupants = left; active = false; last_removed_at = some now }
      else record zone { occupants = left }

-- `format!("stationary_{}", n)`
abbrev pub zone_name : ℕ → String
zone_name n = "stationary_" ++ show_nat n

module _ {F : Type 0} (f : Float F) where
  unfoldable pub validate : StationaryPolicy F → F → Tracked (Unit {0})
  validate p distance_moved_meters =
      reject_if
        (is_invalid f p.movement_limit_meters
          || is_not_positive f p.radius_meters
          || is_invalid f distance_moved_meters)
        (invalid_input "stationary-zone distances must be finite and valid")

module _ {F I : Type 0} (f : Float F) where
  -- `zone.center.distance_meters(location) <= zone.radius_meters * 1.5`
  abbrev pub is_near : Coordinates F → StationaryZone F I → Bool
  is_near location zone =
      f.le (distance_meters f zone.center location) (f.mul zone.radius_meters (f.decimal 15 1))

  -- An idle zone is set up again at a new place.
  abbrev pub reopen : StationaryPolicy F → Coordinates F → StationaryZone F I → StationaryZone F I
  reopen policy location zone = record zone {
    center = location;
    radius_meters = policy.radius_meters;
    active = true;
    last_removed_at = none;
  }

  abbrev pub new_zone : StationaryPolicy F → Coordinates F → ℕ → StationaryZone F I
  new_zone policy location n = record {
    id = zone_name n;
    center = location;
    radius_meters = policy.radius_meters;
    active = true;
    occupants = [];
    last_removed_at = none;
  }

  unfoldable pub move_to_device :
      String
      → Coordinates F
      → StationaryZoneManager F I
      → Tracked (StationaryZoneManager F I × TrackingEvent I)
  move_to_device device location m = do
    id ← ok_or (get device m.device_zones) (invalid_input "device has no stationary zone")
    i ← ok_or (position (has_id id) m.zones) (invalid_input "stationary zone is missing")
    ok (
      record m { zones = modify i (λ zone. record zone { center = location }) m.zones },
      TrackingEvent.stationary_zone_moved id device,
    )

  -- The device is in a stationary zone already.
  unfoldable pub observe_existing :
      StationaryObservation F I
      → String
      → StationaryZoneManager F I
      → Tracked (StationaryZoneManager F I × List (TrackingEvent I))
  observe_existing o id m = do
    i ← ok_or (position (has_id id) m.zones) (invalid_input "stationary zone is missing")
    zone ← or_panic (get_elem? m.zones i)
    if is_near o.location zone
        then ok (m, [])
        else ok (
          record m {
            zones = modify i (vacate o.device_id o.observed_at) m.zones;
            device_zones = remove o.device_id m.device_zones;
            still_since = insert o.device_id o.observed_at m.still_since;
          },
          TrackingEvent.zone_exited o.device_id id
              ∷ (if is_empty (discard o.device_id zone.occupants)
                  then TrackingEvent.stationary_zone_removed id ∷ []
                  else []),
        )
