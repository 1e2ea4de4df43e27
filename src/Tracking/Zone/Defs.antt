-- ===== src/Tracking/Zone/Defs.antt =====
-- `ZoneSet` of crates/icloud-tracking/src/zone.rs: construction, selection, the closest zone.
use Prim.Native.Char.{code}
use Prim.Native.Nat.{Ordering}
use Prim.Native.String.{compare, ◌++◌}
use icloud_location.Prelude.{
  Bool, true, not, ◌&&◌, Option, List, [], ◌∷◌, String, str_eq, if◌then◌else◌, map_option, map,
}
use icloud_location.Std.Result.{ok, ◌>>=◌, ◌>>◌, reject_if, map_err}
use icloud_location.Std.Float.{Float, is_invalid, is_not_positive}
use icloud_location.Std.Order.{then_by}
use icloud_location.Std.Filter.{filter}
use icloud_location.Std.Sort.{sort_by, first}
use icloud_location.Std.TreeMap.{contains}
use icloud_location.Core
use icloud_location.Std.Text.{is_whitespace}
use icloud_location.Core.{Coordinates, CoreError, invalid_coordinates}
use icloud_location.Tracking.Error.{TrackingError, Tracked, invalid_input, duplicate_zone}

pub record Zone (F : Type 0) : Type 0 where
  pub id : String
  pub latitude : F
  pub longitude : F
  pub radius_meters : F
  pub passive : Bool

pub record ZoneDistance (F : Type 0) : Type 0 where
  pub zone_id : String
  pub distance_meters : F

pub record ZoneSelection (F : Type 0) : Type 0 where
  pub selected_zone : Option String
  pub selected_distance_meters : Option F
  pub distances : List (ZoneDistance F)

pub record ZoneSet (F : Type 0) : Type 0 where
  pub zones : List (Zone F)

-- `ZoneSet::default()`
abbrev pub no_zones : {F : Type 0} → ZoneSet F
no_zones = record { zones = [] }

-- `id.trim().is_empty()`
unfoldable pub is_blank : String → Bool
is_blank String.[] = true
is_blank (String.◌∷◌ c s) = is_whitespace (code c) && is_blank s

-- The text of a `CoreError` as an invalid input.
abbrev pub of_core_error : CoreError → TrackingError
of_core_error (invalid_coordinates m) = invalid_input ("invalid coordinates: " ++ m)

module _ {F : Type 0} where
  -- `self.zones.iter().filter(|zone| !zone.passive)`
  abbrev pub active_zones : List (Zone F) → List (Zone F)
  active_zones = filter (λ zone. not zone.passive)

  abbrev pub zone_distance : Zone F × F → ZoneDistance F
  zone_distance (zone, d) = record { zone_id = zone.id; distance_meters = d }

module _ {F : Type 0} (f : Float F) where
  -- `Zone::center`
  unfoldable pub center : Zone F → Tracked (Coordinates F)
  center z = map_err of_core_error (Core.new f z.latitude z.longitude)

  -- The checks of one zone, given the identifiers of those before it.
  unfoldable pub check_zone : List String → Zone F → Tracked (Unit {0})
  check_zone ids zone = do
    reject_if (is_blank zone.id) (invalid_input "zone ID cannot be empty")
    reject_if (contains zone.id ids) (duplicate_zone zone.id)
    _ ← center zone
    reject_if (is_not_positive f zone.radius_meters)
        (invalid_input ("zone " ++ zone.id ++ " has an invalid radius"))

  unfoldable pub check_zones : List String → List (Zone F) → Tracked (Unit {0})
  check_zones ids [] = ok tt
  check_zones ids (zone ∷ zones) = do check_zone ids zone; check_zones (zone.id ∷ ids) zones

  -- `ZoneSet::new`
  unfoldable pub new : List (Zone F) → Tracked (ZoneSet F)
  new zones = do check_zones [] zones; ok (record { zones = zones })

  -- Each zone with the distance of its center.
  unfoldable pub measure : Coordinates F → List (Zone F) → Tracked (List (Zone F × F))
  measure location [] = ok []
  measure location (zone ∷ zones) = do
    c ← center zone
    rest ← measure location zones
    ok ((zone, Core.distance_meters f location c) ∷ rest)

  -- `distance <= zone.radius_meters + allowance`
  abbrev pub is_within : F → Zone F × F → Bool
  is_within allowance (zone, d) = f.le d (f.add zone.radius_meters allowance)

  -- The measured zones that contain the location.
  abbrev pub candidates : F → List (Zone F × F) → List (Zone F × F)
  candidates allowance = filter (is_within allowance)

  -- `compare_zone_distances`
  abbrev pub compare_zone_distances : ZoneDistance F → ZoneDistance F → Ordering
  compare_zone_distances =
      then_by (λ l r. f.total_cmp l.distance_meters r.distance_meters)
        (λ l r. compare l.zone_id r.zone_id)

  -- By radius, then by identifier.
  abbrev pub compare_candidates : Zone F × F → Zone F × F → Ordering
  compare_candidates =
      then_by (λ l r. f.total_cmp (l.0).radius_meters (r.0).radius_meters)
        (λ l r. compare (l.0).id (r.0).id)

  abbrev pub allowance_of : F → F
  allowance_of accuracy = f.trunc (f.div accuracy (f.decimal 2 0))

  -- The selection among measured zones.
  unfoldable pub select_measured : F → List (Zone F × F) → ZoneSelection F
  select_measured allowance measured =
      let selected = first (sort_by compare_candidates (candidates allowance measured)) in
      record {
        selected_zone = map_option (λ m. (m.0).id) selected;
        selected_distance_meters = map_option (λ m. m.1) selected;
        distances = sort_by compare_zone_distances (map zone_distance measured);
      }

  -- `ZoneSet::select`
  unfoldable pub select : ZoneSet F → Coordinates F → F → Tracked (ZoneSelection F)
  select set location accuracy = do
    reject_if (is_invalid f accuracy) (
        invalid_input
          ("horizontal accuracy must be finite and non-negative, got " ++ f.display accuracy))
    measured ← measure location (active_zones set.zones)
    ok (select_measured (allowance_of accuracy) measured)

  -- `self.zones.iter().filter(|zone| zone.radius_meters > 1.0)`
  abbrev pub usable_zones : List (Zone F) → List (Zone F)
  usable_zones = filter (λ zone. f.lt (f.decimal 1 0) zone.radius_meters)

  -- `ZoneSet::closest`
  unfoldable pub closest : ZoneSet F → Coordinates F → Tracked (Option (ZoneDistance F))
  closest set location = do
    measured ← measure location (usable_zones set.zones)
    ok (first (sort_by compare_zone_distances (map zone_distance measured)))

  unfoldable pub zones_have_same_center : Zone F → Zone F → Tracked Bool
  zones_have_same_center left right = if str_eq left.id right.id then ok true else (do
    l ← center left
    r ← center right
    ok (f.le (Core.distance_meters f l r) (f.decimal 2 0)))
