-- ===== src/Examples/Stationary.antt =====
-- Concrete runs of stationary zones and of the occupancy of zones.
use icloud_location.Prelude.{
  ℕ, ◌≡◌, refl, true, false, none, [], ◌∷◌, length, unwrap_or, position, get_elem?, modify, str_eq,
  if◌then◌else◌,
}
use icloud_location.Prelude.Int.{pos}
use icloud_location.Std.Result.{ok}
use icloud_location.Std.TreeMap.{get, insert, remove, add}
use icloud_location.Std.Filter.{filter}
use icloud_location.Std.Sort.{sort_by}
use icloud_location.Std.Display.{show_nat}
use icloud_location.Tracking.Zone.Defs.{no_zones, select, select_measured, measure}
use icloud_location.Tracking.ZoneState.Defs.{ZoneOccupancy, counts, devices_in, update_occupancy}
use icloud_location.Tracking.ZoneState.Occupancy.{counts_lem, get-update_occupancy}
use icloud_location.Tracking.Stationary.Defs.{
  StationaryPolicy, StationaryObservation, StationaryZoneManager, empty_manager, validate,
}
use icloud_location.Tracking.Stationary.Observe.{
  observe_all, observe, observe_free, stay, settle, place, open_zone, reusable_zone,
}
use icloud_location.Tracking.Stationary.Consistent.{observe_all-AllConsistent, AllConsistent}
use icloud_location.Examples.Fixed.{Fixed, fixed, fixed_float}
use icloud_location.Examples.Clock.{clock}
use icloud_location.Examples.Zones.{origin}

abbrev policy : StationaryPolicy Fixed
policy = record {
  enabled = true;
  still_seconds = 60;
  movement_limit_meters = fixed (pos 60000000);
  radius_meters = fixed (pos 100000000);
  reuse_cooldown_seconds = 30;
}

abbrev at : ℕ → StationaryObservation Fixed ℕ
at t = record {
  device_id = "one";
  location = origin;
  observed_at = t;
  distance_moved_meters = fixed (pos 0);
  location_is_good = true;
  monitored_only = false;
}

abbrev settled : StationaryZoneManager Fixed ℕ
settled = record {
  zones =
      record {
        id = "stationary_1";
        center = origin;
        radius_meters = fixed (pos 100000000);
        active = true;
        occupants = "one" ∷ [];
        last_removed_at = none;
      }
      ∷ [];
  device_zones = ("one", "stationary_1") ∷ [];
  still_since = [];
  next_id = 1;
}

settled_run :
    observe_all fixed_float clock policy no_zones (at 0 ∷ at 60 ∷ []) empty_manager ≡ ok settled
unfolding observe_all observe observe_free stay settle place open_zone reusable_zone validate select
    select_measured measure get insert remove add show_nat filter sort_by position get_elem? modify
settled_run = refl

observe_all-AllConsistent_example : AllConsistent settled
observe_all-AllConsistent_example =
    observe_all-AllConsistent fixed_float clock policy no_zones (at 0 ∷ at 60 ∷ []) {m = settled}
      settled_run

abbrev two_at_home : ZoneOccupancy
two_at_home = ("one", "home") ∷ ("two", "home") ∷ []

counts_lem_example :
    unwrap_or (get "home" (counts two_at_home)) 0 ≡ length (devices_in "home" two_at_home)
counts_lem_example = counts_lem "home" two_at_home

get-update_occupancy_example :
    get "two" (update_occupancy "one" none two_at_home)
    ≡ (if str_eq "one" "two" then none else get "two" two_at_home)
get-update_occupancy_example = get-update_occupancy "one" "two" none two_at_home
