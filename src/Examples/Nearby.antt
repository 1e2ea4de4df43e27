-- ===== src/Examples/Nearby.antt =====
-- A concrete run of the grouping of nearby devices.
use icloud_location.Prelude.{◌≡◌, refl, Bool, true, false, some, List, [], ◌∷◌, String}
use icloud_location.Prelude.Int.{pos, ◌-ℤ◌, ◌+ℤ◌}
use icloud_location.Std.Result.{ok}
use icloud_location.Std.Sort.{sort_by, insert_by}
use icloud_location.Std.TreeMap.{get, insert, contains, add}
use icloud_location.Core.{distance_meters}
use icloud_location.Tracking.Nearby.Defs.{
  NearbyDevice, NearbyDevicePolicy, NearbyDeviceGroup, group_nearby_devices, is_valid, link,
  link_with, no_neighbors, eligible, add_neighbor, extend, visit, collect, push_group,
}
use icloud_location.Tracking.Nearby.Total.{group_total}
use icloud_location.Examples.Fixed.{Fixed, fixed, fixed_float}

abbrev device : String → Bool → NearbyDevice Fixed
device id watch = record {
  device_id = id;
  location = record { latitude = fixed (pos 0); longitude = fixed (pos 0) };
  horizontal_accuracy_meters = some (fixed (pos 5000000));
  current_zone = some "home";
  tracked = true;
  online = true;
  is_watch = watch;
}

abbrev devices : List (NearbyDevice Fixed)
devices = device "phone" false ∷ device "watch" true ∷ device "tablet" false ∷ []

abbrev policy : NearbyDevicePolicy Fixed
policy = record {
  maximum_distance_meters = fixed (pos 25000000);
  maximum_accuracy_meters = fixed (pos 25000000);
}

group_run :
    group_nearby_devices fixed_float devices policy
    ≡ ok (record { id = 1; device_ids = "phone" ∷ "tablet" ∷ [] } ∷ [])
unfolding group_nearby_devices is_valid link link_with no_neighbors eligible add_neighbor extend
    visit collect push_group sort_by insert_by get insert contains add distance_meters ◌-ℤ◌ ◌+ℤ◌
group_run = refl

group_total_example :
    (groups : List NearbyDeviceGroup) × (group_nearby_devices fixed_float devices policy
      ≡ ok groups)
unfolding is_valid
group_total_example = group_total fixed_float devices policy refl
