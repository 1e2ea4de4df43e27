-- ===== src/Runtime/Nearby.antt =====
-- `update_nearby_devices` of src/runtime.rs.
use Prim.Native.Nat.{Ordering}
use icloud_location.Prelude.{
  ℕ, true, Option, none, some, List, [], ◌∷◌, String, str_eq, is_some_and, if◌then◌else◌, map,
}
use icloud_location.Std.Float.{Float}
use icloud_location.Std.Text.{to_ascii_lowercase, contains_text}
use icloud_location.Std.TreeMap.{TreeMap}
use icloud_location.Core.{Coordinates, LocationSample, distance_meters}
use icloud_location.Tracking.Nearby.Defs.{NearbyDevice, NearbyDevicePolicy, group_nearby_devices}
use icloud_location.Tracking.State.Defs.{DeviceTrackingState}
use icloud_location.Tracking.State.Device.{is_online}
use icloud_location.Tracking.State.Events.{TrackingState}
use icloud_location.Runtime.Defs.{Env}
use icloud_location.Runtime.Action.{
  Action, pure, gets, tracked, on_state, on_device, device, for_each, ◌>>=◌, ◌>>◌,
}

module _ {F I J : Type 0} where
  -- A device with a location, as an input of the grouping.
  abbrev pub as_nearby : DeviceTrackingState F I J → LocationSample F I → NearbyDevice F
  as_nearby d l = record {
    device_id = d.device_id;
    location = l.coordinates;
    horizontal_accuracy_meters = l.horizontal_accuracy_meters;
    current_zone = d.current_zone;
    tracked = true;
    online = is_some_and d.availability is_online;
    is_watch = is_some_and d.model (λ model. contains_text (to_ascii_lowercase model) "watch");
  }

  unfoldable pub nearby_inputs : TreeMap (DeviceTrackingState F I J) → List (NearbyDevice F)
  nearby_inputs [] = []
  nearby_inputs ((_, d) ∷ devices) =
      let rest = nearby_inputs devices in
      elim d.current_location [ none ↦ rest | some l ↦ as_nearby d l ∷ rest ]

  -- No device is near another.
  abbrev pub forget_nearby : DeviceTrackingState F I J → DeviceTrackingState F I J
  forget_nearby d = record d {
    nearby_group = none;
    nearby_device_id = none;
    nearby_device_distance_meters = none;
  }

  unfoldable pub forget_all_nearby : TrackingState F I J → TrackingState F I J
  forget_all_nearby t = record t { devices = map (λ (k, d). (k, forget_nearby d)) t.devices }

module _ {F : Type 0} (f : Float F) where
  -- `NearbyDevicePolicy::default()`
  abbrev pub default_nearby_policy : NearbyDevicePolicy F
  default_nearby_policy = record {
    maximum_distance_meters = f.decimal 25 0;
    maximum_accuracy_meters = f.decimal 25 0;
  }

  -- `min_by(|left, right| left.1.total_cmp(&right.1))`: the first of the least.
  unfoldable pub nearest : List (String × F) → Option (String × F)
  nearest [] = none
  nearest (x ∷ xs) = elim (nearest xs) [
    | none ↦ some x
    | some y ↦ elim (f.total_cmp x.1 y.1) [ Ordering.gt ↦ some y | _ ↦ some x ]
  ]

module _ {e : Env} where
  -- The other members of a group that have a location, with their distances.
  unfoldable pub distances_from :
      Coordinates e.F → String → List String → Action e (List (String × e.F))
  distances_from origin id [] = pure []
  distances_from origin id (candidate ∷ candidates) =
      if str_eq candidate id then distances_from origin id candidates else (do
        d ← device candidate
        rest ← distances_from origin id candidates
        pure (elim d.current_location [
          | none ↦ rest
          | some l ↦ (candidate, distance_meters e.float origin l.coordinates) ∷ rest
        ]))

  abbrev pub mark_nearby : ℕ → String → Option (String × e.F) → Action e (Unit {0})
  mark_nearby group id none = pure tt
  mark_nearby group id (some (nearest_id, distance)) = on_device id (λ d. record d {
    nearby_group = some group;
    nearby_device_id = some nearest_id;
    nearby_device_distance_meters = some distance;
  })

  abbrev pub mark_located :
      ℕ → List String → String → Option (LocationSample e.F e.I) → Action e (Unit {0})
  mark_located group ids id none = pure tt
  mark_located group ids id (some l) = do
    distances ← distances_from l.coordinates id ids
    mark_nearby group id (nearest e.float distances)

  -- A member of a group gets the nearest other member.
  unfoldable pub mark_member : ℕ → List String → String → Action e (Unit {0})
  unfolding distances_from nearest
  mark_member group ids id = do d ← device id; mark_located group ids id d.current_location

  unfoldable pub update_nearby_devices : Action e (Unit {0})
  update_nearby_devices = do
    inputs ← gets (λ s. nearby_inputs s.state.devices)
    groups ← tracked (group_nearby_devices e.float inputs (default_nearby_policy e.float))
    on_state forget_all_nearby
    for_each groups (λ group. for_each group.device_ids (mark_member group.id group.device_ids))
