-- ===== src/Tracking/Nearby/Defs.antt =====
-- `group_nearby_devices` of crates/icloud-tracking/src/nearby.rs.
--
-- The vector `pending` is a list whose head is its last element. The loop over it runs on fuel, one
-- more than the number of all neighbors; without fuel the model gives `panic`.
use Prim.Native.String.{compare}
use mathlib.Core.List.{foldl}
use icloud_location.Prelude.{
  ℕ, zero, suc, ◌+◌, Bool, true, false, not, ◌&&◌, ◌||◌, Option, none, some, List, [], ◌∷◌, ◌++◌,
  String, str_eq, if◌then◌else◌, is_some_and, unwrap_or, any, length, map, ltb,
}
use icloud_location.Std.Result.{ok, panic, ◌>>=◌, ◌>>◌, reject_if, or_panic}
use icloud_location.Std.Words.{saturate, u64_max}
use icloud_location.Std.Float.{Float, is_invalid}
use icloud_location.Std.Sort.{sort_by}
use icloud_location.Std.TreeMap.{TreeMap, TreeSet, get, insert, contains, add}
use icloud_location.Core.{Coordinates, distance_meters}
use icloud_location.Tracking.Error.{Tracked, invalid_input}

pub record NearbyDevice (F : Type 0) : Type 0 where
  pub device_id : String
  pub location : Coordinates F
  pub horizontal_accuracy_meters : Option F
  pub current_zone : Option String
  pub tracked : Bool
  pub online : Bool
  pub is_watch : Bool

pub record NearbyDevicePolicy (F : Type 0) : Type 0 where
  pub maximum_distance_meters : F
  pub maximum_accuracy_meters : F

pub record NearbyDeviceGroup : Type 0 where
  pub id : ℕ
  pub device_ids : List String

abbrev pub Adjacency : Type 0
Adjacency = TreeMap TreeSet

-- `left.current_zone == right.current_zone`
abbrev pub same_zone : Option String → Option String → Bool
same_zone none none = true
same_zone (some a) (some b) = str_eq a b
same_zone none (some b) = false
same_zone (some a) none = false

-- `if let Some(neighbors) = adjacency.get_mut(key) { neighbors.insert(neighbor); }`
unfoldable pub add_neighbor : String → String → Adjacency → Adjacency
add_neighbor key neighbor [] = []
add_neighbor key neighbor ((k, s) ∷ m) =
    let rest = add_neighbor key neighbor m in
    if str_eq k key then (k, add neighbor s) ∷ m else (k, s) ∷ rest

-- `pending.extend(neighbors)`
unfoldable pub extend : List String → TreeSet → List String
extend pending [] = pending
extend pending (n ∷ ns) = extend (n ∷ pending) ns

-- The loop over `pending`, with the members found so far and the devices that were visited.
unfoldable pub visit :
    ℕ → Adjacency → List String → List String → TreeSet → Tracked (List String × TreeSet)
visit fuel adjacency [] members visited = ok (members, visited)
visit zero adjacency (device ∷ pending) members visited = panic
visit (suc fuel) adjacency (device ∷ pending) members visited = elim (contains device visited) [
  | true ↦ visit fuel adjacency pending members visited
  | false ↦ (do
    neighbors ← or_panic (get device adjacency)
    visit fuel adjacency (extend pending neighbors) (members ++ (device ∷ [])) (add device visited))
]

-- The number of all neighbors.
abbrev pub degrees : Adjacency → ℕ
degrees [] = 0
degrees ((_, s) ∷ m) = length s + degrees m

-- The groups with one more, if it has more than one member.
unfoldable pub push_group : List String → List NearbyDeviceGroup → List NearbyDeviceGroup
push_group members groups =
    if ltb 1 (length members)
    then groups
      ++ (record { id = saturate u64_max (length groups + 1); device_ids = sort_by compare members }
          ∷ [])
    else groups

-- The loop over the devices, with the groups found so far.
unfoldable pub collect :
    Adjacency → List String → TreeSet → List NearbyDeviceGroup → Tracked (List NearbyDeviceGroup)
collect adjacency [] visited groups = ok groups
collect adjacency (device ∷ devices) visited groups = elim (contains device visited) [
  | true ↦ collect adjacency devices visited groups
  | false ↦ (do
    (members, visited') ← visit (1 + degrees adjacency) adjacency (device ∷ []) [] visited
    collect adjacency devices visited' (push_group members groups))
]

module _ {F : Type 0} (f : Float F) where
  -- `adjacency` at first: each device without neighbors.
  unfoldable pub no_neighbors : List (NearbyDevice F) → Adjacency
  no_neighbors ds = foldl (λ m (d : NearbyDevice F). insert d.device_id [] m) [] ds

  unfoldable pub eligible : NearbyDevicePolicy F → NearbyDevice F → NearbyDevice F → Bool
  eligible policy left right =
      left.tracked
      && right.tracked
      && left.online
      && right.online
      && not left.is_watch
      && not right.is_watch
      && same_zone left.current_zone right.current_zone
      && f.le
          (f.min (unwrap_or left.horizontal_accuracy_meters f.infinity)
            (unwrap_or right.horizontal_accuracy_meters f.infinity))
          policy.maximum_accuracy_meters
      && f.le (distance_meters f left.location right.location) policy.maximum_distance_meters

  -- The inner loop: a device with those after it.
  unfoldable pub link_with :
      NearbyDevicePolicy F → NearbyDevice F → List (NearbyDevice F) → Adjacency → Adjacency
  link_with policy left [] m = m
  link_with policy left (right ∷ rest) m = link_with policy left rest (
      if eligible policy left right
      then add_neighbor right.device_id left.device_id
          (add_neighbor left.device_id right.device_id m)
      else m)

  -- The outer loop.
  unfoldable pub link : NearbyDevicePolicy F → List (NearbyDevice F) → Adjacency → Adjacency
  link policy [] m = m
  link policy (left ∷ rest) m = link policy rest (link_with policy left rest m)

  unfoldable pub is_valid : NearbyDevicePolicy F → List (NearbyDevice F) → Bool
  is_valid policy devices = not (
      is_invalid f policy.maximum_distance_meters
      || is_invalid f policy.maximum_accuracy_meters
      || any (λ d. is_some_and d.horizontal_accuracy_meters (is_invalid f)) devices)

  unfoldable pub group_nearby_devices :
      List (NearbyDevice F) → NearbyDevicePolicy F → Tracked (List NearbyDeviceGroup)
  group_nearby_devices devices policy = do
    reject_if (not (is_valid policy devices))
        (invalid_input "nearby-device thresholds and accuracy must be finite and non-negative")
    collect (link policy devices (no_neighbors devices)) (map (λ d. d.device_id) devices) [] []
