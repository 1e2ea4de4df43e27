-- ===== src/Tracking/ZoneState/Occupancy.antt =====
-- The counts of devices in zones.
use icloud_location.Prelude.{
  ℕ, ◌+◌, ◌≡◌, Option, none, some, [], ◌∷◌, String, str_eq, eq_iff, arith, length, unwrap_or,
  if◌then◌else◌,
}
use icloud_location.Std.TreeMap.{TreeMap, get, insert, get-insert, get-remove}
use icloud_location.Tracking.ZoneState.Defs.{
  ZoneOccupancy, update_occupancy, count_zones, counts, devices_in,
}

count_zones-get :
    (zone : String) (m : ZoneOccupancy) (acc : TreeMap ℕ)
    → unwrap_or (get zone (count_zones m acc)) 0
      ≡ unwrap_or (get zone acc) 0 + length (devices_in zone m)
unfolding count_zones devices_in
count_zones-get zone [] acc = omega arith
count_zones-get zone ((device, current) ∷ m) acc =
    let n = unwrap_or (get current acc) 0 + 1 in
    ground (
      arith,
      count_zones-get zone m (insert current n acc),
      get-insert current zone n acc,
      eq_iff current zone,
    )

-- The count of a zone is the number of the devices that are listed in it.
pub counts_lem :
    (zone : String) (m : ZoneOccupancy)
    → unwrap_or (get zone (counts m)) 0 ≡ length (devices_in zone m)
unfolding counts get
counts_lem zone m = omega (arith, count_zones-get zone m [])

-- An update moves one device and no other.
pub get-update_occupancy :
    (device other : String) (zone : Option String) (m : ZoneOccupancy)
    → get other (update_occupancy device zone m)
      ≡ (if str_eq device other then zone else get other m)
unfolding update_occupancy
get-update_occupancy device other none m = get-remove device other m
get-update_occupancy device other (some zone) m = get-insert device other zone m
