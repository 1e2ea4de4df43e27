-- ===== src/Tracking/Nearby/Total.antt =====
-- Grouping ends, and on valid input it ends with groups.
use icloud_location.Prelude.{
  ℕ, zero, suc, ◌+◌, ◌≤◌, ◌≡◌, refl, ap, Bool, true, false, some, List, [], ◌∷◌, ◌++◌, arith,
  String, str_eq, if◌then◌else◌, All, inl, inr, Bool-cases, Option-cases, eq_iff, length, map,
}
use icloud_location.Std.Result.{Result, ok, err, panic}
use icloud_location.Std.Float.{Float}
use icloud_location.Std.TreeMap.{TreeSet, get, contains, add, contains-add}
use icloud_location.Tracking.Nearby.Defs.{
  NearbyDevice, NearbyDevicePolicy, NearbyDeviceGroup, Adjacency, extend, visit, degrees, collect,
  push_group, link, no_neighbors, is_valid, group_nearby_devices,
}
use icloud_location.Tracking.Nearby.Keys.{HasKey, AllNeighbors, adjacency_closed}

-- A result with a value.
abbrev Succeeds {ℓ} : {E : Type 0} {A : Type ℓ} → Result E A → Type 0
Succeeds (ok a) = Unit
Succeeds (err e) = ⊥
Succeeds panic = ⊥

value_of {ℓ} : {E : Type 0} {A : Type ℓ} (r : Result E A) → Succeeds r → (a : A) × (r ≡ ok a)
value_of (ok a) h = (a, refl)
value_of (err e) h = absurd h
value_of panic h = absurd h

elim_bool {ℓ κ} :
    {A : Type ℓ} (P : A → Type κ) (b : Bool) (x y : A)
    → (b ≡ true → P x)
    → (b ≡ false → P y)
    → P (elim b [ true ↦ x | false ↦ y ])
elim_bool P true x y p q = p refl
elim_bool P false x y p q = q refl

-- The number of neighbors of the devices that are not visited yet.
abbrev remaining : Adjacency → TreeSet → ℕ
remaining [] visited = 0
remaining ((k, s) ∷ m) visited = (if contains k visited then 0 else length s) + remaining m visited

remaining-le-degrees : (m : Adjacency) (visited : TreeSet) → remaining m visited ≤ degrees m
remaining-le-degrees [] visited = omega arith
remaining-le-degrees ((k, s) ∷ m) visited = ground (arith, remaining-le-degrees m visited)

-- A visit uses up the neighbors of a device.
remaining-add_le :
    (m : Adjacency) (k : String) (visited : TreeSet)
    → remaining m (add k visited) ≤ remaining m visited
remaining-add_le [] k visited = omega arith
remaining-add_le ((j, s) ∷ m) k visited =
    ground (arith, remaining-add_le m k visited, contains-add k j visited)

remaining-add :
    (m : Adjacency) (k : String) (visited : TreeSet) (ns : TreeSet)
    → get k m ≡ some ns
    → contains k visited ≡ false
    → remaining m (add k visited) + length ns ≤ remaining m visited
unfolding get
remaining-add [] k visited ns e fresh = absurd cc
remaining-add ((j, s) ∷ m) k visited ns e fresh = elim (Bool-cases (str_eq j k)) [
  | inl same ↦
      let jk : j ≡ k = ground (arith, same, eq_iff j k) in
      let was : contains j visited ≡ false = rw jk fresh in
      let now : contains j (add k visited) ≡ true =
        ground (arith, contains-add k j visited, eq_iff k j, jk) in
      let found : s ≡ ns = ground (arith, same, e) in
      ground (arith, now, was, ap (λ (x : TreeSet). length x) found, remaining-add_le m k visited)
  | inr other ↦
      let later : get k m ≡ some ns = ground (arith, other, e) in
      ground (
        arith,
        contains-add k j visited,
        eq_iff k j,
        eq_iff j k,
        other,
        remaining-add m k visited ns later fresh,
      )
]

length-extend : (pending ns : List String) → length (extend pending ns) ≡ length pending + length ns
unfolding extend
length-extend pending [] = omega arith
length-extend pending (n ∷ ns) = omega (arith, length-extend (n ∷ pending) ns)

All-extend :
    (K : String → Type 0) (pending ns : List String)
    → All K pending
    → All K ns
    → All K (extend pending ns)
unfolding extend
All-extend K pending [] h t = h
All-extend K pending (n ∷ ns) h t = All-extend K (n ∷ pending) ns (t.0, h) t.1

-- What the map has under a key are neighbors.
get-AllNeighbors :
    (K : String → Type 0) (m : Adjacency) (k : String) {ns : TreeSet}
    → AllNeighbors K m
    → get k m ≡ some ns
    → All K ns
unfolding get
get-AllNeighbors K [] k h e = absurd cc
get-AllNeighbors K ((j, s) ∷ m) k {ns} h e = elim (Bool-cases (str_eq j k)) [
  | inl same ↦ let found : s ≡ ns = ground (arith, same, e) in rw (← found) h.0
  | inr other ↦ get-AllNeighbors K m k h.1 (ground (arith, other, e))
]

-- With fuel for the pending devices and the neighbors that remain, the loop ends.
visit-Succeeds :
    (fuel : ℕ) (m : Adjacency) (pending members : List String) (visited : TreeSet)
    → AllNeighbors (HasKey m) m
    → All (HasKey m) pending
    → length pending + remaining m visited ≤ fuel
    → Succeeds (visit fuel m pending members visited)
unfolding visit
visit-Succeeds fuel m [] members visited closed keys enough = tt
visit-Succeeds zero m (d ∷ pending) members visited closed keys enough = absurd (omega arith)
visit-Succeeds (suc fuel) m (d ∷ pending) members visited closed keys enough =
    elim_bool Succeeds (contains d visited) _ _
      (λ _. visit-Succeeds fuel m pending members visited closed keys.1 (omega arith))
      (λ fresh. elim (Option-cases (get d m)) [
        | inl missing ↦ absurd (ground (arith, missing, keys.0))
        | inr (ns, found) ↦ rw found (
            visit-Succeeds fuel m (extend pending ns) (members ++ (d ∷ [])) (add d visited) closed
              (All-extend (HasKey m) pending ns keys.1
                (get-AllNeighbors (HasKey m) m d closed found))
              (omega (arith, length-extend pending ns, remaining-add m d visited ns found fresh)))
      ])

collect-Succeeds :
    (m : Adjacency) (ids : List String) (visited : TreeSet) (groups : List NearbyDeviceGroup)
    → AllNeighbors (HasKey m) m
    → All (HasKey m) ids
    → Succeeds (collect m ids visited groups)
unfolding collect
collect-Succeeds m [] visited groups closed keys = tt
collect-Succeeds m (d ∷ ids) visited groups closed keys =
    let walk = visit (1 + degrees m) m (d ∷ []) [] visited in
    let (r, e) = value_of walk (
      visit-Succeeds (1 + degrees m) m (d ∷ []) [] visited closed (keys.0, tt)
        (omega (arith, remaining-le-degrees m visited))) in
    elim_bool Succeeds (contains d visited) _ _
      (λ _. collect-Succeeds m ids visited groups closed keys.1)
      (λ _. rw e (collect-Succeeds m ids r.1 (push_group r.0 groups) closed keys.1))

All-map :
    {A : Type 0} (K : String → Type 0) (g : A → String) (xs : List A)
    → All (λ x. K (g x)) xs
    → All K (map g xs)
All-map K g [] h = tt
All-map K g (x ∷ xs) h = (h.0, All-map K g xs h.1)

module _ {F : Type 0} (f : Float F) where
  -- On valid distances and accuracies the grouping of any devices ends and gives groups: no device
  -- is missing from the adjacency, and the loop visits a bounded number of devices.
  pub group_total :
      (devices : List (NearbyDevice F)) (policy : NearbyDevicePolicy F)
      → is_valid f policy devices ≡ true
      → (groups : List NearbyDeviceGroup) × (group_nearby_devices f devices policy ≡ ok groups)
  unfolding group_nearby_devices
  group_total devices policy valid =
      let m = link f policy devices (no_neighbors f devices) in
      let (keys, closed) = adjacency_closed f policy devices in
      rw valid (
        value_of _ (
          collect-Succeeds m (map (λ d. d.device_id) devices) [] [] closed
            (All-map (HasKey m) (λ d. d.device_id) devices keys)))
