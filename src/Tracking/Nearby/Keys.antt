-- ===== src/Tracking/Nearby/Keys.antt =====
-- The neighbors of a device are devices.
use Prim.Native.Nat.{Ordering}
use Prim.Native.String.{compare}
use mathlib.Core.List.{foldl}
use icloud_location.Prelude.{
  ◌≡◌, refl, ◌∙◌, true, List, [], ◌∷◌, arith, String, str_eq, is_some, All, All-imp, inl, inr,
  Bool-cases, eq_iff,
}
use icloud_location.Std.Float.{Float}
use icloud_location.Std.TreeMap.{TreeSet, get, insert, get-insert, add}
use icloud_location.Tracking.Nearby.Defs.{
  NearbyDevice, NearbyDevicePolicy, Adjacency, add_neighbor, no_neighbors, eligible, link_with,
  link,
}

abbrev pub HasKey : Adjacency → String → Type 0
HasKey m k = is_some (get k m) ≡ true

-- All neighbors in a map satisfy a predicate.
abbrev pub AllNeighbors : (String → Type 0) → Adjacency → Type 0
AllNeighbors K = All (λ (e : String × TreeSet). All K e.1)

-- To split on an order within a goal.
elim_ordering {ℓ κ} :
    {A : Type ℓ} (P : A → Type κ) (o : Ordering) (x y z : A)
    → P x
    → P y
    → P z
    → P (elim o [ Ordering.lt ↦ x | Ordering.eq ↦ y | Ordering.gt ↦ z ])
elim_ordering P Ordering.lt x y z p q r = p
elim_ordering P Ordering.eq x y z p q r = q
elim_ordering P Ordering.gt x y z p q r = r

add-All : (K : String → Type 0) (k : String) (s : TreeSet) → K k → All K s → All K (add k s)
unfolding add
add-All K k [] h t = (h, tt)
add-All K k (j ∷ s) h t =
    elim_ordering (All K) (compare k j) _ _ _ (h, t) t (t.0, add-All K k s h t.1)

add_neighbor-AllNeighbors :
    (K : String → Type 0) (key n : String) (m : Adjacency)
    → K n
    → AllNeighbors K m
    → AllNeighbors K (add_neighbor key n m)
unfolding add_neighbor
add_neighbor-AllNeighbors K key n [] h t = tt
add_neighbor-AllNeighbors K key n ((k, s) ∷ m) h t = elim (Bool-cases (str_eq k key)) [
  | inl e ↦ rw e (add-All K n s h t.0, t.1)
  | inr e ↦ rw e (t.0, add_neighbor-AllNeighbors K key n m h t.1)
]

is_some-add_neighbor :
    (key n j : String) (m : Adjacency) → is_some (get j (add_neighbor key n m)) ≡ is_some (get j m)
unfolding add_neighbor get
is_some-add_neighbor key n j [] = refl
is_some-add_neighbor key n j ((k, s) ∷ m) = ground (arith, is_some-add_neighbor key n j m)

insert-AllNeighbors :
    (K : String → Type 0) (key : String) (m : Adjacency)
    → AllNeighbors K m
    → AllNeighbors K (insert key [] m)
unfolding insert
insert-AllNeighbors K key [] t = (tt, tt)
insert-AllNeighbors K key ((k, s) ∷ m) t =
    elim_ordering (AllNeighbors K) (compare key k) _ _ _ (tt, t) (tt, t.1)
      (t.0, insert-AllNeighbors K key m t.1)

module _ {F : Type 0} (f : Float F) where
  abbrev Start : Adjacency → List (NearbyDevice F) → Adjacency
  Start m ds = foldl (λ m (d : NearbyDevice F). insert d.device_id [] m) m ds

  start_keeps :
      (ds : List (NearbyDevice F)) (m : Adjacency) (j : String) → HasKey m j → HasKey (Start m ds) j
  start_keeps [] m j h = h
  start_keeps (d ∷ ds) m j h =
      start_keeps ds (insert d.device_id [] m) j (ground (arith, get-insert d.device_id j [] m, h))

  start_has :
      (ds : List (NearbyDevice F)) (m : Adjacency)
      → All (λ (d : NearbyDevice F). HasKey (Start m ds) d.device_id) ds
  start_has [] m = tt
  start_has (d ∷ ds) m = (
    start_keeps ds (insert d.device_id [] m) d.device_id
        (ground (arith, get-insert d.device_id d.device_id [] m, eq_iff d.device_id d.device_id)),
    start_has ds (insert d.device_id [] m),
  )

  start-AllNeighbors :
      (K : String → Type 0) (ds : List (NearbyDevice F)) (m : Adjacency)
      → AllNeighbors K m
      → AllNeighbors K (Start m ds)
  start-AllNeighbors K [] m t = t
  start-AllNeighbors K (d ∷ ds) m t =
      start-AllNeighbors K ds (insert d.device_id [] m) (insert-AllNeighbors K d.device_id m t)

  -- The map where two devices are neighbors of each other.
  abbrev Linked : NearbyDevice F → NearbyDevice F → Adjacency → Adjacency
  Linked left right m =
      add_neighbor right.device_id left.device_id (add_neighbor left.device_id right.device_id m)

  link_with-AllNeighbors :
      (K : String → Type 0) (policy : NearbyDevicePolicy F) (left : NearbyDevice F)
      (ds : List (NearbyDevice F)) (m : Adjacency)
      → K left.device_id
      → All (λ (d : NearbyDevice F). K d.device_id) ds
      → AllNeighbors K m
      → AllNeighbors K (link_with f policy left ds m)
  unfolding link_with
  link_with-AllNeighbors K policy left [] m h hs t = t
  link_with-AllNeighbors K policy left (right ∷ ds) m h hs t =
      elim (Bool-cases (eligible f policy left right)) [
        | inl e ↦ rw e (
            link_with-AllNeighbors K policy left ds (Linked left right m) h hs.1 (
              add_neighbor-AllNeighbors K right.device_id left.device_id _ h
                (add_neighbor-AllNeighbors K left.device_id right.device_id m hs.0 t)))
        | inr e ↦ rw e (link_with-AllNeighbors K policy left ds m h hs.1 t)
      ]

  link-AllNeighbors :
      (K : String → Type 0) (policy : NearbyDevicePolicy F) (ds : List (NearbyDevice F))
      (m : Adjacency)
      → All (λ (d : NearbyDevice F). K d.device_id) ds
      → AllNeighbors K m
      → AllNeighbors K (link f policy ds m)
  unfolding link
  link-AllNeighbors K policy [] m hs t = t
  link-AllNeighbors K policy (d ∷ ds) m hs t =
      link-AllNeighbors K policy ds (link_with f policy d ds m) hs.1
        (link_with-AllNeighbors K policy d ds m hs.0 hs.1 t)

  link_with-HasKey :
      (policy : NearbyDevicePolicy F) (left : NearbyDevice F) (ds : List (NearbyDevice F))
      (m : Adjacency) (j : String)
      → HasKey m j
      → HasKey (link_with f policy left ds m) j
  unfolding link_with
  link_with-HasKey policy left [] m j h = h
  link_with-HasKey policy left (right ∷ ds) m j h =
      elim (Bool-cases (eligible f policy left right)) [
        | inl e ↦ rw e (
            link_with-HasKey policy left ds (Linked left right m) j (
              is_some-add_neighbor right.device_id left.device_id j _
              ∙ is_some-add_neighbor left.device_id right.device_id j m
              ∙ h))
        | inr e ↦ rw e (link_with-HasKey policy left ds m j h)
      ]

  link-HasKey :
      (policy : NearbyDevicePolicy F) (ds : List (NearbyDevice F)) (m : Adjacency) (j : String)
      → HasKey m j
      → HasKey (link f policy ds m) j
  unfolding link
  link-HasKey policy [] m j h = h
  link-HasKey policy (d ∷ ds) m j h =
      link-HasKey policy ds (link_with f policy d ds m) j (link_with-HasKey policy d ds m j h)

  -- In the finished map every device has a key, and every neighbor has one.
  pub adjacency_closed :
      (policy : NearbyDevicePolicy F) (ds : List (NearbyDevice F))
      → let m = link f policy ds (no_neighbors f ds) in
        All (λ (d : NearbyDevice F). HasKey m d.device_id) ds × AllNeighbors (HasKey m) m
  unfolding no_neighbors
  adjacency_closed policy ds =
      let start = Start [] ds in
      let m = link f policy ds start in
      let has = start_has ds [] in
      let grown = link-HasKey policy ds start in
      (
        All-imp _ _ ds (λ d. grown d.device_id) has,
        All-imp _ _ m (λ e. All-imp _ _ e.1 grown)
            (link-AllNeighbors (HasKey start) policy ds start has
              (start-AllNeighbors (HasKey start) ds [] tt)),
      )
