-- ===== src/Tracking/Zone/Selection.antt =====
-- `ZoneSet::select` finds the smallest active zone that contains the location.
use Prim.Native.Nat.{Ordering}
use Prim.Native.String.{compare}
use mathlib.Core.List.{Memᴰ, Perm}
use mathlib.Core.Path.{subst}
use icloud_location.Prelude.{
  ◌≡◌, ◌≢◌, refl, sym, ap, ◌∙◌, All-imp, All-both, All_mem, true, false, not, Option, none, some,
  List, [], ◌∷◌, arith, All, String, map_option, map,
}
use icloud_location.Std.Result.{ok, ok_injective}
use icloud_location.Std.Float.{Float, IsFloat, is_invalid}
use icloud_location.Std.FloatLaws.{positive_bounds}
use icloud_location.Std.Order.{IsTotal, then_by-IsTotal, on_key-IsTotal, compare-IsTotal}
use icloud_location.Std.Filter.{All-filter, mem-filter, All-of_filter}
use icloud_location.Std.Sort.{
  sort_by, first, first-sort_by, IsLeast, IsSorted, sort_by-IsSorted, sort_by-perm,
}
use icloud_location.Core
use icloud_location.Core.{Coordinates}
use icloud_location.Tracking.Zone.Defs.{
  Zone, ZoneSet, ZoneSelection, ZoneDistance, center, active_zones, measure, candidates, is_within,
  select, select_measured, compare_candidates, compare_zone_distances, allowance_of, zone_distance,
}
use icloud_location.Tracking.Zone.Validation.{IsUsable}

module _ {F : Type 0} (f : Float F) where
  abbrev pub Measured : Type 0
  Measured = Zone F × F

  -- A zone contains a location, with an allowance on its radius.
  abbrev pub Contains : Coordinates F → F → Zone F → Type 0
  Contains location allowance z =
      (c : Coordinates F) × (center f z ≡ ok c)
      × (f.le (Core.distance_meters f location c) (f.add z.radius_meters allowance) ≡ true)

  -- The measured distance of a zone.
  abbrev pub IsDistance : Coordinates F → Measured → Type 0
  IsDistance location (z, d) =
      (c : Coordinates F) × (center f z ≡ ok c) × (d ≡ Core.distance_meters f location c)

  -- Every zone is measured, in order.
  abbrev pub AreMeasured : Coordinates F → List (Zone F) → List Measured → Type 0
  AreMeasured location [] [] = Unit
  AreMeasured location [] (m ∷ ms) = ⊥
  AreMeasured location (z ∷ zs) [] = ⊥
  AreMeasured location (z ∷ zs) (m ∷ ms) =
      (m.0 ≡ z) × IsDistance location m × AreMeasured location zs ms

  measure_total :
      (location : Coordinates F) (zs : List (Zone F))
      → All (IsUsable f) zs
      → (ms : List Measured) × (measure f location zs ≡ ok ms) × AreMeasured location zs ms
  unfolding measure
  measure_total location [] u = ([], refl, tt)
  measure_total location (z ∷ zs) u =
      let (c, e) = (u.0).centered in
      let (ms, e', rest) = measure_total location zs u.1 in
      ((z, Core.distance_meters f location c) ∷ ms, rw (e, e'), (refl, (c, e, refl), rest))

  same_measure :
      (location : Coordinates F) (z y : Zone F) (d d' : F)
      → y ≡ z
      → IsDistance location (y, d)
      → IsDistance location (z, d')
      → ◌≡◌ {A = Measured} (y, d) (z, d')
  same_measure location z y d d' e (c, q, r) (c', q', r') =
      let t : center f y ≡ center f z = ap (center f) e in
      let s : c ≡ c' = ok_injective (sym q ∙ t ∙ q') in
      let u : d ≡ d' = r ∙ ap (Core.distance_meters f location) s ∙ sym r' in cc (e, u)

  -- A property of all measured zones is one of all zones with their distance.
  All-of_measured :
      (P : Measured → Type 0) (location : Coordinates F) (zs : List (Zone F)) (ms : List Measured)
      → AreMeasured location zs ms
      → All P ms
      → All (λ z. (d : F) → IsDistance location (z, d) → P (z, d)) zs
  All-of_measured P location [] ms a h = tt
  All-of_measured P location (z ∷ zs) [] a h = absurd a
  All-of_measured P location (z ∷ zs) ((y, d) ∷ ms) a h = (
    λ d' k. subst P (same_measure location z y d d' a.0 a.1 k) h.0,
    All-of_measured P location zs ms a.2 h.1,
  )

  mem-measured :
      (location : Coordinates F) (zs : List (Zone F)) (ms : List Measured) (z : Zone F) (d : F)
      → AreMeasured location zs ms
      → Memᴰ (z, d) ms
      → Memᴰ z zs × IsDistance location (z, d)
  mem-measured location [] [] z d a m = elim m [ ]
  mem-measured location [] (n ∷ ms) z d a m = absurd a
  mem-measured location (y ∷ zs) [] z d a m = absurd a
  mem-measured location (y ∷ zs) (n ∷ ms) z d a (Memᴰ.head e) =
      (Memᴰ.head (ap (λ (m : Measured). m.0) e ∙ a.0), subst (IsDistance location) (sym e) a.1)
  mem-measured location (y ∷ zs) (n ∷ ms) z d a (Memᴰ.tail t) =
      let (m, k) = mem-measured location zs ms z d a.2 t in (Memᴰ.tail m, k)

  -- The order of the candidates is total.
  candidates-IsTotal : IsFloat f → IsTotal (compare_candidates f)
  candidates-IsTotal laws =
      then_by-IsTotal _ _
        (on_key-IsTotal (λ (m : Measured). (m.0).radius_meters) f.total_cmp laws.total_cmp-IsTotal)
        (on_key-IsTotal (λ (m : Measured). (m.0).id) compare compare-IsTotal)

  -- One zone is preferred to another: its radius is not larger, and among radii that `total_cmp`
  -- calls equal its identifier does not come later.
  pub record IsPreferred (z y : Zone F) : Type 0 where
    pub smaller : f.le z.radius_meters y.radius_meters ≡ true
    pub earlier :
        f.total_cmp z.radius_meters y.radius_meters ≡ Ordering.eq → compare z.id y.id ≢ Ordering.gt

  -- The selected zone: an active zone that contains the location and is preferred to every other
  -- one; no zone is selected where no active zone contains the location.
  abbrev pub IsSelected : List (Zone F) → Coordinates F → F → Option String → Type 0
  IsSelected zones location allowance none =
      All (λ z. z.passive ≡ false → ¬ Contains location allowance z) zones
  IsSelected zones location allowance (some id) =
      (z : Zone F) × Memᴰ z zones
      × (z.id ≡ id)
      × (z.passive ≡ false)
      × Contains location allowance z
      × All (λ y. y.passive ≡ false → Contains location allowance y → IsPreferred z y) zones

  -- What holds of every candidate holds of every active zone that contains the location.
  All-of_candidates :
      (P : Measured → Type 0) (location : Coordinates F) (allowance : F) (zones : List (Zone F))
      (ms : List Measured)
      → AreMeasured location (active_zones zones) ms
      → All P (candidates f allowance ms)
      → All
          (λ z.
            z.passive ≡ false
            → (d : F) → IsDistance location (z, d)
            → is_within f allowance (z, d) ≡ true
            → P (z, d))
          zones
  All-of_candidates P location allowance zones ms a h =
      let in_ms = All-of_filter (is_within f allowance) P ms h in
      let in_active =
        All-of_measured (λ m. is_within f allowance m ≡ true → P m) location (active_zones zones) ms
          a in_ms in
      let in_zones = All-of_filter (λ (zone : Zone F). not zone.passive) _ zones in_active in
      All-imp _ _ zones (λ z k p. k (rw p)) in_zones

  prefers :
      (laws : IsFloat f) (z y : Zone F) (d d' : F)
      → IsUsable f z
      → IsUsable f y
      → compare_candidates f (z, d) (y, d') ≢ Ordering.gt
      → IsPreferred z y
  prefers laws z y d d' u v h = record {
    smaller =
        laws.total_cmp_le z.radius_meters y.radius_meters
          (positive_bounds f laws z.radius_meters u.round).0
          (positive_bounds f laws y.radius_meters v.round).0 (ground arith);
    earlier = ground arith;
  }

  IsSelected-of_least :
      (laws : IsFloat f) (location : Coordinates F) (allowance : F) (zones : List (Zone F))
      (ms : List Measured)
      → All (IsUsable f) zones
      → AreMeasured location (active_zones zones) ms
      → (o : Option Measured) → IsLeast (compare_candidates f) (candidates f allowance ms) o
      → IsSelected zones location allowance (map_option (λ m. (m.0).id) o)
  IsSelected-of_least laws location allowance zones ms u a none empty =
      All-imp _ _ zones (λ z k p (c, e, w). k p (Core.distance_meters f location c) (c, e, refl) w)
        (All-of_candidates (λ m. ⊥) location allowance zones ms a (rw empty tt))
  IsSelected-of_least laws location allowance zones ms u a (some (z, d)) least =
      let (in_ms, w) = mem-filter (is_within f allowance) (z, d) ms least.0 in
      let (in_active, (c, e, q)) = mem-measured location (active_zones zones) ms z d a in_ms in
      let (in_zones, p) = mem-filter (λ (zone : Zone F). not zone.passive) z zones in_active in
      let usable = All_mem (IsUsable f) zones u in_zones in
      let others =
        All-of_candidates (λ m. compare_candidates f (z, d) m ≢ Ordering.gt) location allowance
          zones ms a least.1 in
      (
        z,
        in_zones,
        refl,
        ground arith,
        (c, e, rw q at w),
        All-imp _ _ zones
            (λ y (v, k) py (c', e', w').
              prefers laws z y d (Core.distance_meters f location c') usable v
                (k py (Core.distance_meters f location c') (c', e', refl) w'))
            (All-both (IsUsable f) _ zones u others),
      )

  select_measured-IsSelected :
      (laws : IsFloat f) (location : Coordinates F) (allowance : F) (zones : List (Zone F))
      (ms : List Measured)
      → All (IsUsable f) zones
      → AreMeasured location (active_zones zones) ms
      → IsSelected zones location allowance (select_measured f allowance ms).selected_zone
  unfolding select_measured
  select_measured-IsSelected laws location allowance zones ms u a =
      let within = candidates f allowance ms in
      IsSelected-of_least laws location allowance zones ms u a
        (first (sort_by (compare_candidates f) within))
        (first-sort_by (compare_candidates f) within (candidates-IsTotal laws))

  distances-IsSorted :
      IsFloat f
      → (allowance : F) (ms : List Measured)
      → IsSorted (compare_zone_distances f) (select_measured f allowance ms).distances
  unfolding select_measured
  distances-IsSorted laws allowance ms =
      sort_by-IsSorted (compare_zone_distances f)
        (then_by-IsTotal _ _
          (on_key-IsTotal (λ (z : ZoneDistance F). z.distance_meters) f.total_cmp
            laws.total_cmp-IsTotal)
          (on_key-IsTotal (λ (z : ZoneDistance F). z.zone_id) compare compare-IsTotal))
        (map zone_distance ms)

  distances-perm :
      (allowance : F) (ms : List Measured)
      → Perm (select_measured f allowance ms).distances (map zone_distance ms)
  unfolding select_measured
  distances-perm allowance ms = sort_by-perm (compare_zone_distances f) (map zone_distance ms)

  -- The distances to the zones: each zone once, with its distance, and the nearest first.
  abbrev pub AreDistances : Coordinates F → List (Zone F) → List (ZoneDistance F) → Type 0
  AreDistances location zones ds =
      (ms : List Measured) × AreMeasured location zones ms
      × Perm ds (map zone_distance ms)
      × IsSorted (compare_zone_distances f) ds

  -- On a list of usable zones and a valid accuracy the selection succeeds. It gives the active zone
  -- of the smallest radius that contains the location, the earliest identifier among equal radii, or
  -- no zone if no active zone contains it; and the distances of all active zones, each once and the
  -- nearest first.
  pub select_smallest :
      (laws : IsFloat f) (set : ZoneSet F) (location : Coordinates F) (accuracy : F)
      → All (IsUsable f) set.zones
      → is_invalid f accuracy ≡ false
      → (s : ZoneSelection F) × (select f set location accuracy ≡ ok s)
        × IsSelected set.zones location (allowance_of f accuracy) s.selected_zone
        × AreDistances location (active_zones set.zones) s.distances
  unfolding select
  select_smallest laws set location accuracy u valid =
      let (ms, e, a) =
        measure_total location (active_zones set.zones)
          (All-filter (λ (zone : Zone F). not zone.passive) (IsUsable f) set.zones u) in
      let allowance = allowance_of f accuracy in
      (
        select_measured f allowance ms,
        rw (valid, e),
        select_measured-IsSelected laws location allowance set.zones ms u a,
        (ms, a, distances-perm allowance ms, distances-IsSorted laws allowance ms),
      )
