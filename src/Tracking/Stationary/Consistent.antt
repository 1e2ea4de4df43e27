-- ===== src/Tracking/Stationary/Consistent.antt =====
-- The zones of the manager stay consistent.
use icloud_location.Prelude.{
  ℕ, ◌≡◌, refl, true, false, not, List, [], ◌∷◌, ◌++◌, String, arith, is_some, is_none, is_empty,
  position, get_elem?, modify, length, All, All-modify, All-modify-position, modify-modify,
  modify-append, All-append, unwrap_or, ◌||◌,
}
use icloud_location.Prelude.Int.{pos}
use icloud_location.Std.Result.{ok, or_panic, ok_or}
use icloud_location.Std.Yields.{Yields, Yields_ok, Yields-if, Yields-bind, elim_option}
use icloud_location.Std.Words.{i64_or_max, saturating_add, u64_max}
use icloud_location.Std.Float.{Float}
use icloud_location.Std.Chrono.{Chrono}
use icloud_location.Std.TreeMap.{TreeSet, get, insert, add, discard}
use icloud_location.Core.{TrackingEvent}
use icloud_location.Tracking.Zone.Defs.{ZoneSet, select}
use icloud_location.Tracking.Stationary.Defs.{
  StationaryPolicy, StationaryZone, StationaryObservation, StationaryZoneManager, validate, has_id,
  reopen, new_zone, occupy, vacate, observe_existing, is_near, empty_manager,
}
use icloud_location.Tracking.Stationary.Observe.{
  is_joinable, reusable_zone, open_zone, place, settle, stay, observe_free, observe, observe_all,
}

add_nonempty : (k : String) (s : TreeSet) → is_empty (add k s) ≡ false
unfolding add
add_nonempty k [] = refl
add_nonempty k (j ∷ s) = ground arith

discard_empty : (k : String) (s : TreeSet) → is_empty s ≡ true → is_empty (discard k s) ≡ true
unfolding discard
discard_empty k [] h = refl
discard_empty k (j ∷ s) h = absurd cc

module _ {F I : Type 0} where
  -- A zone is active just when a device is in it, and then it has no time of removal; an idle one
  -- has such a time.
  abbrev pub IsConsistent : StationaryZone F I → Type 0
  IsConsistent zone =
      (zone.active ≡ not (is_empty zone.occupants)) × (zone.active ≡ is_none zone.last_removed_at)

  occupy-IsConsistent :
      (device : String) (zone : StationaryZone F I)
      → zone.active ≡ true
      → IsConsistent zone
      → IsConsistent (occupy device zone)
  occupy-IsConsistent device zone on (h, k) =
      ground (arith, on, h, k, add_nonempty device zone.occupants)

  vacate-IsConsistent :
      (device : String) (now : I) (zone : StationaryZone F I)
      → IsConsistent zone
      → IsConsistent (vacate device now zone)
  vacate-IsConsistent device now zone (h, k) =
      ground (arith, h, k, discard_empty device zone.occupants)

  reopen-IsConsistent :
      (f : Float F) (policy : StationaryPolicy F) (o : StationaryObservation F I)
      (zone : StationaryZone F I)
      → IsConsistent (occupy o.device_id (reopen f policy o.location zone))
  reopen-IsConsistent f policy o zone = ground (arith, add_nonempty o.device_id zone.occupants)

  abbrev pub AllConsistent : StationaryZoneManager F I → Type 0
  AllConsistent m = All IsConsistent m.zones

  abbrev After : StationaryZoneManager F I × List (TrackingEvent I) → Type 0
  After r = AllConsistent r.0

module _ {F I : Type 0} (f : Float F) where
  observe_existing-Yields :
      (o : StationaryObservation F I) (id : String) (m : StationaryZoneManager F I)
      → AllConsistent m
      → Yields After (observe_existing f o id m)
  unfolding observe_existing
  observe_existing-Yields o id m h =
      Yields-bind After (ok_or (position (has_id id) m.zones) _) _ λ i _.
        Yields-bind After (or_panic (get_elem? m.zones i)) _ λ zone _.
          Yields-if After (is_near f o.location zone) _ _ (λ _. h)
            λ _.
              All-modify IsConsistent (vacate o.device_id o.observed_at) i m.zones
                (vacate-IsConsistent o.device_id o.observed_at) h

module _ {F I D : Type 0} (f : Float F) (c : Chrono I D) where
  -- With the device in it, the zone that `place` finds leaves all zones consistent.
  abbrev IsPlaced : StationaryObservation F I → ℕ × List (StationaryZone F I) × ℕ → Type 0
  IsPlaced o (i, zones, _) = All IsConsistent (modify i (occupy o.device_id) zones)

  open_zone-Yields :
      (policy : StationaryPolicy F) (o : StationaryObservation F I) (m : StationaryZoneManager F I)
      → AllConsistent m
      → Yields (IsPlaced o) (open_zone f c policy o m)
  unfolding open_zone add
  open_zone-Yields policy o m h =
      let join = occupy o.device_id in
      let again = reopen f policy o.location in
      let fresh = new_zone f policy o.location (saturating_add u64_max m.next_id 1) in
      let made : All IsConsistent (modify (length m.zones) join (m.zones ++ (fresh ∷ []))) =
        rw (modify-append join m.zones fresh)
          (All-append IsConsistent m.zones (join fresh) h (refl, refl)) in
      let reopened : (i : ℕ) → All IsConsistent (modify i join (modify i again m.zones)) = λ i.
        rw (modify-modify join again i m.zones) (
          All-modify IsConsistent (λ zone. join (again zone)) i m.zones
            (λ zone _. reopen-IsConsistent f policy o zone) h) in
      Yields-bind (IsPlaced o)
        (reusable_zone f c o.observed_at policy.reuse_cooldown_seconds m.zones) _
        λ idle _. elim_option (IsPlaced o) idle _ _ (λ _. made) (λ i _. reopened i)

  place-Yields :
      (policy : StationaryPolicy F) (o : StationaryObservation F I) (m : StationaryZoneManager F I)
      → AllConsistent m
      → Yields (IsPlaced o) (place f c policy o m)
  unfolding place
  place-Yields policy o m h =
      elim_option (Yields (IsPlaced o)) (position (is_joinable f c o) m.zones) _ _
        (λ _. open_zone-Yields policy o m h)
        (λ i found.
          All-modify-position IsConsistent (is_joinable f c o) (occupy o.device_id) i m.zones
            (λ zone joinable. occupy-IsConsistent o.device_id zone (ground (arith, joinable))) found
            h)

  settle-Yields :
      (policy : StationaryPolicy F) (o : StationaryObservation F I) (m : StationaryZoneManager F I)
      → AllConsistent m
      → Yields After (settle f c policy o m)
  unfolding settle
  settle-Yields policy o m h = Yields-bind After (place f c policy o m) _ λ (i, zones, n) placed.
      Yields-bind After (or_panic (get_elem? zones i)) _
        λ zone _. Yields_ok (IsPlaced o) (place f c policy o m) (place-Yields policy o m h) placed

  stay-Yields :
      (policy : StationaryPolicy F) (o : StationaryObservation F I) (m : StationaryZoneManager F I)
      → AllConsistent m
      → Yields After (stay f c policy o m)
  unfolding stay
  stay-Yields policy o m h =
      let since = unwrap_or (get o.device_id m.still_since) o.observed_at in
      let waiting = record m { still_since = insert o.device_id since m.still_since } in
      Yields-bind After (or_panic (c.seconds (pos (i64_or_max policy.still_seconds)))) _ λ still _.
        Yields-if After (c.shorter (c.since o.observed_at since) still) _ _ (λ _. h)
          (λ _. settle-Yields policy o waiting h)

  observe_free-Yields :
      (policy : StationaryPolicy F) (regular_zones : ZoneSet F) (o : StationaryObservation F I)
      (m : StationaryZoneManager F I)
      → AllConsistent m
      → Yields After (observe_free f c policy regular_zones o m)
  unfolding observe_free
  observe_free-Yields policy regular_zones o m h =
      Yields-if After (not policy.enabled || not o.location_is_good || o.monitored_only) _ _
        (λ _. h)
        λ _. Yields-bind After (select f regular_zones o.location (f.decimal 0 0)) _ λ selection _.
          Yields-if After (is_some selection.selected_zone) _ _ (λ _. h)
            λ _.
              Yields-if After (f.lt policy.movement_limit_meters o.distance_moved_meters) _ _
                (λ _. h) λ _. stay-Yields policy o m h

  pub observe-Yields :
      (policy : StationaryPolicy F) (regular_zones : ZoneSet F) (o : StationaryObservation F I)
      (m : StationaryZoneManager F I)
      → AllConsistent m
      → Yields After (observe f c policy regular_zones o m)
  unfolding observe
  observe-Yields policy regular_zones o m h =
      Yields-bind After (validate f policy o.distance_moved_meters) _ λ _ _.
        elim_option (Yields After) (get o.device_id m.device_zones) _ _
          (λ _. observe_free-Yields policy regular_zones o m h)
          (λ id _. observe_existing-Yields f o id m h)

  observe_all-Yields :
      (policy : StationaryPolicy F) (regular_zones : ZoneSet F)
      (os : List (StationaryObservation F I)) (m : StationaryZoneManager F I)
      → AllConsistent m
      → Yields AllConsistent (observe_all f c policy regular_zones os m)
  unfolding observe_all
  observe_all-Yields policy regular_zones [] m h = h
  observe_all-Yields policy regular_zones (o ∷ os) m h =
      let step = observe f c policy regular_zones o m in
      Yields-bind AllConsistent step _ λ (m1, _) e.
        observe_all-Yields policy regular_zones os m1
          (Yields_ok After step (observe-Yields policy regular_zones o m h) e)

  -- After any observations from the empty manager on, a stationary zone is active just when a
  -- device is in it, and an idle zone, and no other, has a time of removal.
  pub observe_all-AllConsistent :
      (policy : StationaryPolicy F) (regular_zones : ZoneSet F)
      (os : List (StationaryObservation F I)) {m : StationaryZoneManager F I}
      → observe_all f c policy regular_zones os empty_manager ≡ ok m
      → AllConsistent m
  observe_all-AllConsistent policy regular_zones os e =
      Yields_ok AllConsistent (observe_all f c policy regular_zones os empty_manager)
        (observe_all-Yields policy regular_zones os empty_manager tt) e
