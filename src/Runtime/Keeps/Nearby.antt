-- ===== src/Runtime/Keeps/Nearby.antt =====
-- `update_nearby_devices` of src/runtime.rs keeps what the basic changes keep.
use icloud_location.Prelude.{Option, none, some, List, [], ◌∷◌, String, ℕ, str_eq}
use icloud_location.Core.{Coordinates, LocationSample}
use icloud_location.Tracking.State.Events.{TrackingState}
use icloud_location.Runtime.Defs.{Env}
use icloud_location.Runtime.Nearby.{
  distances_from, mark_nearby, mark_located, mark_member, update_nearby_devices,
}
use icloud_location.Runtime.Keeps.Rules.{
  Keeps, IsKept, Keeps-pure, Keeps-on_state, Keeps-if, Keeps-bind, Keeps-device, kept_rules,
}

module _ {e : Env} {P : TrackingState e.F e.I e.J → Type 0} (kept : IsKept e P) where
  distances_from-Keeps :
      (origin : Coordinates e.F) (id : String) (candidates : List String)
      → Keeps e P (distances_from origin id candidates)
  unfolding distances_from
  distances_from-Keeps origin id [] = Keeps-pure _
  distances_from-Keeps origin id (candidate ∷ candidates) =
      let rest = distances_from-Keeps origin id candidates in
      Keeps-if (str_eq candidate id) _ _ rest
        (Keeps-bind _ _ (Keeps-device candidate) λ d. Keeps-bind _ _ rest λ others. Keeps-pure _)

  mark_nearby-Keeps :
      (group : ℕ) (id : String) (found : Option (String × e.F))
      → Keeps e P (mark_nearby group id found)
  mark_nearby-Keeps group id none = Keeps-pure tt
  mark_nearby-Keeps group id (some (nearest_id, distance)) = search kept_rules

  mark_located-Keeps :
      (group : ℕ) (ids : List String) (id : String) (l : Option (LocationSample e.F e.I))
      → Keeps e P (mark_located group ids id l)
  mark_located-Keeps group ids id none = Keeps-pure tt
  mark_located-Keeps group ids id (some l) =
      search (kept_rules, distances_from-Keeps, mark_nearby-Keeps)

  mark_member-Keeps :
      (group : ℕ) (ids : List String) (id : String) → Keeps e P (mark_member group ids id)
  unfolding mark_member
  mark_member-Keeps group ids id = search (kept_rules, mark_located-Keeps)

  pub update_nearby_devices-Keeps : Keeps e P update_nearby_devices
  unfolding update_nearby_devices
  update_nearby_devices-Keeps =
      search (kept_rules, Keeps-on_state, kept.nearby_forgotten, mark_member-Keeps) depth 16
