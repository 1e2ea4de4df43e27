-- ===== src/Runtime/Known.antt =====
-- Devices that the runtime knows: src/runtime.rs.
use icloud_location.Prelude.{
  ◌≡◌, refl, Bool, true, Option, none, some, List, [], ◌∷◌, String, ap, arith, is_some, str_eq,
  eq_iff, map, if◌then◌else◌, Option-cases, inl, inr, ◌∙◌, map_option,
}
use icloud_location.Std.TreeMap.{TreeMap, get, get-insert, contains}
use icloud_location.Tracking.State.Defs.{DeviceTrackingState, new_device}
use icloud_location.Tracking.State.Events.{TrackingState, record_event}
use icloud_location.Runtime.Defs.{Env, Runtime}
use icloud_location.Runtime.Action.{change_entry}
use icloud_location.Runtime.Accounts.{ensure_device}
use icloud_location.Runtime.Commands.{change_selected, change_devices}
use icloud_location.Runtime.Nearby.{forget_all_nearby, forget_nearby}
use icloud_location.Runtime.Keeps.Rules.{IsKept}
use icloud_location.Runtime.Reach.{Reach, reach-keeps}

module _ {F I J : Type 0} where
  abbrev pub is_known : String → TreeMap (DeviceTrackingState F I J) → Bool
  is_known id devices = is_some (get id devices)

  -- A device after a change of another, or of itself.
  pub get-change_entry :
      (j id : String) (g : DeviceTrackingState F I J → DeviceTrackingState F I J)
      (m : TreeMap (DeviceTrackingState F I J))
      → get j (change_entry id g m) ≡ (if str_eq id j then map_option g (get j m) else get j m)
  get-change_entry j id g m = elim (Option-cases (get id m)) [
    | inl e ↦ ground (arith, e, eq_iff id j)
    | inr (d, e) ↦ ground (arith, e, eq_iff id j, get-insert id j (g d) m)
  ]

  pub get-change_selected-none :
      (j : String) (g : DeviceTrackingState F I J → DeviceTrackingState F I J)
      (m : TreeMap (DeviceTrackingState F I J))
      → get j (change_selected none g m) ≡ map_option g (get j m)
  unfolding change_selected get
  get-change_selected-none j g [] = refl
  get-change_selected-none j g ((k, d) ∷ m) = ground (arith, get-change_selected-none j g m)

  known-change_selected :
      (j : String) (selected : Option String)
      (g : DeviceTrackingState F I J → DeviceTrackingState F I J)
      (m : TreeMap (DeviceTrackingState F I J))
      → is_known j (change_selected selected g m) ≡ is_known j m
  unfolding change_selected get
  known-change_selected j selected g [] = refl
  known-change_selected j selected g ((k, d) ∷ m) =
      ground (arith, known-change_selected j selected g m)

  known-forget :
      (j : String) (m : TreeMap (DeviceTrackingState F I J))
      → is_known j (map (λ (k, d). (k, forget_nearby d)) m) ≡ is_known j m
  unfolding get
  known-forget j [] = refl
  known-forget j ((k, d) ∷ m) = ground (arith, known-forget j m)

  change_twice :
      (g : DeviceTrackingState F I J → DeviceTrackingState F I J)
      (o : Option (DeviceTrackingState F I J))
      → ((d : DeviceTrackingState F I J) → g (g d) ≡ g d)
      → map_option g (map_option g o) ≡ map_option g o
  change_twice g none same = refl
  change_twice g (some d) same = ap some (same d)

  -- The devices after a change of some of them, which makes no difference if it is made twice.
  pub get-change_devices :
      (j : String) (ids : List String) (g : DeviceTrackingState F I J → DeviceTrackingState F I J)
      (t : TrackingState F I J)
      → ((d : DeviceTrackingState F I J) → g (g d) ≡ g d)
      → get j (change_devices ids g t).devices
        ≡ (if contains j ids then map_option g (get j t.devices) else get j t.devices)
  unfolding change_devices contains
  get-change_devices j [] g t same = refl
  get-change_devices j (id ∷ ids) g t same =
      let t' = record t { devices = change_entry id g t.devices } in
      ground (
        arith,
        get-change_devices j ids g t' same,
        get-change_entry j id g t.devices,
        change_twice g (get j t.devices) same,
      )

module _ {F I J : Type 0} (null : J) where
  known-ensure_device :
      (j id : String) (m : TreeMap (DeviceTrackingState F I J))
      → is_known j m ≡ true
      → is_known j (ensure_device null id m) ≡ true
  known-ensure_device j id m h = ground (arith, h, get-insert id j (new_device null id) m)

module _ (e : Env) (id : String) where
  abbrev Knows : TrackingState e.F e.I e.J → Type 0
  Knows t = is_known id t.devices ≡ true

  Knows-IsKept : IsKept e Knows
  unfolding record_event forget_all_nearby
  Knows-IsKept = record {
    recorded = λ at x t h. h;
    saved = λ at t h. h;
    accounts_changed = λ m t h. h;
    occupancy_changed = λ m t h. h;
    health_changed = λ m t h. h;
    observed = λ policy zones o t m xs seen h. h;
    device_changed = λ j g t same h. ground (arith, h, get-change_entry id j g t.devices);
    selected_changed = λ selected g t same h. known-change_selected id selected g t.devices ∙ h;
    device_entered = λ j t h. known-ensure_device e.null id j t.devices h;
    nearby_forgotten = λ t h. known-forget id t.devices ∙ h;
  }

module _ {e : Env} where
  -- No sequence of operations forgets a device, whether they succeed or fail.
  pub Reach-keeps_devices :
      (s s' : Runtime e) (id : String)
      → Reach e s s'
      → is_known id s.state.devices ≡ true
      → is_known id s'.state.devices ≡ true
  Reach-keeps_devices s s' id r h = reach-keeps (Knows-IsKept e id) s s' r h
