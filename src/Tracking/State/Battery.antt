-- ===== src/Tracking/State/Battery.antt =====
-- The battery of a device, whose updates may arrive in any order.
use mathlib.Core.List.{Memᴰ}
use icloud_location.Prelude.{
  ◌≡◌, ◌⊎◌, inl, inr, refl, ap, ◌∙◌, true, not, Option, some, List, [], ◌∷◌, arith, All,
  is_some_and, is_none_or, Bool-cases, Option-cases,
}
use icloud_location.Std.Chrono.{Chrono, IsChrono}
use icloud_location.Core.{BatterySnapshot}
use icloud_location.Tracking.State.Defs.{DeviceTrackingState}
use icloud_location.Tracking.State.Device.{update_battery}

module _ {I D : Type 0} (c : Chrono I D) where
  -- An instant is known, and is not before another.
  abbrev pub Reaches : I → Option I → Type 0
  Reaches t o = is_some_and o (λ u. not (c.before u t)) ≡ true

module _ {F I D J : Type 0} (c : Chrono I D) where
  -- Updates of the battery in the order of their arrival, each with its instant.
  unfoldable pub update_batteries :
      List (BatterySnapshot × I) → DeviceTrackingState F I J → DeviceTrackingState F I J
  update_batteries [] s = s
  update_batteries ((b, t) ∷ us) s = update_batteries us (update_battery c b t s)

  update_battery-Reaches :
      IsChrono c
      → (b : BatterySnapshot) (t : I) (s : DeviceTrackingState F I J)
      → Reaches c t (update_battery c b t s).battery_updated_at
  unfolding update_battery
  update_battery-Reaches laws b t s = elim (Option-cases s.battery_updated_at) [
    | inl e ↦ ground (arith, e, laws.before_irrefl t)
    | inr (u, e) ↦ ground (arith, e, laws.before_irrefl t, laws.before_trans t u t)
  ]

  update_battery_keeps :
      IsChrono c
      → (b : BatterySnapshot) (t v : I) (s : DeviceTrackingState F I J)
      → Reaches c v s.battery_updated_at
      → Reaches c v (update_battery c b t s).battery_updated_at
  unfolding update_battery
  update_battery_keeps laws b t v s h = elim (Option-cases s.battery_updated_at) [
    | inl e ↦ absurd (ground (arith, e, h))
    | inr (u, e) ↦
        ground
          (arith, e, h, laws.before_trans u t v, laws.before_trans t v u, laws.before_total u t)
  ]

  update_batteries_keeps :
      IsChrono c
      → (us : List (BatterySnapshot × I)) (v : I) (s : DeviceTrackingState F I J)
      → Reaches c v s.battery_updated_at
      → Reaches c v (update_batteries us s).battery_updated_at
  unfolding update_batteries
  update_batteries_keeps laws [] v s h = h
  update_batteries_keeps laws ((b, t) ∷ us) v s h =
      update_batteries_keeps laws us v (update_battery c b t s)
        (update_battery_keeps laws b t v s h)

  -- The battery and its instant are as before, or are those of one of the updates.
  abbrev pub IsFrom :
      List (BatterySnapshot × I) → DeviceTrackingState F I J → DeviceTrackingState F I J → Type 0
  IsFrom us s s' =
      ((s'.battery ≡ s.battery) × (s'.battery_updated_at ≡ s.battery_updated_at))
      ⊎ ((u : BatterySnapshot × I) × Memᴰ u us
          × (s'.battery ≡ some u.0)
          × (s'.battery_updated_at ≡ some u.1))

  update_battery_cases :
      (b : BatterySnapshot) (t : I) (s : DeviceTrackingState F I J)
      → (update_battery c b t s ≡ s)
        ⊎ (((update_battery c b t s).battery ≡ some b)
            × ((update_battery c b t s).battery_updated_at ≡ some t))
  unfolding update_battery
  update_battery_cases b t s =
      elim (Bool-cases (is_none_or s.battery_updated_at (λ u. not (c.before t u)))) [
        | inl e ↦ inr (rw e (refl, refl))
        | inr e ↦ inl (rw e refl)
      ]

  update_batteries-IsFrom :
      (us : List (BatterySnapshot × I)) (s : DeviceTrackingState F I J)
      → IsFrom us s (update_batteries us s)
  unfolding update_batteries
  update_batteries-IsFrom [] s = inl (refl, refl)
  update_batteries-IsFrom ((b, t) ∷ us) s =
      let next = update_battery c b t s in
      elim (update_batteries-IsFrom us next) [
        | inl (p, q) ↦ elim (update_battery_cases b t s) [
          | inl same ↦ inl (
            p ∙ ap (λ (x : DeviceTrackingState F I J). x.battery) same,
            q ∙ ap (λ (x : DeviceTrackingState F I J). x.battery_updated_at) same,
          )
          | inr (p1, q1) ↦ inr ((b, t), Memᴰ.head refl, p ∙ p1, q ∙ q1)
        ]
        | inr (u, here, p, q) ↦ inr (u, Memᴰ.tail here, p, q)
      ]

  -- In whatever order updates arrive, the battery of a device is as before or that of one of the
  -- updates, with the instant of that update, and no update is later than the instant it has.
  pub update_batteries_newest :
      (laws : IsChrono c) (us : List (BatterySnapshot × I)) (s : DeviceTrackingState F I J)
      → IsFrom us s (update_batteries us s)
        × All (λ u. Reaches c u.1 (update_batteries us s).battery_updated_at) us
  unfolding update_batteries
  update_batteries_newest laws us s = (update_batteries-IsFrom us s, reached us s)
    where
      reached :
          (us : List (BatterySnapshot × I)) (s : DeviceTrackingState F I J)
          → All (λ u. Reaches c u.1 (update_batteries us s).battery_updated_at) us
      reached [] s = tt
      reached ((b, t) ∷ us) s = (
        update_batteries_keeps laws us t (update_battery c b t s)
            (update_battery-Reaches laws b t s),
        reached us (update_battery c b t s),
      )
