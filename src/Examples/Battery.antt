-- ===== src/Examples/Battery.antt =====
-- A concrete run of battery updates.
use icloud_location.Prelude.{ℕ, Bool, false, none, some, List, [], ◌∷◌, All}
use icloud_location.Core.{BatterySnapshot}
use icloud_location.Tracking.State.Defs.{DeviceTrackingState, new_device}
use icloud_location.Tracking.State.Battery.{
  update_batteries, update_batteries_newest, IsFrom, Reaches,
}
use icloud_location.Examples.Fixed.{Fixed}
use icloud_location.Examples.Clock.{clock, clock-IsChrono}

abbrev charged : ℕ → BatterySnapshot
charged n = record { level_percent = some n; status = none; low_power_mode = some false }

abbrev updates : List (BatterySnapshot × ℕ)
updates = (charged 80, 100) ∷ (charged 70, 300) ∷ (charged 75, 200) ∷ []

abbrev tablet : DeviceTrackingState Fixed ℕ Bool
tablet = new_device false "tablet"

update_batteries_newest_example :
    IsFrom clock updates tablet (update_batteries clock updates tablet)
    × All
        (λ u. Reaches clock u.1 (update_batteries clock updates tablet).battery_updated_at)
        updates
update_batteries_newest_example = update_batteries_newest clock clock-IsChrono updates tablet
