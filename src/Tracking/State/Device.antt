-- ===== src/Tracking/State/Device.antt =====
-- The methods of `DeviceTrackingState`: crates/icloud-tracking/src/state.rs.
use icloud_location.Prelude.{
  ℕ, Bool, true, false, not, Option, none, some, if◌then◌else◌, is_none_or, is_none, map_option,
}
use icloud_location.Prelude.Int.{pos_part}
use icloud_location.Std.Words.{u32_max, saturating_add}
use icloud_location.Std.Float.{Float}
use icloud_location.Std.Chrono.{Chrono}
use icloud_location.Core.{
  LocationSample, BatterySnapshot, DeviceAvailability, online, distance_meters,
}
use icloud_location.Tracking.Quality.Defs.{LocationQuality, good, grace, rejected}
use icloud_location.Tracking.State.Defs.{DeviceTrackingState}

module _ {F I J : Type 0} (f : Float F) where
  unfoldable pub accept_location :
      LocationSample F I → DeviceTrackingState F I J → DeviceTrackingState F I J
  accept_location sample s = record s {
    distance_moved_meters =
        map_option (λ current. distance_meters f current.coordinates sample.coordinates)
          s.current_location;
    previous_location = s.current_location;
    current_location = some sample;
    last_update_at = some sample.timestamp;
  }

  unfoldable pub apply_location :
      LocationSample F I → LocationQuality → DeviceTrackingState F I J → DeviceTrackingState F I J
  unfolding accept_location
  apply_location sample good s = record (accept_location sample s) { consecutive_bad_updates = 0 }
  apply_location sample (grace reason) s =
      let t = accept_location sample s in
      record t { consecutive_bad_updates = saturating_add u32_max t.consecutive_bad_updates 1 }
  apply_location sample (rejected reason) s = record s {
    consecutive_bad_updates = saturating_add u32_max s.consecutive_bad_updates 1;
  }

-- `matches!(availability, DeviceAvailability::Online)`
abbrev pub is_online : DeviceAvailability → Bool
is_online online = true
is_online _ = false

module _ {I D : Type 0} (c : Chrono I D) where
  -- The whole seconds since an instant, and 0 if it lies ahead: `num_seconds().max(0)` of an
  -- `i64`, which fits `u64`.
  abbrev pub seconds_since : Option I → I → ℕ
  seconds_since none now = 0
  seconds_since (some started) now = pos_part (c.num_seconds (c.since now started))

module _ {F I D J : Type 0} (c : Chrono I D) where
  unfoldable pub update_battery :
      BatterySnapshot → I → DeviceTrackingState F I J → DeviceTrackingState F I J
  update_battery battery timestamp s =
      if is_none_or s.battery_updated_at (λ current. not (c.before timestamp current))
      then record s { battery = some battery; battery_updated_at = some timestamp }
      else s

  unfoldable pub update_availability :
      DeviceAvailability → I → DeviceTrackingState F I J → DeviceTrackingState F I J
  update_availability availability now s = record s {
    offline_since =
        if is_online availability
        then none
        else if is_none s.offline_since
        then some now
        else s.offline_since;
    availability = some availability;
  }

  unfoldable pub offline_duration_seconds : I → DeviceTrackingState F I J → ℕ
  offline_duration_seconds now s = seconds_since c s.offline_since now
