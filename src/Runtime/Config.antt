-- ===== src/Runtime/Config.antt =====
-- `validate_config` and `chrono_duration` of src/runtime.rs.
use icloud_location.Prelude.{
  ℕ, Bool, not, ◌&&◌, ◌||◌, inl, inr, ◌⊎◌, String, str_eq, ltb, ◌==◌, any, is_some_and,
}
use icloud_location.Std.Result.{Result, ok, err, ◌>>◌, reject_if}
use icloud_location.Std.Float.{Float, is_invalid, is_not_positive}
use icloud_location.Std.Chrono.{Chrono}
use icloud_location.Tracking.Zone.Defs.{ZoneSet}
use icloud_location.Runtime.Defs.{RuntimeConfig, RuntimeError, invalid_configuration, as_secs}

module _ {F : Type 0} where
  -- `zones.iter().any(|zone| zone.id == id && !zone.passive)`
  abbrev pub is_active_zone : ZoneSet F → String → Bool
  is_active_zone set id = any (λ zone. str_eq zone.id id && not zone.passive) set.zones

module _ {F : Type 0} (f : Float F) where
  abbrev pub has_invalid_durations : RuntimeConfig F → Bool
  has_invalid_durations c =
      c.tick_interval == 0
      || c.prefetch_window == 0
      || ltb (as_secs c.default_update_interval) 5
      || ltb (as_secs c.maximum_update_interval) 5
      || ltb c.maximum_update_interval c.default_update_interval
      || ltb (as_secs c.in_zone_interval) 5
      || ltb (as_secs c.stationary_interval) 5
      || ltb (as_secs c.exit_zone_interval) 5
      || is_not_positive f c.travel_time_factor
      || is_invalid f c.location_quality.gps_accuracy_threshold_meters
      || c.stationary.still_seconds == 0
      || is_not_positive f c.stationary.radius_meters
      || is_invalid f c.stationary.movement_limit_meters
      || is_some_and c.fixed_interval (λ interval. ltb (as_secs interval) 300)

  unfoldable pub validate_config : RuntimeConfig F → Result RuntimeError (Unit {0})
  validate_config c = do
    reject_if (has_invalid_durations c)
        (invalid_configuration "runtime policy durations must be valid and at least five seconds")
    reject_if (is_some_and c.base_zone_id (λ id. not (is_active_zone c.zones id)))
        (invalid_configuration "base zone must reference a configured zone")
    reject_if (any (λ id. not (is_active_zone c.zones id)) c.pass_through.tracked_from_zones)
        (invalid_configuration "tracked-from zones must reference configured zones")

module _ {I D : Type 0} (c : Chrono I D) where
  abbrev of_std : String ⊎ D → Result RuntimeError D
  of_std (inl m) = err (invalid_configuration m)
  of_std (inr d) = ok d

  unfoldable pub chrono_duration : ℕ → Result RuntimeError D
  chrono_duration n = of_std (c.from_std n)
