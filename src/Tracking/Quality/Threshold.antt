-- ===== src/Tracking/Quality/Threshold.antt =====
-- The bounds of the old-location threshold.
use icloud_location.Prelude.{ℕ, ◌≤◌, ◌≡◌, arith, unwrap_or}
use icloud_location.Prelude.Int.{pos}
use icloud_location.Std.Result.{ok}
use icloud_location.Std.Words.{min_of}
use icloud_location.Std.Float.{Float}
use icloud_location.Tracking.Quality.Defs.{OldLocationContext, calculate_old_location_threshold}

module _ {F : Type 0} (f : Float F) where
  -- With no adjustment a threshold is at most ten minutes, and at least 15 seconds or the configured
  -- maximum, if that is less.
  pub threshold_bounds :
      (c : OldLocationContext F) {t : ℕ}
      → c.adjustment_seconds ≡ pos 0
      → calculate_old_location_threshold f c ≡ ok t
      → (t ≤ 600) × (min_of 15 (unwrap_or c.configured_maximum_seconds 15) ≤ t)
  unfolding calculate_old_location_threshold
  threshold_bounds c e h = ground arith
