-- ===== src/Runtime/Contexts.antt =====
-- The contexts that the runtime makes for `IntervalPolicy::determine`: src/runtime.rs.
use icloud_location.Prelude.{◌≡◌, refl, Bool, true, false, Option, ℕ, arith}
use icloud_location.Std.Result.{ok, >>=-eq-ok, reject_if}
use icloud_location.Std.Float.{Float, is_invalid}
use icloud_location.Tracking.Interval.Defs.{Direction}
use icloud_location.Tracking.Interval.Determine.{validate_tracking_context}
use icloud_location.Tracking.State.Defs.{DeviceTrackingState}
use icloud_location.Runtime.Defs.{RuntimeConfig}
use icloud_location.Runtime.Config.{validate_config, has_invalid_durations}
use icloud_location.Runtime.Refresh.Interval.{Facts, context_of}

reject_if-eq-ok : {E : Type 0} (bad : Bool) (x : E) → reject_if bad x ≡ ok tt → bad ≡ false
reject_if-eq-ok true x h = absurd cc
reject_if-eq-ok false x h = refl

module _ {F : Type 0} (f : Float F) where
  valid_durations :
      (c : RuntimeConfig F) → validate_config f c ≡ ok tt → has_invalid_durations f c ≡ false
  unfolding validate_config
  valid_durations c h =
      let (u, fine, _) = >>=-eq-ok (reject_if (has_invalid_durations f c) _) _ h in
      reject_if-eq-ok (has_invalid_durations f c) _ fine

module _ {F I J : Type 0} (f : Float F) where
  -- With a configuration that passes the validation, and a distance that is finite and not
  -- negative, the context of a device or of a zone that it is tracked from is never rejected.
  pub valid_config_valid_context :
      (c : RuntimeConfig F) (facts : Facts F) (d : DeviceTrackingState F I J)
      (changed in_target was_in_target : Bool) (distance : F) (direction : Direction)
      (beyond : Bool) (travel : Option ℕ)
      → validate_config f c ≡ ok tt
      → is_invalid f distance ≡ false
      → validate_tracking_context f
          (context_of f c facts d changed in_target was_in_target distance direction beyond travel)
        ≡ ok tt
  unfolding validate_tracking_context context_of
  valid_config_valid_context c facts d changed in_target was_in_target distance direction beyond
        travel valid known =
      ground (arith, known, valid_durations f c valid)
