-- ===== src/Tracking/Interval/Total.antt =====
-- `determine` decides every valid context for which Waze knows no travel time.
use icloud_location.Prelude.{◌≡◌, false, refl, arith}
use icloud_location.Std.Result.{ok, err, panic}
use icloud_location.Std.Float.{Float, IsFloat}
use icloud_location.Tracking.Error.{Tracked}
use icloud_location.Tracking.Interval.Distance.{distance_interval_total}
use icloud_location.Tracking.Interval.Determine.{
  TrackingIntervalContext, TrackingIntervalDecision, is_invalid_context, waze_seconds, determine,
  validate_tracking_context, steady_interval, base_interval, by_distance, limit_by_waze,
}

abbrev Decided : Tracked TrackingIntervalDecision → Type 0
Decided (ok d) = Unit
Decided (err e) = ⊥
Decided panic = ⊥

Decided-ok :
    (r : Tracked TrackingIntervalDecision) → Decided r → (d : TrackingIntervalDecision) × (r ≡ ok d)
Decided-ok (ok d) h = (d, refl)
Decided-ok (err e) h = absurd h
Decided-ok panic h = absurd h

module _ {F : Type 0} (f : Float F) (laws : IsFloat f) (c : TrackingIntervalContext F) where
  base_interval_total :
      is_invalid_context f c ≡ false
      → waze_seconds c ≡ 0
      → (d : TrackingIntervalDecision) × (base_interval f c ≡ ok d)
  unfolding base_interval steady_interval by_distance
  base_interval_total valid no_waze =
      let (s, e, lo, hi) =
        distance_interval_total f laws c.distance_from_zone_km c.direction c.went_beyond_three_km
          (ground arith) in
      Decided-ok _ (ground (arith, e))

  -- A valid context without a travel time of Waze gets a decision: `determine` neither fails nor
  -- panics.
  pub determine_total :
      waze_seconds c ≡ 0
      → is_invalid_context f c ≡ false
      → (d : TrackingIntervalDecision) × (determine f c ≡ ok d)
  unfolding determine validate_tracking_context limit_by_waze
  determine_total no_waze valid =
      let (base, e) = base_interval_total valid no_waze in Decided-ok _ (ground (arith, e))
