-- ===== src/Tracking/Quality/Defs.antt =====
-- `LocationQualityPolicy` and `calculate_old_location_threshold` of
-- crates/icloud-tracking/src/quality.rs.
use icloud_location.Prelude.{
  ℕ, Bool, ◌&&◌, ◌||◌, Option, none, some, List, [], ◌∷◌, ltb, leb, if◌then◌else◌, is_some_and,
  is_none_or,
}
use icloud_location.Prelude.Int.{ℤ, pos, ltb_ℤ}
use icloud_location.Std.Result.{ok, ◌>>=◌, ◌>>◌, reject_if, or_panic}
use icloud_location.Std.Words.{i64_or_max, max_of, min_of, saturating_add_signed}
use icloud_location.Std.Float.{Float, is_invalid}
use icloud_location.Std.Chrono.{Chrono}
use icloud_location.Core.{LocationSample}
use icloud_location.Tracking.Error.{Tracked, invalid_input}

pub data RejectionReason : Type 0 where
  old_location poor_gps out_of_order : RejectionReason

pub data LocationQuality : Type 0 where
  good : LocationQuality
  grace rejected : RejectionReason → LocationQuality

pub record LocationQualityPolicy (F : Type 0) : Type 0 where
  pub gps_accuracy_threshold_meters : F
  pub old_location_threshold_seconds : ℕ
  pub grace_updates : ℕ

module _ {F I D : Type 0} (f : Float F) (c : Chrono I D) where
  -- `previous.is_some_and(|sample| candidate.timestamp < sample.timestamp)`
  abbrev pub is_out_of_order : Option (LocationSample F I) → LocationSample F I → Bool
  is_out_of_order previous candidate =
      is_some_and previous (λ sample. c.before candidate.timestamp sample.timestamp)

  abbrev pub is_stale : LocationQualityPolicy F → LocationSample F I → I → Bool
  is_stale policy candidate now =
      candidate.is_old
      || ltb_ℤ (pos (i64_or_max policy.old_location_threshold_seconds))
          (c.num_seconds (c.since now candidate.timestamp))

  abbrev pub is_inaccurate : F → LocationSample F I → Bool
  is_inaccurate threshold candidate =
      is_none_or candidate.horizontal_accuracy_meters (λ accuracy. f.lt threshold accuracy)

  -- `is_some_and(|accuracy| !accuracy.is_finite() || accuracy < 0.0)`
  abbrev pub has_invalid_accuracy : LocationSample F I → Bool
  has_invalid_accuracy sample = is_some_and sample.horizontal_accuracy_meters (is_invalid f)

  unfoldable pub rejection_reason :
      LocationQualityPolicy F
      → Option (LocationSample F I)
      → LocationSample F I
      → I
      → Option RejectionReason
  rejection_reason policy previous candidate now =
      if is_out_of_order previous candidate
      then some out_of_order
      else if is_stale policy candidate now
      then some old_location
      else if is_inaccurate policy.gps_accuracy_threshold_meters candidate
      then some poor_gps
      else none

  -- The `match` on the reason.
  unfoldable pub classify : ℕ → ℕ → Option RejectionReason → LocationQuality
  classify grace_updates bad none = good
  classify grace_updates bad (some out_of_order) = rejected out_of_order
  classify grace_updates bad (some old_location) =
      if ltb bad grace_updates then grace old_location else rejected old_location
  classify grace_updates bad (some poor_gps) =
      if ltb bad grace_updates then grace poor_gps else rejected poor_gps

  -- `LocationQualityPolicy::evaluate`
  unfoldable pub evaluate :
      LocationQualityPolicy F
      → Option (LocationSample F I)
      → LocationSample F I
      → I
      → ℕ
      → Tracked LocationQuality
  evaluate policy previous candidate now bad = do
    reject_if (is_invalid f policy.gps_accuracy_threshold_meters || has_invalid_accuracy candidate)
        (invalid_input "GPS accuracy threshold must be finite and non-negative")
    ok (classify policy.grace_updates bad (rejection_reason policy previous candidate now))

pub record OldLocationContext (F : Type 0) : Type 0 where
  pub approaching_tracked_zone : Bool
  pub old_location_count : ℕ
  pub tracked_interval_seconds : List ℕ
  pub in_zone : Bool
  pub distance_from_zone_km : F
  pub pass_through_timer_active : Bool
  pub configured_maximum_seconds : Option ℕ
  pub adjustment_seconds : ℤ

-- `iter().copied().min().unwrap_or(120)`
unfoldable pub least_interval : List ℕ → ℕ
least_interval [] = 120
least_interval (n ∷ []) = n
least_interval (n ∷ m ∷ ns) = min_of n (least_interval (m ∷ ns))

-- `threshold.clamp(60, 600)`
abbrev pub clamp : ℕ → ℕ → ℕ → ℕ
clamp lo hi n = if ltb n lo then lo else if ltb hi n then hi else n

abbrev pub at_most : Option ℕ → ℕ → ℕ
at_most none n = n
at_most (some m) n = min_of n m

module _ {F : Type 0} (f : Float F) where
  -- The threshold by zone, distance and interval, before it is clamped.
  unfoldable pub raw_threshold : OldLocationContext F → Tracked ℕ
  raw_threshold c =
      let interval = least_interval c.tracked_interval_seconds in
      if c.in_zone
      then (do s ← or_panic (f.mul_secs interval (f.decimal 25 3)); ok (max_of s 120))
      else if f.lt (f.decimal 5 0) c.distance_from_zone_km
      then ok 180
      else if ltb interval 90
      then ok 60
      else or_panic (f.mul_secs interval (f.decimal 125 3))

  unfoldable pub calculate_old_location_threshold : OldLocationContext F → Tracked ℕ
  unfolding raw_threshold
  calculate_old_location_threshold c = do
    reject_if (is_invalid f c.distance_from_zone_km)
        (invalid_input "distance from zone must be finite and non-negative")
    threshold ←
        (if c.approaching_tracked_zone && leb c.old_location_count 4 then ok 30 else (do
          raw ← raw_threshold c
          ok (
              at_most c.configured_maximum_seconds
                (if c.pass_through_timer_active then 15 else clamp 60 600 raw))))
    ok (saturating_add_signed threshold c.adjustment_seconds)
