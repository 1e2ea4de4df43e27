-- ===== src/Tracking/External/Defs.antt =====
-- `ExternalArbitrationPolicy` and `ExternalSourceHealth` of crates/icloud-tracking/src/external.rs.
use icloud_location.Prelude.{
  ℕ, Bool, not, ◌&&◌, ◌||◌, Option, none, some, if◌then◌else◌, is_some_and, is_none_or,
}
use icloud_location.Prelude.Int.{ℤ, pos, ltb_ℤ}
use icloud_location.Std.Result.{ok, ◌>>◌, reject_if}
use icloud_location.Std.Words.{u32_max, saturating_add}
use icloud_location.Std.Float.{Float, is_invalid}
use icloud_location.Std.Chrono.{Chrono}
use icloud_location.Core.{Coordinates, LocationSample, ExternalLocationUpdate}
use icloud_location.Tracking.Error.{Tracked, invalid_input}

pub data ExternalRejectionReason : Type 0 where
  stale poor_gps duplicate : ExternalRejectionReason

pub data ArbitrationDecision (F I : Type 0) : Type 0 where
  accept : LocationSample F I → ArbitrationDecision F I
  reject : ExternalRejectionReason → ArbitrationDecision F I

pub record ExternalArbitrationPolicy (F : Type 0) : Type 0 where
  pub gps_accuracy_threshold_meters : F
  pub minimum_newer_by_seconds : ℤ

-- `==` on `Coordinates`
abbrev pub same_coordinates : {F : Type 0} → Float F → Coordinates F → Coordinates F → Bool
same_coordinates f a b = f.eq a.latitude b.latitude && f.eq a.longitude b.longitude

module _ {F I D : Type 0} (f : Float F) (c : Chrono I D) where
  -- The comparison with the location that is selected at present.
  unfoldable pub compare_with :
      ExternalArbitrationPolicy F
      → LocationSample F I
      → Option (LocationSample F I)
      → ArbitrationDecision F I
  compare_with policy sample none = accept sample
  compare_with policy sample (some current) =
      let delta = c.since sample.timestamp current.timestamp in
      if c.is_zero delta && same_coordinates f sample.coordinates current.coordinates
      then reject duplicate
      else if not (ltb_ℤ policy.minimum_newer_by_seconds (c.num_seconds delta))
      then reject stale
      else accept sample

  -- `ExternalArbitrationPolicy::arbitrate`
  unfoldable pub arbitrate :
      ExternalArbitrationPolicy F
      → Option (LocationSample F I)
      → ExternalLocationUpdate F I
      → Tracked (ArbitrationDecision F I)
  unfolding compare_with
  arbitrate policy current update =
      let accuracy = update.sample.horizontal_accuracy_meters in
      (do
        reject_if
            (is_invalid f policy.gps_accuracy_threshold_meters
              || ltb_ℤ policy.minimum_newer_by_seconds (pos 0)
              || is_some_and accuracy (is_invalid f))
            (invalid_input "external arbitration thresholds must be non-negative and finite")
        ok (
            if is_none_or accuracy (λ a. f.lt policy.gps_accuracy_threshold_meters a)
            then reject poor_gps
            else compare_with policy update.sample current))

pub record ExternalSourceHealth (I : Type 0) : Type 0 where
  pub last_update_at : Option I
  pub last_request_at : Option I
  pub consecutive_errors : ℕ

-- `ExternalSourceHealth::default()`
abbrev pub new_source : {I : Type 0} → ExternalSourceHealth I
new_source = record { last_update_at = none; last_request_at = none; consecutive_errors = 0 }

module _ {I D : Type 0} (c : Chrono I D) where
  unfoldable pub record_update : I → ExternalSourceHealth I → ExternalSourceHealth I
  record_update timestamp h = record h {
    last_update_at =
        if is_none_or h.last_update_at (λ current. c.before current timestamp)
        then some timestamp
        else h.last_update_at;
    consecutive_errors = 0;
  }

  unfoldable pub is_healthy : I → D → ExternalSourceHealth I → Bool
  is_healthy now alive_interval h =
      is_some_and h.last_update_at (λ last. not (c.shorter alive_interval (c.since now last)))

  unfoldable pub can_request : I → D → ExternalSourceHealth I → Bool
  can_request now throttle h =
      is_none_or h.last_request_at (λ last. not (c.shorter (c.since now last) throttle))

module _ {I : Type 0} where
  unfoldable pub record_error : ExternalSourceHealth I → ExternalSourceHealth I
  record_error h = record h { consecutive_errors = saturating_add u32_max h.consecutive_errors 1 }

  unfoldable pub record_request : I → ExternalSourceHealth I → ExternalSourceHealth I
  record_request now h = record h { last_request_at = some now }
