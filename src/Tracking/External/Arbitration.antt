-- ===== src/Tracking/External/Arbitration.antt =====
-- What external locations are accepted.
use icloud_location.Prelude.{◌≡◌, ◌↔◌, true, false, not, Option, none, some, arith, is_some_and}
use icloud_location.Prelude.Int.{ℤ, pos, ltb_ℤ}
use icloud_location.Std.Result.{ok}
use icloud_location.Std.Float.{Float, is_invalid}
use icloud_location.Std.Chrono.{Chrono}
use icloud_location.Core.{LocationSample, ExternalLocationUpdate}
use icloud_location.Tracking.External.Defs.{
  ExternalArbitrationPolicy, accept, arbitrate, same_coordinates,
}

module _ {F I D : Type 0} (f : Float F) (c : Chrono I D) where
  -- The accuracy of a sample is known and within a limit.
  abbrev pub IsAccurate : F → LocationSample F I → Type 0
  IsAccurate limit sample =
      is_some_and sample.horizontal_accuracy_meters (λ a. not (f.lt limit a)) ≡ true

  -- A sample is newer than the present one by more than a number of seconds, where there is one.
  abbrev pub IsNewer : ℤ → Option (LocationSample F I) → LocationSample F I → Type 0
  IsNewer seconds none sample = Unit
  IsNewer seconds (some current) sample =
      ltb_ℤ seconds (c.num_seconds (c.since sample.timestamp current.timestamp)) ≡ true

  abbrev pub IsRepeat : Option (LocationSample F I) → LocationSample F I → Type 0
  IsRepeat none sample = ⊥
  IsRepeat (some current) sample =
      (c.is_zero (c.since sample.timestamp current.timestamp) ≡ true)
      × (same_coordinates f sample.coordinates current.coordinates ≡ true)

  -- An accepted location is the sample of the update; it is accurate and newer than the present
  -- location.
  pub arbitrate-accept :
      (policy : ExternalArbitrationPolicy F) (current : Option (LocationSample F I))
      (update : ExternalLocationUpdate F I) {s : LocationSample F I}
      → arbitrate f c policy current update ≡ ok (accept s)
      → (s ≡ update.sample)
        × IsAccurate policy.gps_accuracy_threshold_meters update.sample
        × IsNewer policy.minimum_newer_by_seconds current update.sample
        × ¬ IsRepeat current update.sample
  unfolding arbitrate
  arbitrate-accept policy none update h = (ground arith, ground arith, tt, λ r. r)
  arbitrate-accept policy (some current) update h =
      (ground arith, ground arith, ground arith, λ r. ground arith)

  -- The arbitration has valid input: thresholds and an accuracy that are finite and not negative.
  abbrev pub IsValid : ExternalArbitrationPolicy F → LocationSample F I → Type 0
  IsValid policy sample =
      (is_invalid f policy.gps_accuracy_threshold_meters ≡ false)
      × (ltb_ℤ policy.minimum_newer_by_seconds (pos 0) ≡ false)
      × (is_some_and sample.horizontal_accuracy_meters (is_invalid f) ≡ false)

  -- The location of an update is accepted just if the input is valid and the location is accurate,
  -- newer than the present one and no repeat of it.
  pub arbitrate_iff :
      (policy : ExternalArbitrationPolicy F) (current : Option (LocationSample F I))
      (update : ExternalLocationUpdate F I)
      → (arbitrate f c policy current update ≡ ok (accept update.sample)) ↔ (
          IsValid policy update.sample
          × IsAccurate policy.gps_accuracy_threshold_meters update.sample
          × IsNewer policy.minimum_newer_by_seconds current update.sample
          × ¬ IsRepeat current update.sample)
  unfolding arbitrate
  arbitrate_iff policy none update = (
    λ h. ((ground arith, ground arith, ground arith), ground arith, tt, λ r. r),
    λ ((p, q, r), a, n, u). ground arith,
  )
  arbitrate_iff policy (some current) update = (
    λ h.
        ((ground arith, ground arith, ground arith), ground arith, ground arith, λ r. ground arith),
    λ ((p, q, r), a, n, u). ground arith,
  )
