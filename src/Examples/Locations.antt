-- ===== src/Examples/Locations.antt =====
-- Concrete runs of the quality policy, the state of a device, external updates and events.
use icloud_location.Prelude.{
  ℕ, ◌≤◌, ◌≡◌, ◌↔◌, refl, arith, Bool, true, false, Option, none, some, [], ◌∷◌, All, unwrap_or,
}
use icloud_location.Prelude.Int.{pos}
use icloud_location.Std.Result.{ok}
use icloud_location.Std.Words.{min_of}
use icloud_location.Core.{LocationSample, ExternalLocationUpdate, apple, distance_meters, manual}
use icloud_location.Tracking.Quality.Defs.{
  LocationQualityPolicy, OldLocationContext, evaluate, classify, rejection_reason,
  calculate_old_location_threshold, raw_threshold, least_interval,
}
use icloud_location.Tracking.Quality.Threshold.{threshold_bounds}
use icloud_location.Tracking.State.Defs.{DeviceTrackingState, new_device}
use icloud_location.Tracking.State.Device.{apply_location, accept_location}
use icloud_location.Tracking.State.Locations.{
  take_sample, take_samples, take_samples-IsAtLeast, IsAtLeast,
}
use icloud_location.Tracking.State.Grace.{grace_is_spent, IsBad}
use icloud_location.Tracking.External.Defs.{
  ExternalArbitrationPolicy, arbitrate, compare_with, accept, new_source, ExternalSourceHealth,
}
use icloud_location.Tracking.External.Arbitration.{
  arbitrate-accept, arbitrate_iff, IsValid, IsAccurate, IsNewer, IsRepeat,
}
use icloud_location.Tracking.External.Health.{
  record_all_latest, record_all, CoversUpTo, CoversKnown, IsAttained,
}
use icloud_location.Examples.Fixed.{Fixed, fixed, fixed_float}
use icloud_location.Examples.Clock.{clock, clock-IsChrono}

abbrev pub sample_at : ℕ → Bool → LocationSample Fixed ℕ
sample_at t old = record {
  coordinates = record { latitude = fixed (pos 1000000); longitude = fixed (pos 2000000) };
  horizontal_accuracy_meters = some (fixed (pos 20000000));
  vertical_accuracy_meters = none;
  timestamp = t;
  source = apple;
  is_old = old;
}

abbrev quality_policy : LocationQualityPolicy Fixed
quality_policy = record {
  gps_accuracy_threshold_meters = fixed (pos 100000000);
  old_location_threshold_seconds = 120;
  grace_updates = 1;
}

abbrev Device : Type 0
Device = DeviceTrackingState Fixed ℕ Bool

abbrev phone : Device
phone = new_device false "phone"

-- The phone after a good sample of the instant 1000.
abbrev placed : Device
placed = record phone { current_location = some (sample_at 1000 false); last_update_at = some 1000 }

abbrev later : Device
later = record placed {
  current_location = some (sample_at 1200 true);
  previous_location = some (sample_at 1000 false);
  distance_moved_meters = some (
      distance_meters fixed_float (sample_at 1000 false).coordinates
        (sample_at 1200 true).coordinates);
  last_update_at = some 1200;
  consecutive_bad_updates = 1;
}

abbrev spent : Device
spent = record later { consecutive_bad_updates = 2 }

later_run :
    take_samples fixed_float clock quality_policy ((1200, sample_at 1200 true) ∷ []) placed
    ≡ ok later
unfolding take_samples take_sample evaluate classify rejection_reason apply_location accept_location
later_run = refl

spent_run :
    take_samples fixed_float clock quality_policy ((1300, sample_at 1300 true) ∷ []) later
    ≡ ok spent
unfolding take_samples take_sample evaluate classify rejection_reason apply_location accept_location
spent_run = refl

old-IsBad : (t : ℕ) → IsBad fixed_float clock quality_policy (t, sample_at t true)
unfolding rejection_reason
old-IsBad t none = ground arith
old-IsBad t (some l) = ground arith

take_samples-IsAtLeast_example : IsAtLeast clock 1000 later.current_location
take_samples-IsAtLeast_example =
    take_samples-IsAtLeast fixed_float clock quality_policy clock-IsChrono 1000
      ((1200, sample_at 1200 true) ∷ []) placed {s' = later} refl later_run

grace_is_spent_example : spent.current_location ≡ later.current_location
grace_is_spent_example =
    grace_is_spent fixed_float clock quality_policy ((1200, sample_at 1200 true) ∷ [])
      ((1300, sample_at 1300 true) ∷ []) placed {s1 = later} {s2 = spent} (omega arith)
      (omega arith) (old-IsBad 1200, tt) (old-IsBad 1300, tt) later_run spent_run

abbrev pub old_context : OldLocationContext Fixed
old_context = record {
  approaching_tracked_zone = false;
  old_location_count = 0;
  tracked_interval_seconds = 3600 ∷ 7200 ∷ [];
  in_zone = true;
  distance_from_zone_km = fixed (pos 0);
  pass_through_timer_active = false;
  configured_maximum_seconds = some 100;
  adjustment_seconds = pos 0;
}

threshold_bounds_example : (100 ≤ 600) × (min_of 15 (unwrap_or (some 100) 15) ≤ 100)
unfolding calculate_old_location_threshold raw_threshold least_interval
threshold_bounds_example = threshold_bounds fixed_float old_context {t = 100} refl refl

abbrev external_policy : ExternalArbitrationPolicy Fixed
external_policy = record {
  gps_accuracy_threshold_meters = fixed (pos 100000000);
  minimum_newer_by_seconds = pos 5;
}

abbrev update : ExternalLocationUpdate Fixed ℕ
update = record {
  device_id = "phone";
  sample = sample_at 1060 false;
  battery = none;
  trigger = some manual;
}

abbrev selected : Option (LocationSample Fixed ℕ)
selected = some (sample_at 1000 false)

arbitrate_run :
    arbitrate fixed_float clock external_policy selected update ≡ ok (accept (sample_at 1060 false))
unfolding arbitrate compare_with
arbitrate_run = refl

arbitrate-accept_example :
    (sample_at 1060 false ≡ update.sample)
    × IsAccurate fixed_float clock external_policy.gps_accuracy_threshold_meters update.sample
    × IsNewer fixed_float clock external_policy.minimum_newer_by_seconds selected update.sample
    × ¬ IsRepeat fixed_float clock selected update.sample
arbitrate-accept_example =
    arbitrate-accept fixed_float clock external_policy selected update {s = sample_at 1060 false}
      arbitrate_run

arbitrate_iff_example :
    (arbitrate fixed_float clock external_policy selected update ≡ ok (accept update.sample)) ↔ (
      IsValid fixed_float clock external_policy update.sample
      × IsAccurate fixed_float clock external_policy.gps_accuracy_threshold_meters update.sample
      × IsNewer fixed_float clock external_policy.minimum_newer_by_seconds selected update.sample
      × ¬ IsRepeat fixed_float clock selected update.sample)
arbitrate_iff_example = arbitrate_iff fixed_float clock external_policy selected update

abbrev known_source : ExternalSourceHealth ℕ
known_source = record new_source { last_update_at = some 8; consecutive_errors = 2 }

record_all_latest_example :
    let h : ExternalSourceHealth ℕ = record_all clock (5 ∷ 9 ∷ 7 ∷ []) known_source in
    All (CoversUpTo clock h) (5 ∷ 9 ∷ 7 ∷ [])
    × CoversKnown clock h (some 8)
    × IsAttained clock (5 ∷ 9 ∷ 7 ∷ []) known_source h
record_all_latest_example = record_all_latest clock clock-IsChrono (5 ∷ 9 ∷ 7 ∷ []) known_source
