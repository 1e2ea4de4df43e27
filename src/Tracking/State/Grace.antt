-- ===== src/Tracking/State/Grace.antt =====
-- A device does not live on bad samples: the grace of the quality policy is spent.
use icloud_location.Prelude.{
  ◌≤◌, ◌≡◌, refl, sym, ap, ◌∙◌, subst, Option, none, some, List, [], ◌∷◌, arith, length, All, ◌≢◌,
}
use icloud_location.Std.Result.{ok, >>=-eq-ok, ok_injective}
use icloud_location.Std.Words.{u32_max, saturating_add}
use icloud_location.Std.Float.{Float}
use icloud_location.Std.Chrono.{Chrono}
use icloud_location.Core.{LocationSample}
use icloud_location.Tracking.Quality.Defs.{
  LocationQualityPolicy, classify, rejection_reason, RejectionReason, out_of_order, old_location,
  poor_gps,
}
use icloud_location.Tracking.State.Defs.{DeviceTrackingState}
use icloud_location.Tracking.State.Device.{apply_location, accept_location}
use icloud_location.Tracking.State.Locations.{take_sample, take_samples, take_sample_result}

module _ {F I D : Type 0} (f : Float F) (c : Chrono I D) (policy : LocationQualityPolicy F) where
  -- A sample in which the policy finds a fault, wherever the device is.
  abbrev pub IsBad : I × LocationSample F I → Type 0
  IsBad (now, sample) =
      (o : Option (LocationSample F I)) → rejection_reason f c policy o sample now ≢ none

module _ {F I D J : Type 0} (f : Float F) (c : Chrono I D) (policy : LocationQualityPolicy F) where
  -- What a bad sample does: it is counted, and with the grace spent it moves nothing.
  abbrev WasBad : DeviceTrackingState F I J → DeviceTrackingState F I J → Type 0
  WasBad s t =
      (t.consecutive_bad_updates ≡ saturating_add u32_max s.consecutive_bad_updates 1)
      × (policy.grace_updates ≤ s.consecutive_bad_updates → t.current_location ≡ s.current_location)

  apply_location_bad :
      (sample : LocationSample F I) (reason : Option RejectionReason)
      (s : DeviceTrackingState F I J)
      → reason ≢ none
      → let quality = classify f c policy.grace_updates s.consecutive_bad_updates reason in
        WasBad s (apply_location f sample quality s)
  unfolding apply_location accept_location classify
  apply_location_bad sample none s bad = absurd (bad refl)
  apply_location_bad sample (some out_of_order) s bad = (refl, λ _. refl)
  apply_location_bad sample (some old_location) s bad = ground arith
  apply_location_bad sample (some poor_gps) s bad = ground arith

  take_sample_bad :
      (now : I) (sample : LocationSample F I) (s : DeviceTrackingState F I J)
      {t : DeviceTrackingState F I J}
      → IsBad f c policy (now, sample)
      → take_sample f c policy now sample s ≡ ok t
      → WasBad s t
  take_sample_bad now sample s bad e =
      let reason = rejection_reason f c policy s.current_location sample now in
      subst (WasBad s) (take_sample_result f c policy now sample s e)
        (apply_location_bad sample reason s (bad s.current_location))

  -- Bad samples are counted, to the end of the range of the counter.
  bad_samples_count :
      (samples : List (I × LocationSample F I)) (s : DeviceTrackingState F I J)
      {t : DeviceTrackingState F I J}
      → All (IsBad f c policy) samples
      → take_samples f c policy samples s ≡ ok t
      → saturating_add u32_max s.consecutive_bad_updates (length samples)
        ≤ t.consecutive_bad_updates
  unfolding take_samples
  bad_samples_count [] s {t} bad e =
      let same : s ≡ t = ok_injective e in
      let counts = ap (λ (x : DeviceTrackingState F I J). x.consecutive_bad_updates) same in
      ground (arith, counts)
  bad_samples_count ((now, sample) ∷ rest) s bad e =
      let (s1, first, more) =
        >>=-eq-ok (take_sample f c policy now sample s) (take_samples f c policy rest) e in
      let (one, _) = take_sample_bad now sample s bad.0 first in
      ground (arith, one, bad_samples_count rest s1 bad.1 more)

  spent_samples :
      (samples : List (I × LocationSample F I)) (s : DeviceTrackingState F I J)
      {t : DeviceTrackingState F I J}
      → policy.grace_updates ≤ u32_max
      → policy.grace_updates ≤ s.consecutive_bad_updates
      → All (IsBad f c policy) samples
      → take_samples f c policy samples s ≡ ok t
      → t.current_location ≡ s.current_location
  unfolding take_samples
  spent_samples [] s fits spent bad e =
      let counts = ap (λ (x : DeviceTrackingState F I J). x.current_location) (ok_injective e) in
      sym counts
  spent_samples ((now, sample) ∷ rest) s fits spent bad e =
      let (s1, first, more) =
        >>=-eq-ok (take_sample f c policy now sample s) (take_samples f c policy rest) e in
      let (one, same) = take_sample_bad now sample s bad.0 first in
      spent_samples rest s1 fits (ground (arith, one)) bad.1 more ∙ same spent

  -- After as many bad samples in a row as the policy has grace for, further bad samples do not
  -- move the device, however many they are; the grace is a `u32`.
  pub grace_is_spent :
      (bad more : List (I × LocationSample F I)) (s : DeviceTrackingState F I J)
      {s1 s2 : DeviceTrackingState F I J}
      → policy.grace_updates ≤ u32_max
      → policy.grace_updates ≤ length bad
      → All (IsBad f c policy) bad
      → All (IsBad f c policy) more
      → take_samples f c policy bad s ≡ ok s1
      → take_samples f c policy more s1 ≡ ok s2
      → s2.current_location ≡ s1.current_location
  grace_is_spent bad more s {s1} fits enough are_bad more_bad first then_more =
      spent_samples more s1 fits (ground (arith, bad_samples_count bad s are_bad first)) more_bad
        then_more
