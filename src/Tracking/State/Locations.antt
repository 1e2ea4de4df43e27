-- ===== src/Tracking/State/Locations.antt =====
-- A device never goes back to an older location.
use icloud_location.Prelude.{
  ℕ, ◌≡◌, subst, true, false, not, Option, none, some, List, [], ◌∷◌, arith, inl, inr, ◌||◌, ◌⊎◌,
  ltb, is_some_and, Bool-cases,
}
use icloud_location.Std.Result.{ok, ◌>>=◌, >>=-eq-ok, ok_injective}
use icloud_location.Std.Float.{Float, is_invalid}
use icloud_location.Std.Chrono.{Chrono, IsChrono}
use icloud_location.Core.{LocationSample}
use icloud_location.Tracking.Error.{Tracked}
use icloud_location.Tracking.Quality.Defs.{
  LocationQualityPolicy, evaluate, classify, is_out_of_order, RejectionReason, has_invalid_accuracy,
  out_of_order, old_location, poor_gps, rejection_reason,
}
use icloud_location.Tracking.State.Defs.{DeviceTrackingState}
use icloud_location.Tracking.State.Device.{apply_location, accept_location}

module _ {F I D : Type 0} (c : Chrono I D) where
  -- A location is there, and is not older than an instant.
  abbrev pub IsAtLeast : I → Option (LocationSample F I) → Type 0
  IsAtLeast t o = is_some_and o (λ sample. not (c.before sample.timestamp t)) ≡ true

module _ {F I D : Type 0} (f : Float F) (c : Chrono I D) (policy : LocationQualityPolicy F) where
  -- A sample that is not late is as new as the instant.
  in_order-IsAtLeast :
      IsChrono c
      → (t : I) (sample : LocationSample F I) (o : Option (LocationSample F I)) → IsAtLeast c t o
      → is_out_of_order f c o sample ≡ false
      → c.before sample.timestamp t ≡ false
  in_order-IsAtLeast laws t sample none h e = absurd (ground (arith, h))
  in_order-IsAtLeast laws t sample (some l) h e = ground (
    arith,
    laws.before_trans l.timestamp sample.timestamp t,
    laws.before_trans sample.timestamp t l.timestamp,
    laws.before_total sample.timestamp l.timestamp,
  )

  rejection_reason-late :
      (sample : LocationSample F I) (o : Option (LocationSample F I)) (now : I)
      → is_out_of_order f c o sample ≡ true
      → rejection_reason f c policy o sample now ≡ some out_of_order
  unfolding rejection_reason
  rejection_reason-late sample o now e = rw e

module _ {F I D J : Type 0} (f : Float F) (c : Chrono I D) (policy : LocationQualityPolicy F) where
  -- A sample is evaluated against the present location and applied, as the runtime does.
  unfoldable pub take_sample :
      I → LocationSample F I → DeviceTrackingState F I J → Tracked (DeviceTrackingState F I J)
  take_sample now sample s = do
    quality ← evaluate f c policy s.current_location sample now s.consecutive_bad_updates
    ok (apply_location f sample quality s)

  -- Samples in the order in which they arrive, each with the time of its arrival.
  unfoldable pub take_samples :
      List (I × LocationSample F I)
      → DeviceTrackingState F I J
      → Tracked (DeviceTrackingState F I J)
  take_samples [] s = ok s
  take_samples ((now, sample) ∷ rest) s = do s' ← take_sample now sample s; take_samples rest s'

  -- A late sample is rejected, and only a rejected sample leaves the location alone.
  apply_location-IsAtLeast :
      (t : I) (sample : LocationSample F I) (reason : Option RejectionReason) (g bad : ℕ)
      (s : DeviceTrackingState F I J)
      → (reason ≡ some out_of_order) ⊎ (c.before sample.timestamp t ≡ false)
      → IsAtLeast c t s.current_location
      → IsAtLeast c t (apply_location f sample (classify f c g bad reason) s).current_location
  unfolding apply_location accept_location classify
  apply_location-IsAtLeast t sample none g bad s (inl e) h = absurd cc
  apply_location-IsAtLeast t sample none g bad s (inr e) h = rw e
  apply_location-IsAtLeast t sample (some out_of_order) g bad s e h = h
  apply_location-IsAtLeast t sample (some old_location) g bad s (inl e) h = absurd cc
  apply_location-IsAtLeast t sample (some old_location) g bad s (inr e) h =
      elim (Bool-cases (ltb bad g)) [ inl b ↦ rw b (rw e) | inr b ↦ rw b h ]
  apply_location-IsAtLeast t sample (some poor_gps) g bad s (inl e) h = absurd cc
  apply_location-IsAtLeast t sample (some poor_gps) g bad s (inr e) h =
      elim (Bool-cases (ltb bad g)) [ inl b ↦ rw b (rw e) | inr b ↦ rw b h ]

  -- What a sample that is evaluated does.
  pub take_sample_result :
      (now : I) (sample : LocationSample F I) (s : DeviceTrackingState F I J)
      {s' : DeviceTrackingState F I J}
      → take_sample now sample s ≡ ok s'
      → let reason = rejection_reason f c policy s.current_location sample now in
        let quality = classify f c policy.grace_updates s.consecutive_bad_updates reason in
        apply_location f sample quality s ≡ s'
  unfolding take_sample evaluate
  take_sample_result now sample s e =
      elim (Bool-cases
        (is_invalid f policy.gps_accuracy_threshold_meters || has_invalid_accuracy f c sample)) [
          | inl b ↦ absurd (ground (arith, b, e))
          | inr b ↦ ground (arith, b, e)
        ]

  pub take_sample-IsAtLeast :
      IsChrono c
      → (t now : I) (sample : LocationSample F I) (s : DeviceTrackingState F I J)
        {s' : DeviceTrackingState F I J}
      → IsAtLeast c t s.current_location
      → take_sample now sample s ≡ ok s'
      → IsAtLeast c t s'.current_location
  take_sample-IsAtLeast laws t now sample s h e =
      let reason = rejection_reason f c policy s.current_location sample now in
      let late : (reason ≡ some out_of_order) ⊎ (c.before sample.timestamp t ≡ false) =
        elim (Bool-cases (is_out_of_order f c s.current_location sample)) [
          | inl b ↦ inl (rejection_reason-late f c policy sample s.current_location now b)
          | inr b ↦ inr (in_order-IsAtLeast f c policy laws t sample s.current_location h b)
        ] in
      let at_least =
        apply_location-IsAtLeast t sample reason policy.grace_updates s.consecutive_bad_updates s
          late h in
      subst (λ (x : DeviceTrackingState F I J). IsAtLeast c t x.current_location)
        (take_sample_result now sample s e) at_least

  -- However samples arrive, the location of a device never becomes older than it has been.
  pub take_samples-IsAtLeast :
      IsChrono c
      → (t : I) (samples : List (I × LocationSample F I)) (s : DeviceTrackingState F I J)
        {s' : DeviceTrackingState F I J}
      → IsAtLeast c t s.current_location
      → take_samples samples s ≡ ok s'
      → IsAtLeast c t s'.current_location
  unfolding take_samples
  take_samples-IsAtLeast laws t [] s h e =
      subst (λ (x : DeviceTrackingState F I J). IsAtLeast c t x.current_location) (ok_injective e) h
  take_samples-IsAtLeast laws t ((now, sample) ∷ rest) s h e =
      let (s1, first, more) = >>=-eq-ok (take_sample now sample s) (take_samples rest) e in
      take_samples-IsAtLeast laws t rest s1 (take_sample-IsAtLeast laws t now sample s h first) more
