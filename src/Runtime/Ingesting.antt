-- ===== src/Runtime/Ingesting.antt =====
-- External updates of src/runtime.rs.
use icloud_location.Prelude.{◌≡◌, ◌∙◌, refl, ap, Bool, true, false, Option, none, some, String}
use icloud_location.Std.Result.{Result, ok, err, panic}
use icloud_location.Std.TreeMap.{get}
use icloud_location.Core.{ExternalLocationUpdate}
use icloud_location.Tracking.Error.{Tracked}
use icloud_location.Tracking.External.Defs.{ArbitrationDecision, accept, reject, arbitrate}
use icloud_location.Runtime.Defs.{Env, Runtime, RuntimeError, invalid_external_battery}
use icloud_location.Runtime.Action.{Action, continue, raise_if, as_runtime}
use icloud_location.Runtime.External.{
  trigger_zone, has_invalid_level, admit, check_trigger, arbitration_policy, location_of,
  ingest_decided, ingest_external_update,
}

abbrev is_accept : {F I : Type 0} → Tracked (ArbitrationDecision F I) → Bool
is_accept (ok (accept sample)) = true
is_accept (ok (reject reason)) = false
is_accept (err x) = false
is_accept panic = false

module _ {e : Env} where
  raise_if-state : (b : Bool) (x : RuntimeError) (s : Runtime e) → (raise_if b x s).1 ≡ s
  raise_if-state true x s = refl
  raise_if-state false x s = refl

  continue-state :
      {A B : Type 0} (r : Result RuntimeError A) (k : A → Action e B) (s s0 : Runtime e)
      → s ≡ s0
      → ((a : A) → (k a s).1 ≡ s)
      → (continue r k s).1 ≡ s0
  continue-state (ok a) k s s0 same h = h a ∙ same
  continue-state (err x) k s s0 same h = same
  continue-state panic k s s0 same h = same

  check_trigger-state : (zone : Option String) (s : Runtime e) → (check_trigger zone s).1 ≡ s
  unfolding check_trigger
  check_trigger-state none s = refl
  check_trigger-state (some id) s = raise_if-state _ _ s

  admit-state : (update : ExternalLocationUpdate e.F e.I) (s : Runtime e) → (admit update s).1 ≡ s
  unfolding admit
  admit-state update s =
      let zone = trigger_zone update.trigger in
      let s1 = (check_trigger zone s).1 in
      continue-state (check_trigger zone s).0 _ s1 s (check_trigger-state zone s) λ u.
        continue-state (raise_if (has_invalid_level update.battery) invalid_external_battery s1).0 _
          _ s1 (raise_if-state (has_invalid_level update.battery) _ s1) λ v. refl

  decided-state :
      (update : ExternalLocationUpdate e.F e.I) (now : e.I) (source : String)
      (decision : Tracked (ArbitrationDecision e.F e.I)) (s : Runtime e)
      → is_accept decision ≡ false
      → (continue (as_runtime decision) (ingest_decided update now source) s).1 ≡ s
  unfolding ingest_decided
  decided-state update now source (ok (accept sample)) s h = absurd cc
  decided-state update now source (ok (reject reason)) s h = refl
  decided-state update now source (err x) s h = refl
  decided-state update now source panic s h = refl

  -- What the arbitration says of an update.
  abbrev verdict :
      ExternalLocationUpdate e.F e.I → Runtime e → Tracked (ArbitrationDecision e.F e.I)
  verdict update s =
      arbitrate e.float e.chrono (arbitration_policy e.float s.config)
        (location_of (get update.device_id s.state.devices)) update

  -- An external update that the arbitration does not accept, by a rejection or by an error, changes
  -- nothing, whether its source, its trigger and its battery are valid or not.
  pub ingest_not_accepted :
      (update : ExternalLocationUpdate e.F e.I) (now : e.I) (s : Runtime e)
      → is_accept (verdict update s) ≡ false
      → (ingest_external_update update now s).1 ≡ s
  unfolding ingest_external_update
  ingest_not_accepted update now s not_accepted =
      let (r, s1) = admit update s in
      let same = admit-state update s in
      continue-state r _ s1 s same λ source.
        decided-state update now source (verdict update s1) s1
          (ap (λ x. is_accept (verdict update x)) same ∙ not_accepted)
