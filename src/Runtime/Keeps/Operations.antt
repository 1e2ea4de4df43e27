-- ===== src/Runtime/Keeps/Operations.antt =====
-- The operations of src/runtime.rs keep what its basic changes keep.
use icloud_location.Prelude.{
  refl, ◌⊎◌, inl, inr, Bool, true, false, Option, none, some, List, [], ◌∷◌, ◌++◌, String, ℕ,
}
use icloud_location.Std.Result.{Result}
use icloud_location.Std.TreeMap.{TreeSet}
use icloud_location.Core.{DeviceSnapshot, ExternalTrigger, ExternalLocationUpdate, ProviderError}
use icloud_location.Tracking.External.Defs.{
  ArbitrationDecision, accept, reject, ExternalSourceHealth,
}
use icloud_location.Tracking.State.Events.{TrackingState}
use icloud_location.Runtime.Defs.{Env, AccountRuntime, Device, invalid_external_battery}
use icloud_location.Runtime.Refresh.Apply.{
  move_up, move_up_all, clear_errors, schedule_exit, clear_account, finish_known, finish_found,
  finish_account, apply_refresh, apply_account_refresh,
}
use icloud_location.Runtime.Commands.{change_devices}
use icloud_location.Runtime.External.{
  has_invalid_level, trigger_zone, source_id_of, on_source, check_trigger, admit, ingest_decided,
  ingest_external_update, ingest_pulled, ingest_external_source_once, requested, send_request,
  request_external_location,
}
use icloud_location.Runtime.Tick.{
  hold, hold_account, back_off_known, back_off_found, back_off, account_failed, located,
  refresh_account, tick, Wake, timer, changed, closed, run,
}
use icloud_location.Runtime.Action.{raise_if, clock_now}
use icloud_location.Runtime.Keeps.Rules.{
  Keeps, IsKept, Keeps-pure, Keeps-on_state, Keeps-modify, Keeps-bind, Keeps-then, Keeps-gets,
  Keeps-lift, Keeps-raise_if, Keeps-clock_now, kept_rules,
}
use icloud_location.Runtime.Keeps.Commands.{change_devices-keeps}
use icloud_location.Runtime.Keeps.Devices.{refresh_device-Keeps}
use icloud_location.Runtime.Keeps.Nearby.{update_nearby_devices-Keeps}

module _ {e : Env} {P : TrackingState e.F e.I e.J → Type 0} (kept : IsKept e P) where
  move_up-Keeps :
      (at : e.I) (id : String) (found : Option (Device e)) → Keeps e P (move_up at id found)
  move_up-Keeps at id none = Keeps-pure []
  move_up-Keeps at id (some d) = search kept_rules depth 8

  move_up_all-Keeps : (at : e.I) (ids : List String) → Keeps e P (move_up_all at ids)
  unfolding move_up_all
  move_up_all-Keeps at [] = Keeps-pure []
  move_up_all-Keeps at (id ∷ ids) = Keeps-bind _ _ (Keeps-gets _) λ found.
      Keeps-bind _ _ (move_up-Keeps at id found)
        λ moved. Keeps-bind _ _ (move_up_all-Keeps at ids) λ rest. Keeps-pure (moved ++ rest)

  schedule_exit-Keeps : (now : e.I) (members : List String) → Keeps e P (schedule_exit now members)
  unfolding schedule_exit
  schedule_exit-Keeps now [] = Keeps-pure tt
  schedule_exit-Keeps now (id ∷ ids) = search (kept_rules, move_up_all-Keeps) depth 8

  clear_account-keeps :
      (id : String) (ids : TreeSet) (next : e.I) (t : TrackingState e.F e.I e.J)
      → P t
      → P (clear_account id ids next t)
  clear_account-keeps id ids next t h = kept.accounts_changed _ t h

  clear_devices-keeps :
      (ids : TreeSet) (later : e.I) (t : TrackingState e.F e.I e.J)
      → P t
      → P (change_devices ids (clear_errors later) t)
  clear_devices-keeps ids later t = change_devices-keeps kept ids _ t (λ d. refl)

  hold_devices-keeps :
      (ids : TreeSet) (count : ℕ) (at : e.I) (t : TrackingState e.F e.I e.J)
      → P t
      → P (change_devices ids (hold count at) t)
  hold_devices-keeps ids count at t = change_devices-keeps kept ids _ t (λ d. refl)

  finish_known-Keeps :
      (id : String) (account : AccountRuntime e.I e.P) (ids : TreeSet) (later now : e.I)
      → Keeps e P (finish_known id account ids later now)
  finish_known-Keeps id account ids later now =
      search (kept_rules, Keeps-modify, Keeps-on_state, clear_devices-keeps, clear_account-keeps)
        depth 16

  finish_found-Keeps :
      (id : String) (found : Option (AccountRuntime e.I e.P)) (refreshed : TreeSet) (now : e.I)
      (interval : e.D)
      → Keeps e P (finish_found id found refreshed now interval)
  finish_found-Keeps id none refreshed now interval = Keeps-pure tt
  finish_found-Keeps id (some account) refreshed now interval =
      search (kept_rules, finish_known-Keeps)

  finish_account-Keeps :
      (id : Option String) (refreshed : TreeSet) (now : e.I) (interval : e.D)
      → Keeps e P (finish_account id refreshed now interval)
  unfolding finish_account
  finish_account-Keeps none refreshed now interval = Keeps-pure tt
  finish_account-Keeps (some id) refreshed now interval = search (kept_rules, finish_found-Keeps)

  pub apply_refresh-Keeps :
      (id : Option String) (snapshots : List (DeviceSnapshot e.F e.I e.J)) (now : e.I)
      (external_update : Bool) (trigger : Option ExternalTrigger)
      → Keeps e P (apply_refresh id snapshots now external_update trigger)
  unfolding apply_refresh
  apply_refresh-Keeps id snapshots now external_update trigger =
      search
        (
          kept_rules, refresh_device-Keeps, update_nearby_devices-Keeps, schedule_exit-Keeps,
          finish_account-Keeps,
        )
        depth 20

  on_source-keeps :
      (id : String) (g : ExternalSourceHealth e.I → ExternalSourceHealth e.I)
      (t : TrackingState e.F e.I e.J)
      → P t
      → P (on_source id g t)
  on_source-keeps id g t h = kept.health_changed _ t h

  check_trigger-Keeps : (zone : Option String) → Keeps e P (check_trigger zone)
  unfolding check_trigger
  check_trigger-Keeps none = Keeps-pure tt
  check_trigger-Keeps (some id) = search kept_rules

  admit-Keeps : (update : ExternalLocationUpdate e.F e.I) → Keeps e P (admit update)
  unfolding admit
  admit-Keeps update =
      let invalid = has_invalid_level update.battery in
      Keeps-then (check_trigger (trigger_zone update.trigger)) _ (check_trigger-Keeps _) (
        Keeps-then (raise_if invalid invalid_external_battery) _ (Keeps-raise_if invalid _)
          (Keeps-lift (source_id_of update.sample.source)))

  ingest_decided-Keeps :
      (update : ExternalLocationUpdate e.F e.I) (now : e.I) (source : String)
      (decision : ArbitrationDecision e.F e.I)
      → Keeps e P (ingest_decided update now source decision)
  unfolding ingest_decided
  ingest_decided-Keeps update now source (reject reason) = Keeps-pure _
  ingest_decided-Keeps update now source (accept sample) =
      search (kept_rules, apply_refresh-Keeps, Keeps-on_state, on_source-keeps) depth 12

  pub ingest_external_update-Keeps :
      (update : ExternalLocationUpdate e.F e.I) (now : e.I)
      → Keeps e P (ingest_external_update update now)
  unfolding ingest_external_update
  ingest_external_update-Keeps update now =
      search (kept_rules, admit-Keeps, ingest_decided-Keeps) depth 20

  ingest_pulled-Keeps :
      (now : e.I) (r : ProviderError ⊎ Option (ExternalLocationUpdate e.F e.I))
      → Keeps e P (ingest_pulled now r)
  ingest_pulled-Keeps now (inl x) = search kept_rules
  ingest_pulled-Keeps now (inr none) = Keeps-pure none
  ingest_pulled-Keeps now (inr (some update)) = search (kept_rules, ingest_external_update-Keeps)

  pub ingest_external_source_once-Keeps :
      (next : e.W → Result ProviderError (Option (ExternalLocationUpdate e.F e.I)) × e.W)
      (now : e.I)
      → Keeps e P (ingest_external_source_once next now)
  unfolding ingest_external_source_once
  ingest_external_source_once-Keeps next now = search (kept_rules, ingest_pulled-Keeps)

  requested-Keeps :
      (source : String) (now : e.I) (r : ProviderError ⊎ Unit {0})
      → Keeps e P (requested source now r)
  requested-Keeps source now (inl x) = search (kept_rules, Keeps-on_state, on_source-keeps) depth 8
  requested-Keeps source now (inr _) = search kept_rules

  send_request-Keeps :
      (source device : String) (ask : String → e.W → Result ProviderError (Unit {0}) × e.W)
      (now : e.I)
      → Keeps e P (send_request source device ask now)
  unfolding send_request
  send_request-Keeps source device ask now =
      search (kept_rules, Keeps-on_state, on_source-keeps, requested-Keeps) depth 12

  pub request_external_location-Keeps :
      (source device : String) (ask : String → e.W → Result ProviderError (Unit {0}) × e.W)
      (alive throttle : ℕ) (now : e.I)
      → Keeps e P (request_external_location source device ask alive throttle now)
  unfolding request_external_location
  request_external_location-Keeps source device ask alive throttle now =
      search (kept_rules, Keeps-on_state, on_source-keeps, send_request-Keeps) depth 24

  hold_account-keeps :
      (id : String) (ids : TreeSet) (count : ℕ) (at : e.I) (t : TrackingState e.F e.I e.J)
      → P t
      → P (hold_account id ids count at t)
  hold_account-keeps id ids count at t h = kept.accounts_changed _ t h

  back_off_known-Keeps :
      (id : String) (account : AccountRuntime e.I e.P) (now : e.I)
      → Keeps e P (back_off_known id account now)
  back_off_known-Keeps id account now =
      search (kept_rules, Keeps-modify, Keeps-on_state, hold_devices-keeps, hold_account-keeps)
        depth 16

  back_off_found-Keeps :
      (id : String) (found : Option (AccountRuntime e.I e.P)) (now : e.I)
      → Keeps e P (back_off_found id found now)
  back_off_found-Keeps id none now = Keeps-pure tt
  back_off_found-Keeps id (some account) now = back_off_known-Keeps id account now

  back_off-Keeps : (id : String) (now : e.I) → Keeps e P (back_off id now)
  unfolding back_off
  back_off-Keeps id now = search (kept_rules, back_off_found-Keeps)

  account_failed-Keeps :
      (id : String) (now : e.I) (x : ProviderError) → Keeps e P (account_failed id now x)
  unfolding account_failed
  account_failed-Keeps id now x = search (kept_rules, back_off-Keeps) depth 8

  located-Keeps :
      (id : String) (configured : Option TreeSet) (now : e.I)
      (r : ProviderError ⊎ List (DeviceSnapshot e.F e.I e.J))
      → Keeps e P (located id configured now r)
  unfolding apply_account_refresh
  located-Keeps id configured now (inl x) = account_failed-Keeps id now x
  located-Keeps id configured now (inr snapshots) = apply_refresh-Keeps (some id) _ now false none

  refresh_account-Keeps :
      (now : e.I) (entry : String × AccountRuntime e.I e.P) → Keeps e P (refresh_account now entry)
  unfolding refresh_account
  refresh_account-Keeps now (id, account) = search (kept_rules, located-Keeps)

  pub tick-Keeps : (now : e.I) → Keeps e P (tick now)
  unfolding tick
  tick-Keeps now = search (kept_rules, refresh_account-Keeps) depth 16

  pub run-Keeps : (stop : Bool) (wakes : List Wake) → Keeps e P (run stop wakes)
  unfolding run
  run-Keeps true wakes = search kept_rules depth 8
  run-Keeps false [] = Keeps-pure false
  run-Keeps false (timer next ∷ wakes) =
      Keeps-bind clock_now _ Keeps-clock_now
        λ now. Keeps-then (tick now) _ (tick-Keeps now) (run-Keeps next wakes)
  run-Keeps false (changed next ∷ wakes) = run-Keeps next wakes
  run-Keeps false (closed ∷ wakes) = search kept_rules depth 8
