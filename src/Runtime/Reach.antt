-- ===== src/Runtime/Reach.antt =====
-- The operations of src/runtime.rs as steps, and the states that they reach.
use mathlib.Core.List.{foldl}
use icloud_location.Prelude.{
  ◌≡◌, Bool, Option, List, [], ◌∷◌, String, ℕ, is_empty, unwrap_or, if◌then◌else◌, sym, ap,
}
use icloud_location.Std.Result.{Result, ok, >>=-eq-ok, ok_injective}
use icloud_location.Std.TreeMap.{TreeSet, get}
use icloud_location.Core.{ExternalLocationUpdate, ProviderError}
use icloud_location.Tracking.State.Events.{TrackingState}
use icloud_location.Runtime.Defs.{Env, Runtime, RuntimeConfig}
use icloud_location.Runtime.Config.{validate_config}
use icloud_location.Runtime.Accounts.{
  with_clock, set_routing, register_account, ensure_device, to_set, empty_account,
}
use icloud_location.Runtime.Commands.{pause, resume, schedule, locate_now}
use icloud_location.Runtime.External.{
  ingest_external_update, ingest_external_source_once, request_external_location,
}
use icloud_location.Runtime.Tick.{tick, run, Wake}
use icloud_location.Runtime.Keeps.Rules.{IsKept}
use icloud_location.Runtime.Keeps.Commands.{
  pause-Keeps, resume-Keeps, schedule-Keeps, locate_now-Keeps,
}
use icloud_location.Runtime.Keeps.Operations.{
  ingest_external_update-Keeps, ingest_external_source_once-Keeps, request_external_location-Keeps,
  tick-Keeps, run-Keeps,
}

module _ (e : Env) where
  -- A call of a public method of the runtime that changes it.
  pub data Operation : Type 0 where
    set_routing_to : e.R → Option e.H → Operation
    register : String → e.P → List String → Operation
    pause_of : Option String → Operation
    resume_of : Option String → e.I → Operation
    schedule_of : String → e.I → Operation
    locate_of : String → e.I → Operation
    ingest : ExternalLocationUpdate e.F e.I → e.I → Operation
    pull :
        (e.W → Result ProviderError (Option (ExternalLocationUpdate e.F e.I)) × e.W)
        → e.I
        → Operation
    request :
        String
        → String
        → (String → e.W → Result ProviderError (Unit {0}) × e.W)
        → ℕ
        → ℕ
        → e.I
        → Operation
    tick_at : e.I → Operation
    run_on : Bool → List Wake → Operation

module _ {e : Env} where
  -- The runtime after a call, whether the call succeeds or fails.
  unfoldable pub perform : Operation e → Runtime e → Runtime e
  perform (set_routing_to r h) s = set_routing r h s
  perform (register id p ids) s = register_account id p ids s
  perform (pause_of selected) s = (pause selected s).1
  perform (resume_of selected now) s = (resume selected now s).1
  perform (schedule_of id at) s = (schedule id at s).1
  perform (locate_of id now) s = (locate_now id now s).1
  perform (ingest update now) s = (ingest_external_update update now s).1
  perform (pull source now) s = (ingest_external_source_once source now s).1
  perform (request source id ask alive throttle now) s =
      (request_external_location source id ask alive throttle now s).1
  perform (tick_at now) s = (tick now s).1
  perform (run_on stop wakes) s = (run stop wakes s).1

module _ (e : Env) where
  -- The second runtime comes from the first by calls.
  pub data Reach : Runtime e → Runtime e → Type 0 where
    here : (s : Runtime e) → Reach s s
    next : (s s' : Runtime e) (op : Operation e) → Reach s s' → Reach s (perform op s')

module _ {e : Env} {P : TrackingState e.F e.I e.J → Type 0} (kept : IsKept e P) where
  ensure_devices-keeps :
      (ids : TreeSet) (t : TrackingState e.F e.I e.J)
      → P t
      → P (record t { devices = foldl (λ m id. ensure_device e.null id m) t.devices ids })
  ensure_devices-keeps [] t h = h
  ensure_devices-keeps (id ∷ ids) t h =
      ensure_devices-keeps ids (record t { devices = ensure_device e.null id t.devices })
        (kept.device_entered id t h)

  register_account-keeps :
      (id : String) (p : e.P) (ids : List String) (s : Runtime e)
      → P s.state
      → P (register_account id p ids s).state
  unfolding register_account
  register_account-keeps id p ids s h =
      let configured = to_set ids in
      let persisted = unwrap_or (get id s.state.accounts) empty_account in
      let device_ids = if is_empty configured then persisted.device_ids else configured in
      kept.accounts_changed _ _ (ensure_devices-keeps device_ids s.state h)

  pub perform-keeps : (op : Operation e) (s : Runtime e) → P s.state → P (perform op s).state
  unfolding perform set_routing
  perform-keeps (set_routing_to r k) s h = h
  perform-keeps (register id p ids) s h = register_account-keeps id p ids s h
  perform-keeps (pause_of selected) s h = (pause-Keeps kept selected).at s h
  perform-keeps (resume_of selected now) s h = (resume-Keeps kept selected now).at s h
  perform-keeps (schedule_of id at) s h = (schedule-Keeps kept id at).at s h
  perform-keeps (locate_of id now) s h = (locate_now-Keeps kept id now).at s h
  perform-keeps (ingest update now) s h = (ingest_external_update-Keeps kept update now).at s h
  perform-keeps (pull source now) s h = (ingest_external_source_once-Keeps kept source now).at s h
  perform-keeps (request source id ask alive throttle now) s h =
      (request_external_location-Keeps kept source id ask alive throttle now).at s h
  perform-keeps (tick_at now) s h = (tick-Keeps kept now).at s h
  perform-keeps (run_on stop wakes) s h = (run-Keeps kept stop wakes).at s h

  pub reach-keeps : (s s' : Runtime e) → Reach e s s' → P s.state → P s'.state
  reach-keeps _ _ (here s) h = h
  reach-keeps _ _ (next s s' op r) h = perform-keeps op s' (reach-keeps s s' r h)

module _ {e : Env} where
  -- A runtime that is created has the state that was loaded, and a valid configuration.
  pub with_clock-eq-ok :
      (config : RuntimeConfig e.F) (t : TrackingState e.F e.I e.J) (w : e.W) {s : Runtime e}
      → with_clock config (ok t) w ≡ ok s
      → (s.state ≡ t) × (validate_config e.float config ≡ ok tt)
  unfolding with_clock
  with_clock-eq-ok config t w h =
      let (u, valid, made) = >>=-eq-ok (validate_config e.float config) _ h in
      (sym (ap (λ r. r.state) (ok_injective made)), valid)
