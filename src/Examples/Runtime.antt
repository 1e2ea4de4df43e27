-- ===== src/Examples/Runtime.antt =====
-- Concrete runs of the runtime.
use icloud_location.Prelude.{
  ℕ, ◌≡◌, ◌⊎◌, ◌+◌, refl, true, false, none, some, [], ◌∷◌, String, not, ltb, arith,
}
use icloud_location.Prelude.Int.{pos}
use icloud_location.Std.Result.{Result, ok}
use icloud_location.Std.TreeMap.{get, insert}
use icloud_location.Core.{ProviderError, ExternalLocationUpdate, LocationSourceKind}
use icloud_location.Tracking.State.Defs.{DeviceTrackingState}
use icloud_location.Runtime.Defs.{Runtime, AccountRuntime}
use icloud_location.Runtime.Config.{chrono_duration}
use icloud_location.Runtime.Accounts.{register_account, account_is_due, is_device_due}
use icloud_location.Runtime.Commands.{pause, resume, locate_now}
use icloud_location.Std.Filter.{filter}
use icloud_location.Std.TreeMap.{contains, add}
use icloud_location.Tracking.Interval.Defs.{retry_interval_seconds, towards}
use icloud_location.Tracking.Interval.Determine.{validate_tracking_context}
use icloud_location.Tracking.Quality.Defs.{good}
use icloud_location.Tracking.External.Defs.{arbitrate, is_healthy, can_request, record_request}
use icloud_location.Runtime.Action.{for_each, emit_at, persist_at, save_state}
use icloud_location.Runtime.Refresh.Interval.{Facts, context_of, after_seconds}
use icloud_location.Runtime.External.{
  ingest_external_update, request_external_location, send_request,
}
use icloud_location.Runtime.Tick.{run, timer, tick, account_failed, hold}
use icloud_location.Runtime.Reach.{Reach, here, next, perform, register, pause_of, tick_at}
use icloud_location.Runtime.Sound.{IsSound, Reach-IsSound}
use icloud_location.Runtime.Known.{is_known, Reach-keeps_devices}
use icloud_location.Runtime.Commanding.{pause_and_resume}
use icloud_location.Runtime.Locating.{locate_now_makes_due}
use icloud_location.Runtime.Failing.{account_failed_backs_off}
use icloud_location.Runtime.Restart.{restart_keeps_back_off}
use icloud_location.Runtime.Ticking.{tick_survives_providers, tick_without_due_accounts, IsCalm}
use icloud_location.Runtime.Visits.{Visited, Halted}
use icloud_location.Runtime.Stopping.{run-IsSaved, IsSaved}
use icloud_location.Runtime.Refresh.Apply.{plus_or_panic}
use icloud_location.Runtime.Contexts.{valid_config_valid_context}
use icloud_location.Runtime.Ingesting.{ingest_not_accepted}
use icloud_location.Runtime.Requesting.{request_throttled, Call, AreRefused}
use icloud_location.Examples.Fixed.{Fixed, fixed, fixed_float}
use icloud_location.Examples.Clock.{clock}
use icloud_location.Examples.Zones.{origin}
use icloud_location.Examples.World.{
  refusal, env, config, config_valid, newcomer, loaded, account, created, started, created_run,
  loaded-IsSound,
}

-- A registration, a pause and a tick.
abbrev after_steps : Runtime env
after_steps =
    perform (tick_at 1000)
      (perform (pause_of none) (perform (register "main" tt ("one" ∷ [])) created))

steps : Reach env created after_steps
steps =
    next _ _ (tick_at 1000) (next _ _ (pause_of none) (next _ _ (register "main" tt _) (here _)))

Reach-IsSound_example : IsSound after_steps.state
Reach-IsSound_example =
    Reach-IsSound config loaded 1000 created after_steps created_run loaded-IsSound steps

Reach-keeps_devices_example : is_known "one" after_steps.state.devices ≡ true
unfolding get
Reach-keeps_devices_example = Reach-keeps_devices created after_steps "one" steps refl

pause_and_resume_example :
    (account_is_due clock (pause none started).1.state.devices account 1000 1015 ≡ false)
    × ((id : String)
        → is_known id loaded.devices ≡ true
        → is_device_due clock (resume none 1000 started).1.state.devices 1015 id ≡ true)
pause_and_resume_example = pause_and_resume started account 1000 1015 refl refl refl

locate_now_makes_due_example :
    (account' : AccountRuntime ℕ (Unit {0})) × (get "main"
        (locate_now "main" 1000 started).1.accounts
      ≡ some account')
    × (account_is_due clock (locate_now "main" 1000 started).1.state.devices account' 1007 1022
        ≡ true)
unfolding get
locate_now_makes_due_example =
    locate_now_makes_due "main" 1000 1007 1022 account started refl refl refl refl

account_failed_backs_off_example :
    let s' = (account_failed {e = env} "main" 1000 refusal started).1 in
    (account' : AccountRuntime ℕ (Unit {0})) × (get "main" s'.accounts ≡ some account')
    × (account'.authentication_error_count ≡ 1)
    × ((t due_before : ℕ)
        → account_is_due clock s'.state.devices account' t due_before ≡ not (ltb t 1005))
    × ((j : String) (d : DeviceTrackingState Fixed ℕ ℕ)
        → contains j ("one" ∷ []) ≡ true
        → get j loaded.devices ≡ some d
        → get j s'.state.devices ≡ some (hold 1 1005 d))
unfolding get after_seconds retry_interval_seconds
account_failed_backs_off_example =
    account_failed_backs_off "main" 1000 1005 refusal account started refl refl

calm : IsCalm env 1000
unfolding after_seconds
calm = record {
  emits = λ x w. refl;
  saves = λ t w. refl;
  times = λ n small. (1000 + n, ground arith);
}

tick_survives_providers_example :
    let due =
      filter
        (λ (entry : String × AccountRuntime ℕ (Unit {0})).
          account_is_due clock started.state.devices entry.1 1000 1015)
        started.accounts in
    ((s' : Runtime env) × Visited env 1000 due started s'
      × (tick 1000 started ≡ (ok tt, (persist_at 1000 s').1)))
    ⊎ Halted env 1000 due started (tick 1000 started)
tick_survives_providers_example = tick_survives_providers calm started (pos 15) 1015 refl refl

-- The runtime that is created from the state after a failure, whose devices are configured.
abbrev failed_state : Runtime env
failed_state = (account_failed {e = env} "main" 1000 refusal started).1

abbrev restarted : Runtime env
restarted = record created { state = record (failed_state.state) { saved_at = some 1001 } }

restart_keeps_back_off_example :
    get "main" (register_account "main" tt ("one" ∷ []) restarted).accounts
    ≡ some (record account {
      configured_device_ids = some ("one" ∷ []);
      next_discovery_at = 1005;
      authentication_error_count = 1;
    })
unfolding get after_seconds retry_interval_seconds add
restart_keeps_back_off_example =
    restart_keeps_back_off "main" 1000 1005 refusal account tt ("one" ∷ []) started restarted refl
      refl (λ j d member other known. ground (arith, member, other)) refl refl

-- The loop ticks once and is then told to stop.
abbrev stopped : Runtime env
stopped = (run {e = env} false (timer true ∷ []) started).1

run-IsSaved_example : IsSaved env stopped
unfolding run chrono_duration plus_or_panic for_each filter account_is_due get after_seconds
    retry_interval_seconds emit_at persist_at
run-IsSaved_example = run-IsSaved false (timer true ∷ []) started stopped refl

-- The account waits for its next discovery.
abbrev waiting : Runtime env
waiting = record started {
  accounts =
      ("main", record account { authentication_error_count = 1; next_discovery_at = 2000 }) ∷ [];
}

tick_without_due_accounts_example : tick 1000 waiting ≡ persist_at 1000 waiting
unfolding account_is_due
tick_without_due_accounts_example =
    tick_without_due_accounts 1000 waiting (pos 15) 1015 refl refl (refl, tt)

abbrev facts : Facts Fixed
facts = record {
  quality = some good;
  offline = false;
  external_update = false;
  external_exit = false;
  previous_zone = none;
  final_zone = none;
  closest_zone_id = none;
  distance_from_zone_km = fixed (pos 2000000);
  route = none;
  state_changed = false;
}

valid_config_valid_context_example :
    validate_tracking_context fixed_float (
      context_of fixed_float config facts newcomer false false false
        (fixed (pos 2000000))
        towards
        false
        none)
    ≡ ok tt
valid_config_valid_context_example =
    valid_config_valid_context fixed_float config facts newcomer false false false
      (fixed (pos 2000000)) towards false none config_valid refl

-- A sample without an accuracy, which the arbitration rejects.
abbrev update : ExternalLocationUpdate Fixed ℕ
update = record {
  device_id = "one";
  sample = record {
    coordinates = origin;
    horizontal_accuracy_meters = none;
    vertical_accuracy_meters = none;
    timestamp = 1000;
    source = LocationSourceKind.external "phone";
    is_old = false;
  };
  battery = none;
  trigger = none;
}

ingest_not_accepted_example : (ingest_external_update update 1000 started).1 ≡ started
unfolding arbitrate get
ingest_not_accepted_example = ingest_not_accepted update 1000 started refl

-- The requester answers, and time passes.
abbrev ask : String → ℕ → Result ProviderError (Unit {0}) × ℕ
ask device w = (ok tt, w + 1)

abbrev asked : Runtime env
asked = (request_external_location "phone" "one" ask 60000000000 30000000000 1000 started).1

asked_run :
    request_external_location "phone" "one" ask 60000000000 30000000000 1000 started
    ≡ (ok true, asked)
unfolding request_external_location chrono_duration send_request persist_at save_state is_healthy
    can_request get insert record_request
asked_run = refl

abbrev call_at : ℕ → Call env
call_at now = record {
  device = "one";
  ask = ask;
  alive = 60000000000;
  throttle = 30000000000;
  now = now;
}

request_throttled_example : AreRefused "phone" (call_at 1010 ∷ call_at 1020 ∷ []) asked
request_throttled_example =
    request_throttled "phone" (call_at 1000) (call_at 1010 ∷ call_at 1020 ∷ []) started asked
      asked_run ((pos 60, pos 30, refl, refl, refl), ((pos 60, pos 30, refl, refl, refl), tt))
