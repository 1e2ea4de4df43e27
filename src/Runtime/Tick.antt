-- ===== src/Runtime/Tick.antt =====
-- `TrackingRuntime::tick` and `run` of src/runtime.rs.
use Prim.Native.String.{◌++◌}
use icloud_location.Prelude.{
  ℕ, Bool, true, false, ◌==◌, ◌⊎◌, inl, inr, Option, none, some, List, [], ◌∷◌, String,
  if◌then◌else◌, length,
}
use icloud_location.Std.Chrono.{Chrono}
use icloud_location.Std.Filter.{filter}
use icloud_location.Std.Sort.{first}
use icloud_location.Std.Words.{u32_max, saturating_add}
use icloud_location.Std.TreeMap.{TreeMap, TreeSet, get, insert, contains}
use icloud_location.Core.{
  DeviceSnapshot, LocationRequest, ProviderError, ProviderErrorKind, authentication, unavailable,
  other, provider_text, TrackingEvent,
}
use icloud_location.Tracking.Interval.Defs.{retry_interval_seconds}
use icloud_location.Tracking.State.Defs.{DeviceTrackingState, AccountTrackingState}
use icloud_location.Tracking.State.Events.{TrackingState}
use icloud_location.Runtime.Defs.{Env, AccountRuntime}
use icloud_location.Runtime.Config.{chrono_duration}
use icloud_location.Runtime.Accounts.{account_is_due}
use icloud_location.Runtime.Commands.{change_devices}
use icloud_location.Runtime.Refresh.Interval.{after_seconds}
use icloud_location.Runtime.Refresh.Apply.{apply_account_refresh, plus_or_panic}
use icloud_location.Runtime.Action.{
  Action, pure, gets, lift, modify, on_state, call, clock_now, emit_at, persist_at, for_each, ◌>>=◌,
  ◌>>◌,
}

-- The only device of an account that is configured with one.
abbrev pub only_device : Option TreeSet → Option String
only_device none = none
only_device (some ids) = if length ids == 1 then first ids else none

abbrev pub is_authentication : ProviderErrorKind → Bool
is_authentication authentication = true
is_authentication unavailable = false
is_authentication other = false

module _ {F I J : Type 0} where
  abbrev pub wanted : Option TreeSet → List (DeviceSnapshot F I J) → List (DeviceSnapshot F I J)
  wanted none snapshots = snapshots
  wanted (some ids) snapshots = filter (λ s. contains s.id ids) snapshots

  -- A device of an account whose provider failed.
  abbrev pub hold : ℕ → I → DeviceTrackingState F I J → DeviceTrackingState F I J
  hold count at d = record d { authentication_error_count = count; next_update_at = some at }

  -- The account in the tracking state after an error.
  abbrev pub hold_account : String → TreeSet → ℕ → I → TrackingState F I J → TrackingState F I J
  hold_account id ids count at t =
      let entry : AccountTrackingState I = record {
        device_ids = ids;
        authentication_error_count = count;
        next_discovery_at = some at;
      } in
      record t { accounts = insert id entry t.accounts }

module _ {F I D J P : Type 0} (c : Chrono I D) where
  -- The accounts that are due, as they were before any of them was refreshed.
  unfoldable pub due_accounts :
      I
      → I
      → TreeMap (DeviceTrackingState F I J)
      → TreeMap (AccountRuntime I P)
      → List (String × AccountRuntime I P)
  due_accounts now due_before devices accounts =
      filter
        (λ (entry : String × AccountRuntime I P). account_is_due c devices entry.1 now due_before)
        accounts

module _ {e : Env} where
  abbrev pub back_off_known : String → AccountRuntime e.I e.P → e.I → Action e (Unit {0})
  back_off_known id account now = do
    let count = saturating_add u32_max account.authentication_error_count 1
    at ← lift (after_seconds e.chrono now (retry_interval_seconds count))
    modify (λ s. record s {
      accounts =
          insert id (record account { authentication_error_count = count; next_discovery_at = at })
            s.accounts;
    })
    on_state (change_devices account.device_ids (hold count at))
    on_state (hold_account id account.device_ids count at)

  abbrev pub back_off_found : String → Option (AccountRuntime e.I e.P) → e.I → Action e (Unit {0})
  back_off_found id none now = pure tt
  back_off_found id (some account) now = back_off_known id account now

  -- One more error, and a later try of the account and its devices.
  unfoldable pub back_off : String → e.I → Action e (Unit {0})
  back_off id now = do found ← gets (λ s. get id s.accounts); back_off_found id found now

  abbrev pub require_authentication : String → e.I → ProviderErrorKind → Action e (Unit {0})
  require_authentication id now kind =
      if is_authentication kind
      then emit_at now (TrackingEvent.authentication_required id)
      else pure tt

  unfoldable pub account_failed : String → e.I → ProviderError → Action e (Unit {0})
  unfolding back_off
  account_failed id now x = do
    back_off id now
    require_authentication id now x.kind
    emit_at now (TrackingEvent.warning ("account " ++ id ++ " refresh failed: " ++ provider_text x))

  abbrev pub located :
      String
      → Option TreeSet
      → e.I
      → ProviderError ⊎ List (DeviceSnapshot e.F e.I e.J)
      → Action e (Unit {0})
  located id configured now (inl x) = account_failed id now x
  located id configured now (inr snapshots) =
      apply_account_refresh id (wanted configured snapshots) now

  -- The provider of an account is asked.
  unfoldable pub refresh_account : e.I → (String × AccountRuntime e.I e.P) → Action e (Unit {0})
  unfolding account_failed
  refresh_account now (id, account) = do
    let request : LocationRequest = record {
      family = true;
      selected_device = only_device account.configured_device_ids;
    }
    answer ← call (e.locate account.provider request)
    located id account.configured_device_ids now answer

  unfoldable pub tick : e.I → Action e (Unit {0})
  unfolding due_accounts refresh_account
  tick now = do
    config ← gets (λ s. s.config)
    prefetch ← lift (chrono_duration e.chrono config.prefetch_window)
    due_before ← lift (plus_or_panic e.chrono now prefetch)
    due ← gets (λ s. due_accounts e.chrono now due_before s.state.devices s.accounts)
    for_each due (refresh_account now)
    persist_at now

-- What ends a wait of the loop of `run`: the timer, with the value that the shutdown channel has
-- after the tick, a change of the channel to a value, or its end.
pub data Wake : Type 0 where
  timer changed : Bool → Wake
  closed : Wake

module _ {e : Env} where
  -- The last save.
  abbrev pub shut_down : Action e Bool
  shut_down = do now ← clock_now; persist_at now; pure true

  -- The loop of `run` from a value of the shutdown channel. The result is `false` where the loop
  -- still waits after these wake-ups.
  unfoldable pub run : Bool → List Wake → Action e Bool
  unfolding tick
  run true wakes = shut_down
  run false [] = pure false
  run false (timer next ∷ wakes) = do now ← clock_now; tick now; run next wakes
  run false (changed next ∷ wakes) = run next wakes
  run false (closed ∷ wakes) = shut_down
