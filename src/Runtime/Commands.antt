-- ===== src/Runtime/Commands.antt =====
-- The commands of src/runtime.rs: `pause`, `resume`, `schedule` and `locate_now`.
use icloud_location.Prelude.{
  Bool, true, false, Option, some, [], ◌∷◌, String, str_eq, is_none, is_none_or, is_some_and,
  unwrap_or, if◌then◌else◌,
}
use icloud_location.Std.TreeMap.{TreeMap, TreeSet, get, insert}
use icloud_location.Core.{TrackingEvent}
use icloud_location.Tracking.State.Defs.{DeviceTrackingState}
use icloud_location.Tracking.State.Events.{TrackingState}
use icloud_location.Runtime.Defs.{Env, Runtime, unknown_device, unknown_account, Device}
use icloud_location.Runtime.Accounts.{empty_account}
use icloud_location.Runtime.Action.{
  Action, gets, modify, on_state, on_device, raise_if, or_raise, clock_now, emit_at, persist_at,
  change_device, ◌>>=◌, ◌>>◌,
}

module _ {F I J : Type 0} where
  -- A change of `selected_devices_mut(selected)`: all devices, or those with an identifier.
  unfoldable pub change_selected :
      Option String
      → (DeviceTrackingState F I J → DeviceTrackingState F I J)
      → TreeMap (DeviceTrackingState F I J)
      → TreeMap (DeviceTrackingState F I J)
  change_selected selected g [] = []
  change_selected selected g ((k, d) ∷ devices) =
      (k, if is_none_or selected (λ id. str_eq d.device_id id) then g d else d)
      ∷ change_selected selected g devices

  -- `for id in ids { if let Some(device) = devices.get_mut(id) { .. } }`
  unfoldable pub change_devices :
      TreeSet
      → (DeviceTrackingState F I J → DeviceTrackingState F I J)
      → TrackingState F I J
      → TrackingState F I J
  change_devices [] g t = t
  change_devices (id ∷ ids) g t = change_devices ids g (change_device id g t)

  -- The account in the tracking state, `entry(id).or_default()`.
  abbrev pub due_account : String → I → TrackingState F I J → TrackingState F I J
  due_account id now t = record t {
    accounts =
        insert id
          (record (unwrap_or (get id t.accounts) empty_account) { next_discovery_at = some now })
          t.accounts;
  }

module _ {e : Env} where
  -- `if let Some(id) = device_id && !devices.contains_key(id)`
  abbrev is_unknown_device : Option String → Runtime e → Bool
  is_unknown_device selected s = is_some_and selected (λ id. is_none (get id s.state.devices))

  abbrev check_device : Option String → Action e (Unit {0})
  check_device selected = do
    unknown ← gets (is_unknown_device selected)
    raise_if unknown (unknown_device (unwrap_or selected ""))

  abbrev on_selected : Option String → (Device e → Device e) → Action e (Unit {0})
  on_selected selected g =
      on_state (λ t. record t { devices = change_selected selected g t.devices })

  unfoldable pub pause : Option String → Action e (Unit {0})
  pause selected = do
    check_device selected
    on_selected selected (λ d. record d { paused = true })
    now ← clock_now
    emit_at now (TrackingEvent.tracking_paused selected)
    persist_at now

  unfoldable pub resume : Option String → e.I → Action e (Unit {0})
  resume selected now = do
    check_device selected
    on_selected selected (λ d. record d { paused = false; next_update_at = some now })
    emit_at now (TrackingEvent.tracking_resumed selected)
    persist_at now

  unfoldable pub schedule : String → e.I → Action e (Unit {0})
  schedule id at = do
    unknown ← gets (λ s. is_none (get id s.state.devices))
    raise_if unknown (unknown_device id)
    on_device id (λ d. record d { next_update_at = some at })
    now ← clock_now
    emit_at now (TrackingEvent.tracking_scheduled id at)
    persist_at now

  unfoldable pub locate_now : String → e.I → Action e (Unit {0})
  locate_now id now = do
    found ← gets (λ s. get id s.accounts)
    account ← or_raise found (unknown_account id)
    modify (λ s. record s {
      accounts = insert id (record account { next_discovery_at = now }) s.accounts;
    })
    on_state (change_devices account.device_ids (λ d. record d { next_update_at = some now }))
    on_state (due_account id now)
    emit_at now (TrackingEvent.tracking_locate_requested id)
    persist_at now
