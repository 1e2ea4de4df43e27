-- ===== src/Runtime/Refresh/Apply.antt =====
-- `TrackingRuntime::apply_refresh` for a list of snapshots (src/runtime.rs).
use icloud_location.Prelude.{
  ℕ, Bool, true, false, not, ◌&&◌, ◌||◌, ◌==◌, Option, none, some, List, [], ◌∷◌, ◌++◌, String,
  str_eq, is_some_and, unwrap_or, if◌then◌else◌, map,
}
use icloud_location.Prelude.Int.{pos}
use icloud_location.Std.Result.{Result, or_panic}
use icloud_location.Std.Chrono.{Chrono}
use icloud_location.Std.TreeMap.{TreeMap, TreeSet, get, insert}
use icloud_location.Core.{DeviceSnapshot, TrackingEvent, ExternalTrigger}
use icloud_location.Tracking.State.Defs.{DeviceTrackingState, AccountTrackingState}
use icloud_location.Tracking.State.Events.{TrackingState}
use icloud_location.Runtime.Defs.{Env, RuntimeError, AccountRuntime, Device}
use icloud_location.Runtime.Config.{chrono_duration}
use icloud_location.Runtime.Accounts.{to_set, earliest, update_times}
use icloud_location.Runtime.Commands.{change_devices}
use icloud_location.Runtime.Nearby.{update_nearby_devices}
use icloud_location.Runtime.Refresh.Device.{is_exit, set_time, refresh_device}
use icloud_location.Runtime.Action.{
  Action, pure, gets, lift, modify, on_state, on_device, emit_at, for_each, ◌>>=◌, ◌>>◌,
}

module _ {F I J : Type 0} where
  -- The other devices of a group.
  unfoldable pub members_of : ℕ → String → TreeMap (DeviceTrackingState F I J) → List String
  members_of group source [] = []
  members_of group source ((_, d) ∷ devices) =
      let rest = members_of group source devices in
      if not (str_eq d.device_id source) && is_some_and d.nearby_group (λ g. g == group)
      then d.device_id ∷ rest
      else rest

  abbrev group_of : TreeMap (DeviceTrackingState F I J) → String → Option ℕ
  group_of devices source = elim (get source devices) [ none ↦ none | some d ↦ d.nearby_group ]

  abbrev companions :
      TreeMap (DeviceTrackingState F I J) → List (DeviceSnapshot F I J) → List String
  companions devices [] = []
  companions devices (snapshot ∷ snapshots) = elim (group_of devices snapshot.id) [
    | none ↦ []
    | some group ↦ members_of group snapshot.id devices
  ]

  -- The devices that are near the first one, when it left a zone.
  unfoldable pub exit_members :
      Option ExternalTrigger
      → TreeMap (DeviceTrackingState F I J)
      → List (DeviceSnapshot F I J)
      → List String
  unfolding members_of
  exit_members trigger devices snapshots =
      if is_exit trigger then companions devices snapshots else []

module _ {I D : Type 0} (c : Chrono I D) where
  unfoldable pub plus_or_panic : I → D → Result RuntimeError I
  plus_or_panic now d = or_panic (c.plus now d)

  -- `now + TimeDelta::minutes(2)`
  unfoldable pub in_two_minutes : I → Result RuntimeError I
  in_two_minutes now = elim (c.minutes (pos 2)) [
    | none ↦ or_panic none
    | some d ↦ or_panic (c.plus now d)
  ]

module _ {F I D J : Type 0} (c : Chrono I D) where
  -- A device that is neither paused nor due by then.
  abbrev pub is_later : I → DeviceTrackingState F I J → Bool
  is_later at d = not (d.paused || is_some_and d.next_update_at (λ t. not (c.before at t)))

module _ {F I J : Type 0} where
  -- A device of the account after a refresh: no errors, and a next update.
  abbrev pub clear_errors : I → DeviceTrackingState F I J → DeviceTrackingState F I J
  clear_errors next d = record d {
    authentication_error_count = 0;
    next_update_at = some (unwrap_or d.next_update_at next);
  }

  -- The account in the tracking state after a refresh.
  abbrev pub clear_account : String → TreeSet → I → TrackingState F I J → TrackingState F I J
  clear_account account_id ids next t =
      let entry : AccountTrackingState I = record {
        device_ids = ids;
        authentication_error_count = 0;
        next_discovery_at = some next;
      } in
      record t { accounts = insert account_id entry t.accounts }

module _ {e : Env} where
  abbrev pub move_up : e.I → String → Option (Device e) → Action e (List String)
  move_up at id none = pure []
  move_up at id (some d) =
      if is_later e.chrono at d
      then (do on_device id (set_time true at); pure (id ∷ []))
      else pure []

  -- The next updates of the devices are moved up; those that were moved are returned.
  unfoldable pub move_up_all : e.I → List String → Action e (List String)
  move_up_all at [] = pure []
  move_up_all at (id ∷ ids) = do
    found ← gets (λ s. get id s.state.devices)
    moved ← move_up at id found
    rest ← move_up_all at ids
    pure (moved ++ rest)

  unfoldable pub schedule_exit : e.I → List String → Action e (Unit {0})
  unfolding move_up_all
  schedule_exit now [] = pure tt
  schedule_exit now (id ∷ ids) = do
    at ← lift (in_two_minutes e.chrono now)
    scheduled ← move_up_all at (id ∷ ids)
    for_each scheduled (λ id'. emit_at now (TrackingEvent.tracking_scheduled id' at))

  abbrev pub finish_known :
      String → AccountRuntime e.I e.P → TreeSet → e.I → e.I → Action e (Unit {0})
  finish_known account_id account ids later now = do
    on_state (change_devices ids (clear_errors later))
    devices ← gets (λ s. s.state.devices)
    let next = unwrap_or (earliest e.chrono (update_times devices ids)) later
    modify (λ s. record s {
      accounts =
          insert account_id
            (record account {
              device_ids = ids;
              authentication_error_count = 0;
              next_discovery_at = next;
            })
            s.accounts;
    })
    on_state (clear_account account_id ids next)

  abbrev pub finish_found :
      String → Option (AccountRuntime e.I e.P) → TreeSet → e.I → e.D → Action e (Unit {0})
  finish_found account_id none refreshed now interval = pure tt
  finish_found account_id (some account) refreshed now interval = do
    later ← lift (plus_or_panic e.chrono now interval)
    finish_known account_id account (unwrap_or account.configured_device_ids refreshed) later now

  -- The account has no errors any more, and is due when the first of its devices is.
  unfoldable pub finish_account : Option String → TreeSet → e.I → e.D → Action e (Unit {0})
  unfolding plus_or_panic
  finish_account none refreshed now interval = pure tt
  finish_account (some account_id) refreshed now interval = do
    found ← gets (λ s. get account_id s.accounts)
    finish_found account_id found refreshed now interval

  unfoldable pub apply_refresh :
      Option String
      → List (DeviceSnapshot e.F e.I e.J)
      → e.I
      → Bool
      → Option ExternalTrigger
      → Action e (Unit {0})
  unfolding schedule_exit
  apply_refresh account_id snapshots now external_update trigger = do
    config ← gets (λ s. s.config)
    interval ← lift (chrono_duration e.chrono config.default_update_interval)
    devices ← gets (λ s. s.state.devices)
    let members = exit_members trigger devices snapshots
    for_each snapshots (λ snapshot. refresh_device snapshot now external_update trigger)
    update_nearby_devices
    schedule_exit now members
    finish_account account_id (to_set (map (λ snapshot. snapshot.id) snapshots)) now interval

  -- The refresh of an account.
  unfoldable pub apply_account_refresh :
      String → List (DeviceSnapshot e.F e.I e.J) → e.I → Action e (Unit {0})
  apply_account_refresh account_id snapshots now =
      apply_refresh (some account_id) snapshots now false none
