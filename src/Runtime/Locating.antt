-- ===== src/Runtime/Locating.antt =====
-- What `locate_now` of src/runtime.rs does.
use icloud_location.Prelude.{
  ◌≡◌, ◌∙◌, refl, ap, Bool, true, false, not, ◌||◌, some, [], ◌∷◌, String, arith, eq_iff, any,
  is_some_and, is_empty, ltb,
}
use icloud_location.Std.Chrono.{Chrono}
use icloud_location.Std.TreeMap.{TreeMap, TreeSet, get, insert, get-insert, contains}
use icloud_location.Core.{TrackingEvent}
use icloud_location.Tracking.State.Defs.{DeviceTrackingState}
use icloud_location.Tracking.State.Events.{TrackingState}
use icloud_location.Runtime.Defs.{Env, Runtime, AccountRuntime}
use icloud_location.Runtime.Action.{emit_at, persist_at, save_state}
use icloud_location.Runtime.Accounts.{account_is_due, is_device_due}
use icloud_location.Runtime.Commands.{locate_now, change_devices, due_account}
use icloud_location.Runtime.Known.{get-change_devices}
use icloud_location.Runtime.Failing.{HasKept, emit_at-HasKept, continue-HasKept}

module _ {e : Env} where
  persist_at-HasKept : (now : e.I) (s : Runtime e) → HasKept s (persist_at now s).1
  unfolding persist_at save_state
  persist_at-HasKept now s = (refl, refl, refl)

  -- The runtime that `locate_now` emits its event from.
  abbrev sought : String → e.I → AccountRuntime e.I e.P → Runtime e → Runtime e
  sought id now account s = record s {
    accounts = insert id (record account { next_discovery_at = now }) s.accounts;
    state =
        due_account id now
          (change_devices account.device_ids (λ d. record d { next_update_at = some now }) s.state);
  }

  locate_now-HasKept :
      (id : String) (now : e.I) (account : AccountRuntime e.I e.P) (s : Runtime e)
      → get id s.accounts ≡ some account
      → HasKept (sought id now account s) (locate_now id now s).1
  unfolding locate_now
  locate_now-HasKept id now account s found =
      let s1 = sought id now account s in
      let event : TrackingEvent e.I = TrackingEvent.tracking_locate_requested id in
      rw found (
        continue-HasKept (emit_at now event s1).0 _ s1 _ (emit_at-HasKept now event s1)
          λ u. persist_at-HasKept now _)

module _ {F I J : Type 0} where
  -- A device that is known and not paused.
  abbrev is_running : TreeMap (DeviceTrackingState F I J) → String → Bool
  is_running devices id = is_some_and (get id devices) (λ d. not d.paused)

module _ {F I D J : Type 0} (c : Chrono I D) where
  any-due :
      (now due_before : I) (all ids : TreeSet) (t : TrackingState F I J)
      → c.before due_before now ≡ false
      → ((j : String) → contains j ids ≡ true → contains j all ≡ true)
      → any (is_running t.devices) ids ≡ true
      → any
          (is_device_due c
            (change_devices all (λ d. record d { next_update_at = some now }) t).devices
            due_before)
          ids
        ≡ true
  unfolding contains
  any-due now due_before all [] t later within some_running = absurd cc
  any-due now due_before all (id ∷ ids) t later within some_running = ground (
    arith,
    later,
    some_running,
    within id (ground (arith, eq_iff id id)),
    get-change_devices id all
        (λ (d : DeviceTrackingState F I J). record d { next_update_at = some now }) t (λ d. refl),
    any-due now due_before all ids t later λ j member. within j (ground (arith, member)),
  )

module _ {e : Env} where
  -- After `locate_now`, however the event and the save turn out, the account is due in every
  -- tick from that time on, by the time of the tick and the end of its window, where it has had errors,
  -- or has no devices yet, or has a known device that is not paused.
  pub locate_now_makes_due :
      (id : String) (now t due_before : e.I) (account : AccountRuntime e.I e.P) (s : Runtime e)
      → get id s.accounts ≡ some account
      → e.chrono.before t now ≡ false
      → e.chrono.before due_before now ≡ false
      → (ltb 0 account.authentication_error_count
          || (is_empty account.device_ids || any (is_running s.state.devices) account.device_ids))
        ≡ true
      → let s' = (locate_now id now s).1 in
        (account' : AccountRuntime e.I e.P) × (get id s'.accounts ≡ some account')
        × (account_is_due e.chrono s'.state.devices account' t due_before ≡ true)
  unfolding account_is_due
  locate_now_makes_due id now t due_before account s found same later running =
      let kept = locate_now-HasKept id now account s found in
      let account' : AccountRuntime e.I e.P = record account { next_discovery_at = now } in
      (
        account',
        ap (get id) kept.0 ∙ ground (arith, get-insert id id account' s.accounts, eq_iff id id),
        rw kept.1 (
            ground (
              arith,
              same,
              later,
              running,
              any-due e.chrono now due_before account.device_ids account.device_ids s.state later
                  (λ j member. member),
            )),
      )
