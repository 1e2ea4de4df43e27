-- ===== src/Runtime/Commanding.antt =====
-- What the commands of src/runtime.rs do.
use icloud_location.Prelude.{
  ◌≡◌, refl, true, false, none, some, List, [], ◌∷◌, String, arith, is_empty, any,
}
use icloud_location.Std.Chrono.{Chrono}
use icloud_location.Std.TreeMap.{TreeMap}
use icloud_location.Tracking.State.Defs.{DeviceTrackingState}
use icloud_location.Tracking.State.Events.{TrackingState, record_event}
use icloud_location.Runtime.Defs.{Env, Runtime, AccountRuntime, Device}
use icloud_location.Runtime.Action.{emit_at, persist_at, save_state, ◌>>◌}
use icloud_location.Runtime.Accounts.{account_is_due, is_device_due}
use icloud_location.Runtime.Commands.{pause, resume, change_selected}
use icloud_location.Core.{TrackingEvent}
use icloud_location.Runtime.Keeps.Rules.{Keeps, Keeps-then, Keeps-on_state, keeps_rules}
use icloud_location.Runtime.Known.{get-change_selected-none, is_known}

module _ {F I D J : Type 0} (c : Chrono I D) where
  not_due_when_paused :
      (devices : TreeMap (DeviceTrackingState F I J)) (due_before : I) (ids : List String)
      → any
          (is_device_due c
            (change_selected none (λ d. record d { paused = true }) devices)
            due_before)
          ids
        ≡ false
  not_due_when_paused devices due_before [] = refl
  not_due_when_paused devices due_before (id ∷ ids) = ground (
    arith,
    get-change_selected-none id (λ (d : DeviceTrackingState F I J). record d { paused = true })
        devices,
    not_due_when_paused devices due_before ids,
  )

module _ {e : Env} where
  -- A predicate on the devices and the accounts of the runtime is not changed by an event or a save.
  emit_at-Keeps :
      (P : TrackingState e.F e.I e.J → Type 0) (x : TrackingEvent e.I) (now : e.I)
      → ((t : TrackingState e.F e.I e.J) → P t → P (record_event now x t))
      → Keeps e P (emit_at now x)
  unfolding emit_at
  emit_at-Keeps P x now k = search (keeps_rules, Keeps-on_state (record_event now x) k)

  persist_at-Keeps :
      (P : TrackingState e.F e.I e.J → Type 0) (now : e.I)
      → ((t : TrackingState e.F e.I e.J) → P t → P (record t { saved_at = some now }))
      → Keeps e P (persist_at now)
  unfolding persist_at save_state
  persist_at-Keeps P now k = record { at = λ s h. k s.state h }

  emit_persist-devices :
      (x : TrackingEvent e.I) (now : e.I) (s : Runtime e)
      → ((emit_at now x >> persist_at now) s).1.state.devices ≡ s.state.devices
  unfolding record_event
  emit_persist-devices x now s =
      let P : TrackingState e.F e.I e.J → Type 0 = λ t. t.devices ≡ s.state.devices in
      (Keeps-then {P = P} (emit_at now x) (persist_at now) (emit_at-Keeps P x now λ t h. h)
          (persist_at-Keeps P now λ t h. h)).at
        s refl

  pause_all-devices :
      (s : Runtime e)
      → (pause none s).1.state.devices
        ≡ change_selected none (λ d. record d { paused = true }) s.state.devices
  unfolding pause
  pause_all-devices s = emit_persist-devices _ _ _

  resume_all-devices :
      (now : e.I) (s : Runtime e)
      → (resume none now s).1.state.devices
        ≡ change_selected none
            (λ d. record d { paused = false; next_update_at = some now })
            s.state.devices
  unfolding resume
  resume_all-devices now s = emit_persist-devices _ _ _

  pause_stops_account :
      (s : Runtime e) (account : AccountRuntime e.I e.P) (now due_before : e.I)
      → account.authentication_error_count ≡ 0
      → is_empty account.device_ids ≡ false
      → account_is_due e.chrono (pause none s).1.state.devices account now due_before ≡ false
  unfolding account_is_due
  pause_stops_account s account now due_before fine some_ids = rw (pause_all-devices s) (
      ground (
        arith,
        fine,
        some_ids,
        not_due_when_paused e.chrono s.state.devices due_before account.device_ids,
      ))

  resume_makes_due :
      (s : Runtime e) (id : String) (now due_before : e.I)
      → is_known id s.state.devices ≡ true
      → e.chrono.before due_before now ≡ false
      → is_device_due e.chrono (resume none now s).1.state.devices due_before id ≡ true
  resume_makes_due s id now due_before known later = rw (resume_all-devices now s) (
      ground (
        arith,
        known,
        later,
        get-change_selected-none id
            (λ (d : Device e). record d { paused = false; next_update_at = some now })
            s.state.devices,
      ))

  -- However the event and the save turn out: after a pause of all devices, no account with known
  -- devices is due at any time, unless it waits for another try after an error; and after all
  -- devices are resumed at a time, every known device is due from that time on.
  pub pause_and_resume :
      (s : Runtime e) (account : AccountRuntime e.I e.P) (now due_before : e.I)
      → account.authentication_error_count ≡ 0
      → is_empty account.device_ids ≡ false
      → e.chrono.before due_before now ≡ false
      → (account_is_due e.chrono (pause none s).1.state.devices account now due_before ≡ false)
        × ((id : String)
            → is_known id s.state.devices ≡ true
            → is_device_due e.chrono (resume none now s).1.state.devices due_before id ≡ true)
  pause_and_resume s account now due_before fine some_ids later = (
    pause_stops_account s account now due_before fine some_ids,
    λ id known. resume_makes_due s id now due_before known later,
  )
