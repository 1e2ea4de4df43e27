-- ===== src/Runtime/Keeps/Commands.antt =====
-- The commands of src/runtime.rs keep what its basic changes keep.
use icloud_location.Prelude.{◌≡◌, Option, [], ◌∷◌, String}
use icloud_location.Std.TreeMap.{TreeSet}
use icloud_location.Tracking.State.Events.{TrackingState}
use icloud_location.Runtime.Defs.{Env, Device}
use icloud_location.Runtime.Action.{on_state}
use icloud_location.Runtime.Commands.{
  pause, resume, schedule, locate_now, change_devices, change_selected, due_account,
}
use icloud_location.Runtime.Keeps.Rules.{Keeps, IsKept, Keeps-modify, Keeps-on_state, kept_rules}

module _ {e : Env} {P : TrackingState e.F e.I e.J → Type 0} (kept : IsKept e P) where
  pub change_devices-keeps :
      (ids : TreeSet) (g : Device e → Device e) (t : TrackingState e.F e.I e.J)
      → ((d : Device e) → (g d).device_id ≡ d.device_id)
      → P t
      → P (change_devices ids g t)
  unfolding change_devices
  change_devices-keeps [] g t same h = h
  change_devices-keeps (id ∷ ids) g t same h =
      change_devices-keeps ids g _ same (kept.device_changed id g t same h)

  on_selected-Keeps :
      (selected : Option String) (g : Device e → Device e)
      → ((d : Device e) → (g d).device_id ≡ d.device_id)
      → Keeps e P (on_state (λ t. record t { devices = change_selected selected g t.devices }))
  on_selected-Keeps selected g same = Keeps-on_state _ λ t. kept.selected_changed selected g t same

  pub pause-Keeps : (selected : Option String) → Keeps e P (pause selected)
  unfolding pause
  pause-Keeps selected = search (kept_rules, on_selected-Keeps)

  pub resume-Keeps : (selected : Option String) (now : e.I) → Keeps e P (resume selected now)
  unfolding resume
  resume-Keeps selected now = search (kept_rules, on_selected-Keeps)

  pub schedule-Keeps : (id : String) (at : e.I) → Keeps e P (schedule id at)
  unfolding schedule
  schedule-Keeps id at = search kept_rules depth 12

  due_account-keeps :
      (id : String) (now : e.I) (t : TrackingState e.F e.I e.J) → P t → P (due_account id now t)
  due_account-keeps id now t h = kept.accounts_changed _ t h

  pub locate_now-Keeps : (id : String) (now : e.I) → Keeps e P (locate_now id now)
  unfolding locate_now
  locate_now-Keeps id now =
      search (kept_rules, Keeps-modify, Keeps-on_state, change_devices-keeps, due_account-keeps)
        depth 16
