-- ===== src/Runtime/Action.antt =====
-- The methods of `TrackingRuntime`: actions on its state that may fail. What was changed before an
-- error stays changed, so the state comes back beside the error too.
use icloud_location.Prelude.{
  ◌⊎◌, inl, inr, Bool, true, false, Option, none, some, List, [], ◌∷◌, String,
}
use icloud_location.Std.Result.{Result, ok, err, panic}
use icloud_location.Std.TreeMap.{TreeMap, get, insert}
use icloud_location.Core.{TrackingEvent}
use icloud_location.Tracking.Error.{Tracked}
use icloud_location.Tracking.State.Events.{TrackingState, record_event}
use icloud_location.Runtime.Defs.{Env, Runtime, RuntimeError, tracking, event, Device}
use icloud_location.Tracking.State.Defs.{DeviceTrackingState}

abbrev pub as_runtime : {A : Type 0} → Tracked A → Result RuntimeError A
as_runtime (ok a) = ok a
as_runtime (err x) = err (tracking x)
as_runtime panic = panic

-- Where the error of a call is handled.
abbrev pub handled : {E A : Type 0} → Result E A → Result RuntimeError (E ⊎ A)
handled (ok a) = ok (inr a)
handled (err x) = ok (inl x)
handled panic = panic

abbrev as_event_error : {E A : Type 0} → (E → RuntimeError) → E ⊎ A → Result RuntimeError (Unit {0})
as_event_error g (inl x) = err (g x)
as_event_error g (inr a) = ok tt

module _ {F I J : Type 0} where
  -- A change of a device: `devices.get_mut(id)`, and nothing where there is none.
  abbrev pub change_entry :
      String
      → (DeviceTrackingState F I J → DeviceTrackingState F I J)
      → TreeMap (DeviceTrackingState F I J)
      → TreeMap (DeviceTrackingState F I J)
  change_entry id g devices = elim (get id devices) [
    | some d ↦ insert id (g d) devices
    | none ↦ devices
  ]

  abbrev pub change_device :
      String
      → (DeviceTrackingState F I J → DeviceTrackingState F I J)
      → TrackingState F I J
      → TrackingState F I J
  change_device id g t = record t { devices = change_entry id g t.devices }

module _ (e : Env) where
  abbrev pub Action : Type 0 → Type 0
  Action A = Runtime e → Result RuntimeError A × Runtime e

module _ {e : Env} where
  abbrev pub pure : {A : Type 0} → A → Action e A
  pure a s = (ok a, s)

  abbrev pub raise : {A : Type 0} → RuntimeError → Action e A
  raise x s = (err x, s)

  abbrev pub lift : {A : Type 0} → Result RuntimeError A → Action e A
  lift r s = (r, s)

  -- The operator `?` on a result of the tracking crate.
  abbrev pub tracked : {A : Type 0} → Tracked A → Action e A
  tracked r = lift (as_runtime r)

  abbrev pub gets : {A : Type 0} → (Runtime e → A) → Action e A
  gets g s = (ok (g s), s)

  abbrev pub modify : (Runtime e → Runtime e) → Action e (Unit {0})
  modify g s = (ok tt, g s)

  abbrev pub continue :
      {A B : Type 0}
      → Result RuntimeError A
      → (A → Action e B)
      → Runtime e
      → Result RuntimeError B × Runtime e
  continue (ok a) k s = k a s
  continue (err x) k s = (err x, s)
  continue panic k s = (panic, s)

  infixl 5 ◌>>=◌ ◌>>◌
  abbrev pub ◌>>=◌ : {A B : Type 0} → Action e A → (A → Action e B) → Action e B
  ◌>>=◌ m k s = let (r, s') = m s in continue r k s'

  abbrev pub ◌>>◌ : {B : Type 0} → Action e (Unit {0}) → Action e B → Action e B
  m >> k = m >>= λ _. k

  -- `if bad { return Err(x); }`
  abbrev pub raise_if : Bool → RuntimeError → Action e (Unit {0})
  raise_if true x = raise x
  raise_if false x = pure tt

  abbrev pub or_raise : {A : Type 0} → Option A → RuntimeError → Action e A
  or_raise none x = raise x
  or_raise (some a) x = pure a

  -- A call of something outside, whose error is handled.
  abbrev pub call : {E A : Type 0} → (e.W → Result E A × e.W) → Action e (E ⊎ A)
  call g s = let (r, w) = g s.world in (handled r, record s { world = w })

  abbrev pub clock_now : Action e e.I
  clock_now s = let (t, w) = e.now s.world in (ok t, record s { world = w })

  -- A change of the tracking state.
  abbrev pub on_state :
      (TrackingState e.F e.I e.J → TrackingState e.F e.I e.J) → Action e (Unit {0})
  on_state g = modify (λ s. record s { state = g s.state })

  -- The state of a device that is known.
  abbrev pub device : String → Action e (Device e)
  device id s = elim (get id s.state.devices) [ some d ↦ (ok d, s) | none ↦ (panic, s) ]

  abbrev pub on_device : String → (Device e → Device e) → Action e (Unit {0})
  on_device id g = on_state (change_device id g)

  -- `emit_at`
  unfoldable pub emit_at : e.I → TrackingEvent e.I → Action e (Unit {0})
  emit_at occurred_at x = do
    on_state (record_event occurred_at x)
    r ← call (e.emit x)
    lift (as_event_error event r)

  -- `self.store.save(&self.state)?`
  unfoldable pub save_state : Action e (Unit {0})
  save_state s = let (r, w) = e.save s.state s.world in (as_runtime r, record s { world = w })

  -- `persist_at`
  unfoldable pub persist_at : e.I → Action e (Unit {0})
  unfolding save_state
  persist_at at = do on_state (λ t. record t { saved_at = some at }); save_state

  -- `for x in xs { .. }`
  unfoldable pub for_each : {A : Type 0} → List A → (A → Action e (Unit {0})) → Action e (Unit {0})
  for_each [] body = pure tt
  for_each (x ∷ xs) body = do body x; for_each xs body
