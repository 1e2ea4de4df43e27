-- ===== src/Runtime/Keeps/Rules.antt =====
-- One rule for each way to build an action of src/runtime.rs.
use icloud_location.Prelude.{
  ◌≡◌, refl, Bool, true, false, Option, none, some, List, [], ◌∷◌, String, if◌then◌else◌,
}
use icloud_location.Std.Result.{Result, ok, err, panic}
use icloud_location.Std.TreeMap.{TreeMap, get}
use icloud_location.Core.{TrackingEvent}
use icloud_location.Tracking.Error.{Tracked}
use icloud_location.Tracking.State.Defs.{AccountTrackingState}
use icloud_location.Tracking.State.Events.{TrackingState, record_event}
use icloud_location.Tracking.ZoneState.Defs.{ZoneOccupancy}
use icloud_location.Tracking.External.Defs.{ExternalSourceHealth}
use icloud_location.Tracking.Zone.Defs.{ZoneSet}
use icloud_location.Tracking.Stationary.Defs.{
  StationaryPolicy, StationaryObservation, StationaryZoneManager,
}
use icloud_location.Tracking.Stationary.Observe.{observe}
use icloud_location.Runtime.Defs.{Env, Runtime, RuntimeError, Device}
use icloud_location.Runtime.Accounts.{ensure_device}
use icloud_location.Runtime.Commands.{change_selected}
use icloud_location.Runtime.Nearby.{forget_all_nearby}
use icloud_location.Runtime.Action.{
  Action, pure, raise, lift, tracked, gets, modify, continue, raise_if, or_raise, call, clock_now,
  on_state, device, on_device, change_device, emit_at, save_state, persist_at, for_each, ◌>>=◌,
  ◌>>◌,
}

module _ (e : Env) where
  -- The action keeps `P`, whether it succeeds or fails.
  pub record Keeps {A : Type 0} (P : TrackingState e.F e.I e.J → Type 0) (m : Action e A)
      : Type 0 where
    pub at : (s : Runtime e) → P s.state → P (m s).1.state

  -- The basic changes of the tracking state keep `P`.
  pub record IsKept (P : TrackingState e.F e.I e.J → Type 0) : Type 0 where
    pub recorded :
        (at : e.I) (x : TrackingEvent e.I) (t : TrackingState e.F e.I e.J)
        → P t
        → P (record_event at x t)
    pub saved :
        (at : Option e.I) (t : TrackingState e.F e.I e.J) → P t → P (record t { saved_at = at })
    pub accounts_changed :
        (m : TreeMap (AccountTrackingState e.I)) (t : TrackingState e.F e.I e.J)
        → P t
        → P (record t { accounts = m })
    pub occupancy_changed :
        (m : ZoneOccupancy) (t : TrackingState e.F e.I e.J)
        → P t
        → P (record t { zone_occupancy = m })
    pub health_changed :
        (m : TreeMap (ExternalSourceHealth e.I)) (t : TrackingState e.F e.I e.J)
        → P t
        → P (record t { external_source_health = m })
    pub observed :
        (policy : StationaryPolicy e.F) (zones : ZoneSet e.F) (o : StationaryObservation e.F e.I)
        (t : TrackingState e.F e.I e.J) (m : StationaryZoneManager e.F e.I)
        (xs : List (TrackingEvent e.I))
        → observe e.float e.chrono policy zones o t.stationary_zones ≡ ok (m, xs)
        → P t
        → P (record t { stationary_zones = m })
    -- A change of a device keeps its identifier.
    pub device_changed :
        (id : String) (g : Device e → Device e) (t : TrackingState e.F e.I e.J)
        → ((d : Device e) → (g d).device_id ≡ d.device_id)
        → P t
        → P (change_device id g t)
    pub selected_changed :
        (selected : Option String) (g : Device e → Device e) (t : TrackingState e.F e.I e.J)
        → ((d : Device e) → (g d).device_id ≡ d.device_id)
        → P t
        → P (record t { devices = change_selected selected g t.devices })
    pub device_entered :
        (id : String) (t : TrackingState e.F e.I e.J)
        → P t
        → P (record t { devices = ensure_device e.null id t.devices })
    pub nearby_forgotten : (t : TrackingState e.F e.I e.J) → P t → P (forget_all_nearby t)

module _ {e : Env} {A : Type 0} {P : TrackingState e.F e.I e.J → Type 0} where
  pub Keeps-pure : (a : A) → Keeps e P (pure a)
  Keeps-pure a = record { at = λ s h. h }

  pub Keeps-raise : (x : RuntimeError) → Keeps e P (raise {A = A} x)
  Keeps-raise x = record { at = λ s h. h }

  pub Keeps-lift : (r : Result RuntimeError A) → Keeps e P (lift r)
  Keeps-lift r = record { at = λ s h. h }

  pub Keeps-tracked : (r : Tracked A) → Keeps e P (tracked r)
  Keeps-tracked r = record { at = λ s h. h }

  pub Keeps-gets : (g : Runtime e → A) → Keeps e P (gets g)
  Keeps-gets g = record { at = λ s h. h }

  pub Keeps-or_raise : (o : Option A) (x : RuntimeError) → Keeps e P (or_raise o x)
  Keeps-or_raise none x = record { at = λ s h. h }
  Keeps-or_raise (some a) x = record { at = λ s h. h }

  pub Keeps-if :
      (b : Bool) (m n : Action e A) → Keeps e P m → Keeps e P n → Keeps e P (if b then m else n)
  Keeps-if true m n km kn = km
  Keeps-if false m n km kn = kn

module _ {e : Env} {A B : Type 0} {P : TrackingState e.F e.I e.J → Type 0} where
  continue-keeps :
      (r : Result RuntimeError A) (k : A → Action e B)
      → ((a : A) → Keeps e P (k a))
      → (s : Runtime e) → P s.state
      → P (continue r k s).1.state
  continue-keeps (ok a) k h s p = (h a).at s p
  continue-keeps (err x) k h s p = p
  continue-keeps panic k h s p = p

  pub Keeps-bind :
      (m : Action e A) (k : A → Action e B)
      → Keeps e P m
      → ((a : A) → Keeps e P (k a))
      → Keeps e P (m >>= k)
  Keeps-bind m k h j = record {
    at = λ s p. let (r, s') = m s in continue-keeps r k j s' (h.at s p);
  }

  pub Keeps-call : (g : e.W → Result A B × e.W) → Keeps e P (call g)
  Keeps-call g = record { at = λ s h. h }

module _ {e : Env} {B : Type 0} {P : TrackingState e.F e.I e.J → Type 0} where
  pub Keeps-then :
      (m : Action e (Unit {0})) (k : Action e B) → Keeps e P m → Keeps e P k → Keeps e P (m >> k)
  Keeps-then m k h j = Keeps-bind m (λ _. k) h (λ _. j)

module _ {e : Env} {A : Type 0} {P : TrackingState e.F e.I e.J → Type 0} where
  pub Keeps-for_each :
      (xs : List A) (body : A → Action e (Unit {0}))
      → ((a : A) → Keeps e P (body a))
      → Keeps e P (for_each xs body)
  unfolding for_each
  Keeps-for_each [] body k = record { at = λ s h. h }
  Keeps-for_each (x ∷ xs) body k =
      Keeps-then (body x) (for_each xs body) (k x) (Keeps-for_each xs body k)

module _ {e : Env} (P : TrackingState e.F e.I e.J → Type 0) where
  device-keeps :
      (id : String) (found : Option (Device e)) (s : Runtime e)
      → get id s.state.devices ≡ found
      → P s.state
      → P (device id s).1.state
  device-keeps id none s found h = rw (found, device) h
  device-keeps id (some d) s found h = rw (found, device) h

module _ {e : Env} {P : TrackingState e.F e.I e.J → Type 0} where
  pub Keeps-raise_if : (b : Bool) (x : RuntimeError) → Keeps e P (raise_if b x)
  Keeps-raise_if true x = record { at = λ s h. h }
  Keeps-raise_if false x = record { at = λ s h. h }

  pub Keeps-clock_now : Keeps e P clock_now
  Keeps-clock_now = record { at = λ s h. h }

  pub Keeps-modify :
      (g : Runtime e → Runtime e)
      → ((s : Runtime e) → P s.state → P (g s).state)
      → Keeps e P (modify g)
  Keeps-modify g k = record { at = k }

  pub Keeps-on_state :
      (g : TrackingState e.F e.I e.J → TrackingState e.F e.I e.J)
      → ((t : TrackingState e.F e.I e.J) → P t → P (g t))
      → Keeps e P (on_state g)
  Keeps-on_state g k = record { at = λ s h. k s.state h }

  pub Keeps-device : (id : String) → Keeps e P (device id)
  Keeps-device id = record { at = λ s h. device-keeps P id (get id s.state.devices) s refl h }

pub ruleset keeps_rules = (
  Keeps-pure, Keeps-raise, Keeps-lift, Keeps-tracked, Keeps-gets, Keeps-or_raise, Keeps-if,
  Keeps-for_each, Keeps-bind, Keeps-call, Keeps-then, Keeps-raise_if, Keeps-clock_now, Keeps-device,
)

module _ {e : Env} {P : TrackingState e.F e.I e.J → Type 0} (kept : IsKept e P) where
  pub Keeps-on_device :
      (id : String) (g : Device e → Device e)
      → ((d : Device e) → (g d).device_id ≡ d.device_id)
      → Keeps e P (on_device id g)
  Keeps-on_device id g same = Keeps-on_state _ λ t. kept.device_changed id g t same

  pub Keeps-emit_at : (at : e.I) (x : TrackingEvent e.I) → Keeps e P (emit_at at x)
  unfolding emit_at
  Keeps-emit_at at x = search (keeps_rules, Keeps-on_state (record_event at x) (kept.recorded at x))

  pub Keeps-persist_at : (at : e.I) → Keeps e P (persist_at at)
  unfolding persist_at
  Keeps-persist_at at =
      Keeps-then (on_state (λ t. record t { saved_at = some at })) save_state
        (Keeps-on_state _ (kept.saved (some at))) (record { at = λ s h. h })

-- The rules, with those for the changes that keep `P`.
pub ruleset kept_rules = (keeps_rules, Keeps-on_device, Keeps-emit_at, Keeps-persist_at)
