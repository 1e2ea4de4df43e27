-- ===== src/Tracking/ZoneState/Transitions.antt =====
-- The transitions between zones.
use icloud_location.Prelude.{
  ◌≡◌, ◌⊎◌, inl, inr, Bool-cases, true, false, ◌&&◌, Option, none, some, List, [], ◌∷◌, String,
  str_eq, eq_iff, arith, is_some, is_none, opt_str_eq, if◌then◌else◌,
}
use icloud_location.Std.Result.{ok}
use icloud_location.Std.Chrono.{Chrono}
use icloud_location.Core.{TrackingEvent}
use icloud_location.Tracking.ZoneState.Defs.{
  PassThroughPolicy, ZoneTransitionState, update, commit, should_delay, is_due, is_waiting,
}

-- The zone that a listener knows of after an event.
abbrev pub heard : {I : Type 0} → String → TrackingEvent I → Option String → Option String
heard device (TrackingEvent.zone_entered d zone) known =
    if str_eq d device then some zone else known
heard device (TrackingEvent.zone_exited d zone) known = if str_eq d device then none else known
heard device _ known = known

abbrev pub heard_all :
    {I : Type 0} → String → List (TrackingEvent I) → Option String → Option String
heard_all device [] known = known
heard_all device (e ∷ events) known = heard_all device events (heard device e known)

opt_str_eq_sound : (o : Option String) (z : String) → opt_str_eq o (some z) ≡ true → o ≡ some z
opt_str_eq_sound none z h = cc
opt_str_eq_sound (some y) z h = ground (arith, eq_iff y z)

module _ {I D : Type 0} (c : Chrono I D) where
  -- A listener that knows the zone before an update knows it afterwards, from the events alone.
  pub update_heard :
      (device : String) (selected : Option String) (now : I) (policy : PassThroughPolicy)
      (s : ZoneTransitionState I) {s' : ZoneTransitionState I} {events : List (TrackingEvent I)}
      → update c device selected now policy s ≡ ok (s', events)
      → heard_all device events s.current_zone ≡ s'.current_zone
  unfolding update commit
  update_heard device selected now policy s h = ground (arith, eq_iff device device)

  -- No zone is pending while the device is in one, and the time of entry is known; a zone that was
  -- left has a time of leaving.
  pub record IsSettled (s : ZoneTransitionState I) : Type 0 where
    pub idle : is_some s.current_zone ≡ true → s.pending_zone ≡ none
    pub timed : is_some s.current_zone ≡ true → is_some s.entered_at ≡ true
    pub left : is_some s.last_exited_zone ≡ is_some s.exited_at

  -- An update of a settled state leaves a settled state: no zone is pending while the device is in
  -- one, the time of entry is known then, and a zone that was left has a time of leaving.
  pub update-IsSettled :
      (device : String) (selected : Option String) (now : I) (policy : PassThroughPolicy)
      (s : ZoneTransitionState I) {s' : ZoneTransitionState I} {events : List (TrackingEvent I)}
      → IsSettled s
      → update c device selected now policy s ≡ ok (s', events)
      → IsSettled s'
  unfolding update commit
  update-IsSettled device selected now policy s v h = ground arith

  -- What an update of an unsettled arrival leaves: the device in no zone, the arrival pending, and
  -- no event.
  pub record IsDelayed (zone : String) (now : I) (policy : PassThroughPolicy)
      (s s' : ZoneTransitionState I) (events : List (TrackingEvent I)) : Type 0 where
    pub outside_before : s.current_zone ≡ none
    pub delayed : should_delay policy zone ≡ true
    pub early : is_due c zone now s.pending_zone ≡ false
    pub outside_after : s'.current_zone ≡ none
    pub waiting : is_waiting c zone s'.pending_zone ≡ true
    pub silent : events ≡ []

  abbrev pub MayWait :
      Option String
      → I
      → PassThroughPolicy
      → ZoneTransitionState I
      → ZoneTransitionState I
      → List (TrackingEvent I)
      → Type 0
  MayWait none now policy s s' events = ⊥
  MayWait (some zone) now policy s s' events = IsDelayed zone now policy s s' events

  -- An update takes the device to the selected zone with nothing pending, or, from outside all zones
  -- and only for a zone whose arrival the policy delays and whose time has not come, it lets the
  -- arrival wait.
  pub update_outcome :
      (device : String) (selected : Option String) (now : I) (policy : PassThroughPolicy)
      (s : ZoneTransitionState I) {s' : ZoneTransitionState I} {events : List (TrackingEvent I)}
      → update c device selected now policy s ≡ ok (s', events)
      → ((s'.current_zone ≡ selected) × (s'.pending_zone ≡ none))
        ⊎ MayWait selected now policy s s' events
  unfolding update commit
  update_outcome device none now policy s h = inl (ground arith)
  update_outcome device (some zone) now policy s {s'} h =
      elim (Bool-cases (opt_str_eq s'.current_zone (some zone) && is_none s'.pending_zone)) [
        | inl there ↦ inl (ground (arith, opt_str_eq_sound s'.current_zone zone))
        | inr away ↦ inr (ground (arith, eq_iff zone zone))
      ]
