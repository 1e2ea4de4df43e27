-- ===== src/Tracking/State/Events.antt =====
-- `TrackingState` of crates/icloud-tracking/src/state.rs: the event history and the snapshot.
use mathlib.Core.List.{foldl}
use icloud_location.Prelude.{ℕ, ◌≤◌, ◌≡◌, refl, ◌∙◌, Option, none, List, [], ◌∷◌, ◌++◌, length}
use icloud_location.Std.Vec.{push_bounded, newest, foldl-push_bounded, length-newest}
use icloud_location.Std.TreeMap.{TreeMap}
use icloud_location.Core.{TrackingEvent, TimestampedTrackingEvent}
use icloud_location.Tracking.External.Defs.{ExternalSourceHealth}
use icloud_location.Tracking.Stationary.Defs.{StationaryZoneManager, empty_manager}
use icloud_location.Tracking.ZoneState.Defs.{ZoneOccupancy}
use icloud_location.Tracking.State.Defs.{AccountTrackingState, DeviceTrackingState}

pub record TrackingState (F I J : Type 0) : Type 0 where
  pub version : ℕ
  pub saved_at : Option I
  pub accounts : TreeMap (AccountTrackingState I)
  pub devices : TreeMap (DeviceTrackingState F I J)
  pub stationary_zones : StationaryZoneManager F I
  pub zone_occupancy : ZoneOccupancy
  pub event_history : List (TimestampedTrackingEvent I)
  pub external_source_health : TreeMap (ExternalSourceHealth I)

abbrev pub current_state_version : ℕ
current_state_version = 4

module _ {F I J : Type 0} where
  -- `TrackingState::default()`
  abbrev pub empty_state : TrackingState F I J
  empty_state = record {
    version = current_state_version;
    saved_at = none;
    accounts = [];
    devices = [];
    stationary_zones = empty_manager;
    zone_occupancy = [];
    event_history = [];
    external_source_health = [];
  }

  unfoldable pub record_event : I → TrackingEvent I → TrackingState F I J → TrackingState F I J
  record_event occurred_at event s =
      let entry : TimestampedTrackingEvent I = record {
        occurred_at = occurred_at;
        event = event;
      } in
      record s { event_history = push_bounded 1000 s.event_history entry }

  -- A run of calls of `record_event`.
  unfoldable pub record_events :
      List (TimestampedTrackingEvent I) → TrackingState F I J → TrackingState F I J
  record_events [] s = s
  record_events (e ∷ es) s = record_events es (record_event e.occurred_at e.event s)

  record_events-eq-foldl :
      (es : List (TimestampedTrackingEvent I)) (s : TrackingState F I J)
      → (record_events es s).event_history ≡ foldl (push_bounded 1000) s.event_history es
  unfolding record_events record_event
  record_events-eq-foldl [] s = refl
  record_events-eq-foldl (e ∷ es) s =
      record_events-eq-foldl es (record_event e.occurred_at e.event s)

  -- The history is the newest thousand of all events that were recorded, in their order, and is
  -- never longer.
  pub record_events_keep_newest :
      (es : List (TimestampedTrackingEvent I)) (s : TrackingState F I J)
      → length s.event_history ≤ 1000
      → ((record_events es s).event_history ≡ newest 1000 (s.event_history ++ es))
        × (length (record_events es s).event_history ≤ 1000)
  record_events_keep_newest es s short =
      let history : (record_events es s).event_history ≡ newest 1000 (s.event_history ++ es) =
        record_events-eq-foldl es s ∙ foldl-push_bounded 1000 es s.event_history short in
      (history, rw history (length-newest 1000 (s.event_history ++ es)))
