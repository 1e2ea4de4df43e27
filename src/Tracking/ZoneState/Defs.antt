-- ===== src/Tracking/ZoneState/Defs.antt =====
-- `ZoneTransitionState` and `ZoneOccupancy` of crates/icloud-tracking/src/zone_state.rs.
use icloud_location.Prelude.{
  ℕ, ◌+◌, Bool, false, not, ◌&&◌, ◌||◌, Option, none, some, List, [], ◌∷◌, ◌++◌, String, str_eq,
  starts_with, ltb, if◌then◌else◌, opt_str_eq, unwrap_or,
}
use icloud_location.Prelude.Int.{pos}
use icloud_location.Std.Result.{ok, ◌>>=◌, or_panic}
use icloud_location.Std.Words.{i64_or_max}
use icloud_location.Std.Chrono.{Chrono}
use icloud_location.Std.TreeMap.{TreeMap, TreeSet, contains, get, insert, remove}
use icloud_location.Core.{TrackingEvent}
use icloud_location.Tracking.Error.{Tracked}

pub record PassThroughPolicy : Type 0 where
  pub delay_seconds : ℕ
  pub tracked_from_zones : TreeSet
  pub stationary_zone_prefix : String

-- `PassThroughPolicy::should_delay`
unfoldable pub should_delay : PassThroughPolicy → String → Bool
should_delay p zone_id =
    ltb 0 p.delay_seconds
    && not (contains zone_id p.tracked_from_zones)
    && (str_eq p.stationary_zone_prefix "" || not (starts_with zone_id p.stationary_zone_prefix))

pub record PendingZone (I : Type 0) : Type 0 where
  pub zone_id : String
  pub confirm_at : I

pub record ZoneTransitionState (I : Type 0) : Type 0 where
  pub current_zone : Option String
  pub entered_at : Option I
  pub last_exited_zone : Option String
  pub exited_at : Option I
  pub pending_zone : Option (PendingZone I)

-- `ZoneTransitionState::default()`
abbrev pub outside : {I : Type 0} → ZoneTransitionState I
outside = record {
  current_zone = none;
  entered_at = none;
  last_exited_zone = none;
  exited_at = none;
  pending_zone = none;
}

abbrev Step : Type 0 → Type 0
Step I = ZoneTransitionState I × List (TrackingEvent I)

module _ {I : Type 0} where
  -- `if let Some(previous) = self.current_zone.take()`
  unfoldable pub leave : String → Option String → I → ZoneTransitionState I → Step I
  leave device none now s = (s, [])
  leave device (some previous) now s = (
    record s { current_zone = none; last_exited_zone = some previous; exited_at = some now },
    TrackingEvent.zone_exited device previous ∷ [],
  )

  -- `if let Some(zone_id) = selected_zone`
  unfoldable pub enter : String → Option String → I → Step I → Step I
  enter device none now (s, events) = (s, events)
  enter device (some zone) now (s, events) = (
    record s { current_zone = some zone; entered_at = some now },
    events ++ (TrackingEvent.zone_entered device zone ∷ []),
  )

  -- What follows the checks of `update`.
  unfoldable pub commit : String → Option String → I → ZoneTransitionState I → Step I
  unfolding leave enter
  commit device selected now s =
      enter device selected now (leave device s.current_zone now (record s { pending_zone = none }))

module _ {I D : Type 0} (c : Chrono I D) where
  -- A pending zone that is the selected one and whose time has come, or not.
  abbrev pub is_due : String → I → Option (PendingZone I) → Bool
  is_due zone now none = false
  is_due zone now (some p) = str_eq p.zone_id zone && not (c.before now p.confirm_at)

  abbrev pub is_waiting : String → Option (PendingZone I) → Bool
  is_waiting zone none = false
  is_waiting zone (some p) = str_eq p.zone_id zone

  -- `now + Duration::seconds(delay)`
  unfoldable pub confirm_time : ℕ → I → Tracked I
  confirm_time delay now = do
    d ← or_panic (c.seconds (pos (i64_or_max delay)))
    or_panic (c.plus now d)

  -- The part of `update` where the device is in no zone and a zone is selected.
  unfoldable pub arrive :
      String → String → I → PassThroughPolicy → ZoneTransitionState I → Tracked (Step I)
  arrive device zone now policy s =
      if not (should_delay policy zone)
      then ok (commit device (some zone) now s)
      else if is_due zone now s.pending_zone
      then ok (commit device (some zone) now s)
      else if is_waiting zone s.pending_zone
      then ok (s, [])
      else (do
        at ← confirm_time policy.delay_seconds now
        ok (record s { pending_zone = some (record { zone_id = zone; confirm_at = at }) }, []))

  -- The part of `update` after the test for an unchanged zone.
  unfoldable pub change :
      String
      → Option String
      → Option String
      → I
      → PassThroughPolicy
      → ZoneTransitionState I
      → Tracked (Step I)
  unfolding arrive
  change device none none now policy s = ok (record s { pending_zone = none }, [])
  change device none (some zone) now policy s = arrive device zone now policy s
  change device (some previous) selected now policy s = ok (commit device selected now s)

  -- `ZoneTransitionState::update`
  unfoldable pub update :
      String → Option String → I → PassThroughPolicy → ZoneTransitionState I → Tracked (Step I)
  unfolding change
  update device selected now policy s =
      if opt_str_eq s.current_zone selected
      then ok (record s { pending_zone = none }, [])
      else change device s.current_zone selected now policy s

-- `ZoneOccupancy`: the zone of each device.
abbrev pub ZoneOccupancy : Type 0
ZoneOccupancy = TreeMap String

-- `ZoneOccupancy::update`
unfoldable pub update_occupancy : String → Option String → ZoneOccupancy → ZoneOccupancy
update_occupancy device (some zone) m = insert device zone m
update_occupancy device none m = remove device m

-- `ZoneOccupancy::counts`, the loop over the values.
unfoldable pub count_zones : ZoneOccupancy → TreeMap ℕ → TreeMap ℕ
count_zones [] counts = counts
count_zones ((device, zone) ∷ m) counts =
    count_zones m (insert zone (unwrap_or (get zone counts) 0 + 1) counts)

unfoldable pub counts : ZoneOccupancy → TreeMap ℕ
unfolding count_zones
counts m = count_zones m []

-- `ZoneOccupancy::devices_in`
unfoldable pub devices_in : String → ZoneOccupancy → List String
devices_in zone [] = []
devices_in zone ((device, current) ∷ m) =
    let rest = devices_in zone m in if str_eq current zone then device ∷ rest else rest
