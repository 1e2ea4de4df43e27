-- ===== src/Examples/Zones.antt =====
-- Concrete runs of zones, directions, zone transitions and stationary zones.
use icloud_location.Prelude.{
  ℕ, ◌≡◌, ◌↔◌, ◌⊎◌, refl, Bool, true, false, none, some, List, [], ◌∷◌, ◌++◌, All,
}
use icloud_location.Prelude.Int.{pos, ◌-ℤ◌}
use icloud_location.Std.Result.{ok}
use icloud_location.Core.{Coordinates, TrackingEvent}
use icloud_location.Core
use icloud_location.Tracking.Interval.Defs.{Direction, towards}
use icloud_location.Tracking.Direction.Defs.{
  DirectionInput, DirectionDecision, DirectionHistory, empty_history, record_decision, observation,
  determine_direction, validate_input, raw_direction, supports_close_range_override, supports,
}
use icloud_location.Tracking.Direction.Defs
use icloud_location.Tracking.Direction.Override.{
  observe_all-HasNoFour, observe_all, observe_direction, HasNoFour,
}
use icloud_location.Tracking.Zone.Defs.{
  Zone, ZoneSet, ZoneSelection, new, select, center, is_blank, allowance_of, active_zones,
}
use icloud_location.Tracking.Zone.Validation.{new_iff, IsUsable, AreDistinct}
use icloud_location.Tracking.Zone.Selection.{select_smallest, IsSelected, AreDistances}
use icloud_location.Tracking.ZoneState.Defs.{
  PassThroughPolicy, ZoneTransitionState, outside, update, commit, enter, leave, change,
}
use icloud_location.Tracking.ZoneState.Transitions.{
  update_heard, update-IsSettled, update_outcome, heard_all, IsSettled, MayWait,
}
use icloud_location.Examples.Fixed.{Fixed, fixed, fixed_float}
use icloud_location.Examples.FixedLaws.{Fixed-IsFloat}
use icloud_location.Examples.Clock.{clock}

abbrev pub origin : Coordinates Fixed
origin = record { latitude = fixed (pos 0); longitude = fixed (pos 0) }

abbrev home : Zone Fixed
home = record {
  id = "home";
  latitude = fixed (pos 0);
  longitude = fixed (pos 0);
  radius_meters = fixed (pos 100000000);
  passive = false;
}

abbrev home_set : ZoneSet Fixed
home_set = record { zones = home ∷ [] }

home-IsUsable : IsUsable fixed_float home
unfolding is_blank center Core.new
home-IsUsable = record { named = refl; centered = (origin, refl); round = refl }

new_iff_example :
    (new fixed_float (home ∷ []) ≡ ok home_set)
    ↔ (All (IsUsable fixed_float) (home ∷ []) × AreDistinct (home ∷ []) × (home ∷ [] ≡ home ∷ []))
new_iff_example = new_iff fixed_float (home ∷ []) home_set

select_smallest_example :
    (s : ZoneSelection Fixed) × (select fixed_float home_set origin (fixed (pos 0)) ≡ ok s)
    × IsSelected fixed_float
        (home ∷ [])
        origin
        (allowance_of fixed_float (fixed (pos 0)))
        s.selected_zone
    × AreDistances fixed_float origin (active_zones (home ∷ [])) s.distances
select_smallest_example =
    select_smallest fixed_float Fixed-IsFloat home_set origin (fixed (pos 0)) (home-IsUsable, tt)
      refl

-- A device that came back from beyond three kilometers and seems to leave again at one.
abbrev wobble : DirectionInput Fixed
wobble = record {
  in_zone = false;
  current_distance_km = fixed (pos 1000000);
  previous_distance_km = some (fixed (pos 900000));
  current_travel_time_seconds = none;
  previous_travel_time_seconds = none;
  previous_direction = towards;
  went_beyond_three_km = true;
}

abbrev seen : Direction → Bool → DirectionDecision
seen d o = record { direction = d; away_from_overridden = o }

abbrev coming : DirectionHistory
coming = record {
  observations =
      observation (seen towards false)
      ∷ observation (seen towards false)
      ∷ observation (seen towards false)
      ∷ [];
}

abbrev overridden : DirectionHistory
overridden = record { observations = coming.observations ++ (observation (seen towards true) ∷ []) }

wobble_run : observe_all fixed_float coming (wobble ∷ []) ≡ ok overridden
unfolding observe_all observe_direction determine_direction validate_input Defs.decide raw_direction
    supports_close_range_override supports record_decision ◌-ℤ◌
wobble_run = refl

observe_all-HasNoFour_example : HasNoFour overridden.observations
observe_all-HasNoFour_example =
    observe_all-HasNoFour fixed_float (wobble ∷ []) coming {h' = overridden} (tt, (tt, (tt, tt)))
      wobble_run

abbrev pass_through : PassThroughPolicy
pass_through = record {
  delay_seconds = 60;
  tracked_from_zones = [];
  stationary_zone_prefix = "stationary_";
}

abbrev in_home : ZoneTransitionState ℕ
in_home = record outside { current_zone = some "home"; entered_at = some 50 }

abbrev in_work : ZoneTransitionState ℕ
in_work = record {
  current_zone = some "work";
  entered_at = some 100;
  last_exited_zone = some "home";
  exited_at = some 100;
  pending_zone = none;
}

abbrev move : List (TrackingEvent ℕ)
move = TrackingEvent.zone_exited "phone" "home" ∷ TrackingEvent.zone_entered "phone" "work" ∷ []

move_run : update clock "phone" (some "work") 100 pass_through in_home ≡ ok (in_work, move)
unfolding update change commit enter leave
move_run = refl

update_heard_example : heard_all "phone" move (some "home") ≡ some "work"
update_heard_example =
    update_heard clock "phone" (some "work") 100 pass_through in_home {s' = in_work} {events = move}
      move_run

in_home-IsSettled : IsSettled clock in_home
in_home-IsSettled = record { idle = λ _. refl; timed = λ _. refl; left = refl }

update-IsSettled_example : IsSettled clock in_work
update-IsSettled_example =
    update-IsSettled clock "phone" (some "work") 100 pass_through in_home {s' = in_work}
      {events = move} in_home-IsSettled move_run

update_outcome_example :
    ((in_work.current_zone ≡ some "work") × (in_work.pending_zone ≡ none))
    ⊎ MayWait clock (some "work") 100 pass_through in_home in_work move
update_outcome_example =
    update_outcome clock "phone" (some "work") 100 pass_through in_home {s' = in_work}
      {events = move} move_run
