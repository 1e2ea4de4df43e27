-- ===== src/Tracking/Direction/Defs.antt =====
-- `DirectionHistory` and `determine_direction` of crates/icloud-tracking/src/direction.rs.
use icloud_location.Prelude.{
  Bool, not, ◌&&◌, ◌||◌, Option, none, some, List, [], ◌==◌, if◌then◌else◌, length, take, all, any,
  is_none, is_some_and,
}
use mathlib.Core.List.{reverse}
use icloud_location.Std.Result.{ok, ◌>>◌, reject_if}
use icloud_location.Std.Float.{Float, is_invalid}
use icloud_location.Std.Vec.{push_bounded}
use icloud_location.Tracking.Error.{Tracked, invalid_input}
use icloud_location.Tracking.Interval.Defs.{
  Direction, towards, away_from, in_zone, far_away, unknown, is_towards, is_away_from,
}

pub record DirectionInput (F : Type 0) : Type 0 where
  pub in_zone : Bool
  pub current_distance_km : F
  pub previous_distance_km : Option F
  pub current_travel_time_seconds : Option F
  pub previous_travel_time_seconds : Option F
  pub previous_direction : Direction
  pub went_beyond_three_km : Bool

pub record DirectionDecision : Type 0 where
  pub direction : Direction
  pub away_from_overridden : Bool

pub record DirectionObservation : Type 0 where
  pub direction : Direction
  pub overridden : Bool

pub record DirectionHistory : Type 0 where
  pub observations : List DirectionObservation

-- `DirectionHistory::default()`
abbrev pub empty_history : DirectionHistory
empty_history = record { observations = [] }

abbrev pub observation : DirectionDecision → DirectionObservation
observation d = record { direction = d.direction; overridden = d.away_from_overridden }

-- `DirectionHistory::record`
unfoldable pub record_decision : DirectionHistory → DirectionDecision → DirectionHistory
record_decision h d = record { observations = push_bounded 30 h.observations (observation d) }

-- `supports_close_range_override`, on the newest three observations.
unfoldable pub supports : List DirectionObservation → Bool
supports recent =
    length recent == 3
    && all (λ o. is_towards o.direction) recent
    && any (λ o. not o.overridden) recent

unfoldable pub supports_close_range_override : DirectionHistory → Bool
unfolding supports
supports_close_range_override h = supports (take 3 (reverse h.observations))

module _ {F : Type 0} (f : Float F) where
  -- `value.is_some_and(|v| !v.is_finite() || v < 0.0)`
  abbrev is_invalid_option : Option F → Bool
  is_invalid_option o = is_some_and o (is_invalid f)

  unfoldable pub validate_input : DirectionInput F → Tracked (Unit {0})
  validate_input input =
      reject_if
        (is_invalid f input.current_distance_km
          || is_invalid_option input.previous_distance_km
          || is_invalid_option input.current_travel_time_seconds
          || is_invalid_option input.previous_travel_time_seconds)
        (invalid_input "direction distances and travel times must be finite and non-negative")

  -- `map(..).unwrap_or_default()` and `zip(..).map(..).unwrap_or_default()`
  abbrev distance_delta_meters : F → Option F → F
  distance_delta_meters current none = f.decimal 0 0
  distance_delta_meters current (some previous) = f.mul (f.sub current previous) (f.decimal 1000 0)

  abbrev travel_delta_seconds : Option F → Option F → F
  travel_delta_seconds (some current) (some previous) = f.sub current previous
  travel_delta_seconds none _ = f.decimal 0 0
  travel_delta_seconds (some current) none = f.decimal 0 0

  -- The direction by the two deltas.
  abbrev by_deltas : F → F → Direction → Direction
  by_deltas meters seconds previous =
      if f.le meters (f.neg (f.decimal 1 0)) || f.le seconds (f.neg (f.decimal 1 0))
      then towards
      else if f.le (f.decimal 1 0) meters || f.le (f.decimal 1 0) seconds
      then away_from
      else previous

  unfoldable pub raw_direction : DirectionInput F → Direction
  raw_direction input =
      if input.in_zone
      then in_zone
      else if is_none input.previous_distance_km
      then unknown
      else if f.lt (f.decimal 150 0) input.current_distance_km
      then far_away
      else by_deltas (distance_delta_meters input.current_distance_km input.previous_distance_km)
          (travel_delta_seconds input.current_travel_time_seconds
            input.previous_travel_time_seconds)
          input.previous_direction

  unfoldable pub decide : DirectionInput F → DirectionHistory → DirectionDecision
  unfolding raw_direction
  decide input history =
      let direction = raw_direction input in
      let overridden =
        is_away_from direction
        && input.went_beyond_three_km
        && f.lt input.current_distance_km (f.decimal 2 0)
        && supports_close_range_override history in
      record {
        direction = if overridden then towards else direction;
        away_from_overridden = overridden;
      }

  unfoldable pub determine_direction :
      DirectionInput F → DirectionHistory → Tracked DirectionDecision
  determine_direction input history = do validate_input input; ok (decide input history)
