-- ===== src/Tracking/Interval/Defs.antt =====
-- The types of crates/icloud-tracking/src/interval.rs, `distance_interval`, and the intervals after
-- errors and for offline devices.
use Prim.Native.String.{◌++◌}
use icloud_location.Prelude.{ℕ, Bool, ◌&&◌, ◌⊎◌, inl, inr, leb, ltb, if◌then◌else◌, String}
use icloud_location.Std.Result.{ok, err, ◌>>◌, reject_if}
use icloud_location.Std.Float.{Float, is_invalid}
use icloud_location.Tracking.Error.{Tracked, invalid_input}

pub data Direction : Type 0 where
  towards away_from stationary in_zone far_away unknown : Direction

-- `direction == Direction::Unknown` and the like.
abbrev pub is_unknown : Direction → Bool
is_unknown unknown = Bool.true
is_unknown _ = Bool.false

abbrev pub is_towards : Direction → Bool
is_towards towards = Bool.true
is_towards _ = Bool.false

abbrev pub is_away_from : Direction → Bool
is_away_from away_from = Bool.true
is_away_from _ = Bool.false

pub data IntervalReason : Type 0 where
  need_information near_after_driving under_two_kilometers under_three_and_half_kilometers
        under_five_kilometers under_eight_kilometers under_twelve_kilometers under_twenty_kilometers
        under_forty_kilometers over_one_hundred_fifty_kilometers calculated_distance :
      IntervalReason

pub record IntervalDecision : Type 0 where
  pub seconds : ℕ
  pub reason : IntervalReason

abbrev decision : ℕ → IntervalReason → Tracked IntervalDecision
decision s r = ok (record { seconds = s; reason = r })

-- The seconds of `Duration::try_from_secs_f64`, with its error as an invalid input.
abbrev calculated : String ⊎ ℕ → Tracked IntervalDecision
calculated (inl e) = err (invalid_input e)
calculated (inr s) = decision s calculated_distance

module _ {F : Type 0} (f : Float F) where
  -- `(distance_km * 0.621_371 * 0.5).round_ties_even() * 60.0`, the driving time in seconds.
  unfoldable pub driving_seconds : F → F
  driving_seconds distance_km =
      let miles = f.mul distance_km (f.decimal 621371 6) in
      f.mul (f.round_ties_even (f.mul miles (f.decimal 5 1))) (f.decimal 60 0)

  -- The ladder of distances, for a valid distance and a known direction.
  unfoldable pub distance_ladder : F → Bool → Tracked IntervalDecision
  distance_ladder d went_beyond_three_km =
      if f.lt d (f.decimal 2 0) && went_beyond_three_km
      then decision 15 near_after_driving
      else if f.lt d (f.decimal 2 0)
      then decision 60 under_two_kilometers
      else if f.lt d (f.decimal 35 1)
      then decision 90 under_three_and_half_kilometers
      else if f.lt d (f.decimal 5 0)
      then decision 120 under_five_kilometers
      else if f.lt d (f.decimal 8 0)
      then decision 180 under_eight_kilometers
      else if f.lt d (f.decimal 12 0)
      then decision 300 under_twelve_kilometers
      else if f.lt d (f.decimal 20 0)
      then decision 600 under_twenty_kilometers
      else if f.lt d (f.decimal 40 0)
      then decision 900 under_forty_kilometers
      else if f.lt (f.decimal 150 0) d
      then decision 3600 over_one_hundred_fifty_kilometers
      else calculated (f.try_from_secs (driving_seconds d))

  unfoldable pub distance_interval : F → Direction → Bool → Tracked IntervalDecision
  unfolding distance_ladder driving_seconds
  distance_interval distance_km direction went_beyond_three_km = do
    reject_if (is_invalid f distance_km)
        (invalid_input ("distance must be finite and non-negative, got " ++ f.display distance_km))
    if is_unknown direction
        then decision 150 need_information
        else distance_ladder distance_km went_beyond_three_km

unfoldable pub retry_interval_seconds : ℕ → ℕ
retry_interval_seconds error_count =
    if leb error_count 1
    then 5
    else if leb error_count 3
    then 15
    else if leb error_count 7
    then 30
    else if leb error_count 11
    then 60
    else if leb error_count 15
    then 300
    else if leb error_count 19
    then 900
    else if leb error_count 23
    then 1800
    else 3600

unfoldable pub offline_interval_seconds : ℕ → ℕ
offline_interval_seconds age =
    if ltb 3600 age then 3600 else if ltb 1800 age then 1800 else if ltb 180 age then 300 else 180
