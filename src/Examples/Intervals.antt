-- ===== src/Examples/Intervals.antt =====
-- Concrete runs of the interval policy.
use icloud_location.Prelude.{◌≤◌, ◌≡◌, refl, arith, true, false, none, some, ◌%◌}
use icloud_location.Std.Result.{ok}
use icloud_location.Std.Words.{max_of}
use icloud_location.Tracking.Interval.Defs.{
  towards, away_from, distance_interval, distance_ladder, IntervalDecision, retry_interval_seconds,
  under_two_kilometers, under_five_kilometers,
}
use icloud_location.Tracking.Interval.Determine.{
  TrackingIntervalContext, TrackingIntervalDecision, determine, validate_tracking_context,
  base_interval, steady_interval, by_distance, by_waze, scaled_seconds, adjust_for_direction,
  adjust_for_external, limit_interval, limit_by_waze, round_to_five, decide, maximum,
  waze_travel_time,
}
use icloud_location.Tracking.Interval.Limits.{
  determine_multiple, determine_capped, determine_waze_bound, cap,
}
use icloud_location.Tracking.Interval.Total.{determine_total}
use icloud_location.Tracking.Interval.Distance.{distance_interval_total, distance_interval_mono}
use icloud_location.Tracking.Interval.Retry.{retry_interval_mono}
use icloud_location.Examples.Fixed.{Fixed, fixed, fixed_float}
use icloud_location.Examples.FixedLaws.{Fixed-IsFloat}
use icloud_location.Prelude.Int.{pos}

-- Ten kilometers away and leaving.
abbrev leaving : TrackingIntervalContext Fixed
leaving = record {
  state_changed = false;
  in_zone = false;
  was_in_zone = false;
  in_stationary_zone = false;
  stationary_zone_is_small = false;
  external_exit_trigger_recent = false;
  external_update = false;
  location_old = false;
  gps_poor = false;
  location_good = true;
  offline = false;
  pass_through_timer_active = false;
  battery_percent = some 80;
  distance_from_zone_km = fixed (pos 10000000);
  direction = away_from;
  went_beyond_three_km = true;
  waze_enabled = false;
  waze_travel_seconds = none;
  travel_time_factor = fixed (pos 600000);
  in_zone_interval_seconds = 7200;
  stationary_interval_seconds = 1800;
  exit_zone_interval_seconds = 180;
  old_location_threshold_seconds = 120;
  fixed_interval_seconds = 0;
  maximum_interval_seconds = 480;
  error_count = 0;
}

-- Coming home, 200 seconds away.
abbrev returning : TrackingIntervalContext Fixed
returning = record leaving {
  direction = towards;
  waze_enabled = true;
  waze_travel_seconds = some 200;
}

leaving_run : determine fixed_float leaving ≡ ok (decide 480 maximum)
unfolding determine validate_tracking_context base_interval steady_interval by_distance
    distance_interval distance_ladder adjust_for_direction adjust_for_external limit_interval
    limit_by_waze round_to_five
leaving_run = refl

returning_run : determine fixed_float returning ≡ ok (decide 120 waze_travel_time)
unfolding determine validate_tracking_context base_interval steady_interval by_distance
    distance_interval distance_ladder adjust_for_direction adjust_for_external limit_interval
    limit_by_waze by_waze scaled_seconds round_to_five
returning_run = refl

determine_total_example : (d : TrackingIntervalDecision) × (determine fixed_float leaving ≡ ok d)
determine_total_example = determine_total fixed_float Fixed-IsFloat leaving refl refl

determine_multiple_example : (5 ≤ 480) × (480 % 5 ≡ 0)
determine_multiple_example =
    determine_multiple fixed_float leaving {d = decide 480 maximum} leaving_run

determine_capped_example : 480 ≤ max_of (cap fixed_float leaving) 5
determine_capped_example =
    determine_capped fixed_float leaving Fixed-IsFloat {d = decide 480 maximum} refl refl
      leaving_run

determine_waze_bound_example : 120 ≤ max_of 180 5
determine_waze_bound_example =
    determine_waze_bound fixed_float returning Fixed-IsFloat 180 {d = decide 120 waze_travel_time}
      refl (omega arith) refl returning_run

distance_interval_total_example :
    (s : IntervalDecision) × (distance_interval fixed_float (fixed (pos 1500000)) towards false
      ≡ ok s)
    × (15 ≤ s.seconds)
    × (s.seconds ≤ 3600)
distance_interval_total_example =
    distance_interval_total fixed_float Fixed-IsFloat (fixed (pos 1500000)) towards false refl

abbrev near : IntervalDecision
near = record { seconds = 60; reason = under_two_kilometers }

abbrev farther : IntervalDecision
farther = record { seconds = 120; reason = under_five_kilometers }

distance_interval_mono_example : 60 ≤ 120
unfolding distance_interval distance_ladder
distance_interval_mono_example =
    distance_interval_mono fixed_float Fixed-IsFloat (fixed (pos 1500000)) (fixed (pos 4500000))
      towards {a = near} {b = farther} refl refl refl refl

retry_interval_mono_example :
    (retry_interval_seconds 2 ≤ retry_interval_seconds 12)
    × (5 ≤ retry_interval_seconds 2)
    × (retry_interval_seconds 12 ≤ 3600)
retry_interval_mono_example = retry_interval_mono 2 12 (omega arith)
