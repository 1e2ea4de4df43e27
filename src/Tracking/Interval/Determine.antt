-- ===== src/Tracking/Interval/Determine.antt =====
-- `IntervalPolicy::determine` of crates/icloud-tracking/src/interval.rs, layer by layer.
use icloud_location.Prelude.{
  ℕ, ◌*◌, ◌/◌, Bool, not, ◌&&◌, ◌||◌, Option, leb, ltb, ◌==◌, if◌then◌else◌, is_some_and, unwrap_or,
}
use icloud_location.Std.Result.{ok, ◌>>=◌, ◌>>◌, reject_if, or_panic}
use icloud_location.Std.Words.{u64_max, saturating_mul, max_of}
use icloud_location.Std.Float.{Float, is_invalid, is_not_positive}
use icloud_location.Tracking.Error.{Tracked, invalid_input}
use icloud_location.Tracking.Interval.Defs.{
  Direction, is_unknown, is_towards, is_away_from, distance_interval, retry_interval_seconds,
}

pub data TrackingIntervalReason : Type 0 where
  state_change enter_zone exit_zone zone_change external_exit_trigger old_location poor_gps
        low_battery at_home in_zone need_information away_close_to_zone distance waze_travel_time
        stationary_zone fixed maximum :
      TrackingIntervalReason

pub record TrackingIntervalContext (F : Type 0) : Type 0 where
  pub state_changed : Bool
  pub in_zone : Bool
  pub was_in_zone : Bool
  pub in_stationary_zone : Bool
  pub stationary_zone_is_small : Bool
  pub external_exit_trigger_recent : Bool
  pub external_update : Bool
  pub location_old : Bool
  pub gps_poor : Bool
  pub location_good : Bool
  pub offline : Bool
  pub pass_through_timer_active : Bool
  pub battery_percent : Option ℕ
  pub distance_from_zone_km : F
  pub direction : Direction
  pub went_beyond_three_km : Bool
  pub waze_enabled : Bool
  pub waze_travel_seconds : Option ℕ
  pub travel_time_factor : F
  pub in_zone_interval_seconds : ℕ
  pub stationary_interval_seconds : ℕ
  pub exit_zone_interval_seconds : ℕ
  pub old_location_threshold_seconds : ℕ
  pub fixed_interval_seconds : ℕ
  pub maximum_interval_seconds : ℕ
  pub error_count : ℕ

pub record TrackingIntervalDecision : Type 0 where
  pub seconds : ℕ
  pub reason : TrackingIntervalReason

abbrev pub decide : ℕ → TrackingIntervalReason → TrackingIntervalDecision
decide s r = record { seconds = s; reason = r }

-- `context.waze_travel_seconds.unwrap_or_default()`
abbrev pub waze_seconds : {F : Type 0} → TrackingIntervalContext F → ℕ
waze_seconds c = unwrap_or c.waze_travel_seconds 0

-- `(seconds / 5 * 5).max(5)`
unfoldable pub round_to_five : ℕ → ℕ
round_to_five s = max_of (s / 5 * 5) 5

module _ {F : Type 0} where
  -- `if context.external_update && (31..180).contains(&seconds)`
  unfoldable pub adjust_for_external : TrackingIntervalContext F → ℕ → ℕ
  adjust_for_external c s = if c.external_update && (leb 31 s && ltb s 180) then 180 else s

  -- No exception to the fixed and the maximum interval holds.
  abbrev pub is_plain : TrackingIntervalContext F → Bool
  is_plain c = not c.in_zone && c.location_good && not c.offline && not c.pass_through_timer_active

  unfoldable pub limit_interval :
      TrackingIntervalContext F → TrackingIntervalDecision → TrackingIntervalDecision
  limit_interval c d =
      if c.in_stationary_zone
      then decide (if c.stationary_zone_is_small then 300 else c.stationary_interval_seconds)
          stationary_zone
      else if leb 300 c.fixed_interval_seconds && ltb 300 d.seconds && is_plain c
      then decide c.fixed_interval_seconds fixed
      else if ltb c.maximum_interval_seconds d.seconds && is_plain c
      then decide c.maximum_interval_seconds maximum
      else d

module _ {F : Type 0} (f : Float F) where
  unfoldable pub scaled_seconds : ℕ → F → Tracked ℕ
  scaled_seconds seconds factor = or_panic (f.mul_secs seconds factor)

  abbrev pub is_invalid_context : TrackingIntervalContext F → Bool
  is_invalid_context c =
      is_invalid f c.distance_from_zone_km
      || is_not_positive f c.travel_time_factor
      || c.in_zone_interval_seconds == 0
      || c.stationary_interval_seconds == 0
      || c.exit_zone_interval_seconds == 0
      || c.maximum_interval_seconds == 0

  unfoldable pub validate_tracking_context : TrackingIntervalContext F → Tracked (Unit {0})
  validate_tracking_context c =
      reject_if (is_invalid_context c)
        (invalid_input "tracking interval context contains invalid distances or intervals")

  -- The first layer where the zone has changed.
  unfoldable pub state_change_interval : TrackingIntervalContext F → TrackingIntervalDecision
  state_change_interval c =
      if c.in_zone && (c.location_old || c.gps_poor)
      then decide (retry_interval_seconds c.error_count) old_location
      else if c.in_zone && not c.in_stationary_zone
      then decide c.in_zone_interval_seconds enter_zone
      else if is_some_and c.battery_percent (λ b. leb b 5)
          && f.le c.distance_from_zone_km (f.decimal 1 0)
      then decide 15 low_battery
      else if is_some_and c.battery_percent (λ b. leb b 10)
      then decide c.stationary_interval_seconds low_battery
      else if not c.in_zone && c.was_in_zone
      then decide c.exit_zone_interval_seconds exit_zone
      else decide 240 zone_change

  -- The decision of `distance_interval` under the reason `Distance`.
  unfoldable pub by_distance : TrackingIntervalContext F → Tracked TrackingIntervalDecision
  by_distance c = do
    d ← distance_interval f c.distance_from_zone_km c.direction c.went_beyond_three_km
    ok (decide d.seconds distance)

  -- The travel time of Waze, scaled by a factor.
  unfoldable pub by_waze : TrackingIntervalContext F → Tracked TrackingIntervalDecision
  by_waze c = do
    s ← scaled_seconds (waze_seconds c) c.travel_time_factor
    ok (decide s waze_travel_time)

  -- The first layer where the zone has not changed.
  unfoldable pub steady_interval : TrackingIntervalContext F → Tracked TrackingIntervalDecision
  steady_interval c =
      let retry = retry_interval_seconds c.error_count in
      let km = c.distance_from_zone_km in
      if c.external_exit_trigger_recent
      then ok (decide c.exit_zone_interval_seconds external_exit_trigger)
      else if c.gps_poor
      then ok (decide retry poor_gps)
      else if c.location_old
      then ok (decide retry old_location)
      else if is_some_and c.battery_percent (λ b. leb b 10) && f.lt (f.decimal 1 0) km
      then ok (decide c.stationary_interval_seconds low_battery)
      else if f.lt km (f.decimal 5 2) && (c.in_zone || is_towards c.direction)
      then ok (decide c.in_zone_interval_seconds at_home)
      else if c.in_zone && ltb (waze_seconds c) c.in_zone_interval_seconds
      then ok (decide c.in_zone_interval_seconds TrackingIntervalReason.in_zone)
      else if is_unknown c.direction
      then ok (decide 150 need_information)
      else if f.lt km (f.decimal 2 0) && is_away_from c.direction && ltb 0 (waze_seconds c)
      then ok (decide c.old_location_threshold_seconds away_close_to_zone)
      else if f.lt km (f.decimal 35 1)
      then by_distance c
      else if ltb 300 (waze_seconds c)
      then by_waze c
      else by_distance c

  unfoldable pub base_interval : TrackingIntervalContext F → Tracked TrackingIntervalDecision
  base_interval c = if c.state_changed then ok (state_change_interval c) else steady_interval c

  -- Doubled on the way out, held low while the direction is unknown.
  unfoldable pub adjust_for_direction : TrackingIntervalContext F → ℕ → ℕ
  adjust_for_direction c s =
      if is_away_from c.direction
        && f.le (f.decimal 3 0) c.distance_from_zone_km
        && not c.waze_enabled
        && c.fixed_interval_seconds == 0
        && ltb 60 s
      then saturating_mul u64_max s 2
      else if is_unknown c.direction && ltb 180 s
      then 180
      else s

  -- The bound by one and a half times the travel time of Waze.
  unfoldable pub limit_by_waze :
      TrackingIntervalContext F → TrackingIntervalDecision → Tracked TrackingIntervalDecision
  limit_by_waze c d =
      if (is_away_from c.direction || is_towards c.direction) && ltb 0 (waze_seconds c)
      then (do
        upper ← scaled_seconds (waze_seconds c) (f.mul c.travel_time_factor (f.decimal 15 1))
        if ltb upper d.seconds then by_waze c else ok d)
      else ok d

  unfoldable pub determine : TrackingIntervalContext F → Tracked TrackingIntervalDecision
  determine c = do
    validate_tracking_context c
    base ← base_interval c
    let adjusted = adjust_for_external c (adjust_for_direction c base.seconds)
    limited ← limit_by_waze c (limit_interval c (decide adjusted base.reason))
    ok (decide (round_to_five limited.seconds) limited.reason)
