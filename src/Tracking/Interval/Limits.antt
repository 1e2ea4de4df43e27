-- ===== src/Tracking/Interval/Limits.antt =====
-- The bounds of `IntervalPolicy::determine`.
use icloud_location.Prelude.{◌||◌}
use icloud_location.Prelude.{
  ℕ, ◌%◌, ◌≤◌, ◌<◌, ◌≡◌, true, false, some, inl, inr, arith, leb, if◌then◌else◌, Option-cases,
}
use icloud_location.Std.Result.{ok, >>=-eq-ok}
use icloud_location.Std.Words.{max_of}
use icloud_location.Std.Float.{Float, IsFloat, is_not_positive}
use icloud_location.Std.FloatLaws.{positive_bounds}
use icloud_location.Tracking.Interval.Defs.{is_towards, is_away_from}
use icloud_location.Tracking.Interval.Determine.{
  TrackingIntervalContext, TrackingIntervalDecision, decide, waze_seconds, is_plain, determine,
  base_interval, adjust_for_direction, adjust_for_external, limit_interval, limit_by_waze, by_waze,
  scaled_seconds, round_to_five, validate_tracking_context, stationary_zone,
}

round_to_five_bounds : (s : ℕ) → (5 ≤ round_to_five s) × (round_to_five s % 5 ≡ 0)
unfolding round_to_five
round_to_five_bounds s = ground arith

round_to_five-le : (s m : ℕ) → s ≤ m → round_to_five s ≤ max_of m 5
unfolding round_to_five
round_to_five-le s m h = ground arith

module _ {F : Type 0} (f : Float F) (c : TrackingIntervalContext F) where
  -- The layers of a successful run: the decision of the first layer, and what the last leaves.
  pub determine_layers :
      {d : TrackingIntervalDecision}
      → determine f c ≡ ok d
      → (base limited : TrackingIntervalDecision) × (validate_tracking_context f c ≡ ok tt)
        × (base_interval f c ≡ ok base)
        × (limit_by_waze f c (
              limit_interval c (
                decide (adjust_for_external c (adjust_for_direction f c base.seconds)) base.reason))
            ≡ ok limited)
        × (d ≡ decide (round_to_five limited.seconds) limited.reason)
  unfolding determine
  determine_layers h =
      let (u, valid, rest) = >>=-eq-ok _ _ h in
      let (base, e, rest') = >>=-eq-ok _ _ rest in
      let (limited, l, last) = >>=-eq-ok _ _ rest' in (base, limited, valid, e, l, ground arith)

  -- Every interval is a positive multiple of five seconds.
  pub determine_multiple :
      {d : TrackingIntervalDecision} → determine f c ≡ ok d → (5 ≤ d.seconds) × (d.seconds % 5 ≡ 0)
  determine_multiple h =
      let (base, limited, v, e, l, last) = determine_layers h in
      ground (arith, round_to_five_bounds limited.seconds)

  -- The cap on an interval to which no exception applies.
  abbrev pub cap : ℕ
  cap =
      if leb 300 c.fixed_interval_seconds
      then c.fixed_interval_seconds
      else c.maximum_interval_seconds

  limit_interval-le-cap :
      (d : TrackingIntervalDecision)
      → c.in_stationary_zone ≡ false
      → is_plain c ≡ true
      → (limit_interval c d).seconds ≤ cap
  unfolding limit_interval
  limit_interval-le-cap d moving plain = ground arith

  module _ (laws : IsFloat f) where
    open laws use {mul_secs_mono, le-mul_of_one_le}

    factor_grows :
        is_not_positive f c.travel_time_factor ≡ false
        → f.le c.travel_time_factor (f.mul c.travel_time_factor (f.decimal 15 1)) ≡ true
    factor_grows p =
        let (finite, nonneg) = positive_bounds f laws c.travel_time_factor p in
        le-mul_of_one_le c.travel_time_factor 15 1 (omega arith) (omega arith) finite nonneg

    -- The bound by Waze never raises an interval.
    limit_by_waze-le :
        (d : TrackingIntervalDecision) {e : TrackingIntervalDecision}
        → is_not_positive f c.travel_time_factor ≡ false
        → limit_by_waze f c d ≡ ok e
        → e.seconds ≤ d.seconds
    unfolding limit_by_waze by_waze scaled_seconds
    limit_by_waze-le d p h =
        let x = c.travel_time_factor in
        let y = f.mul x (f.decimal 15 1) in
        let n = waze_seconds c in
        elim (Option-cases (f.mul_secs n x)) [
          | inl e ↦ ground (arith, e)
          | inr (a, e) ↦ elim (Option-cases (f.mul_secs n y)) [
            | inl e' ↦ ground (arith, e, e')
            | inr (b, e') ↦ ground (arith, e, e', mul_secs_mono n x y a b (factor_grows p) e e')
          ]
        ]

  validate_positive :
      validate_tracking_context f c ≡ ok tt → is_not_positive f c.travel_time_factor ≡ false
  unfolding validate_tracking_context
  validate_positive h = ground arith

  -- Where the device is in no zone and no stationary zone, its location is good, it is online and
  -- no pass-through timer runs, a decided interval is at most the fixed interval, if one of 300
  -- seconds or more is set, and else at most the maximum interval; five seconds are allowed always.
  pub determine_capped :
      (laws : IsFloat f)
      → {d : TrackingIntervalDecision} → c.in_stationary_zone ≡ false
      → is_plain c ≡ true
      → determine f c ≡ ok d
      → d.seconds ≤ max_of cap 5
  determine_capped laws moving plain h =
      let (base, limited, v, e, l, last) = determine_layers h in
      let adjusted =
        decide (adjust_for_external c (adjust_for_direction f c base.seconds)) base.reason in
      let low = limit_by_waze-le laws (limit_interval c adjusted) (validate_positive v) l in
      let high = limit_interval-le-cap adjusted moving plain in
      rw last (round_to_five-le limited.seconds cap (omega arith))

  module _ (laws : IsFloat f) where
    open laws use {mul_secs_mono}

    limit_by_waze-le-upper :
        (d : TrackingIntervalDecision) (upper : ℕ) {e : TrackingIntervalDecision}
        → is_not_positive f c.travel_time_factor ≡ false
        → is_away_from c.direction || is_towards c.direction ≡ true
        → 0 < waze_seconds c
        → f.mul_secs (waze_seconds c) (f.mul c.travel_time_factor (f.decimal 15 1)) ≡ some upper
        → limit_by_waze f c d ≡ ok e
        → e.seconds ≤ upper
    unfolding limit_by_waze by_waze scaled_seconds
    limit_by_waze-le-upper d upper p moving waze q h =
        let x = c.travel_time_factor in
        let y = f.mul x (f.decimal 15 1) in
        let n = waze_seconds c in
        elim (Option-cases (f.mul_secs n x)) [
          | inl e ↦ ground (arith, e)
          | inr (a, e) ↦ ground (arith, e, mul_secs_mono n x y a upper (factor_grows laws p) e q)
        ]

    -- While the device moves towards or away from a zone and Waze knows the travel time, a decided
    -- interval is at most one and a half times the scaled travel time, or five seconds.
    pub determine_waze_bound :
        (upper : ℕ) {d : TrackingIntervalDecision}
        → is_away_from c.direction || is_towards c.direction ≡ true
        → 0 < waze_seconds c
        → f.mul_secs (waze_seconds c) (f.mul c.travel_time_factor (f.decimal 15 1)) ≡ some upper
        → determine f c ≡ ok d
        → d.seconds ≤ max_of upper 5
    determine_waze_bound upper moving waze q h =
        let (base, limited, v, e, l, last) = determine_layers h in
        rw last (
          round_to_five-le limited.seconds upper
            (limit_by_waze-le-upper _ upper (validate_positive v) moving waze q l))

  -- In a stationary zone and without Waze the interval is that of the stationary zone.
  pub determine_stationary :
      {d : TrackingIntervalDecision}
      → c.in_stationary_zone ≡ true
      → waze_seconds c ≡ 0
      → determine f c ≡ ok d
      → d
        ≡ decide
            (round_to_five
              (if c.stationary_zone_is_small then 300 else c.stationary_interval_seconds))
            stationary_zone
  unfolding limit_interval limit_by_waze
  determine_stationary inside no_waze h =
      let (base, limited, v, e, l, last) = determine_layers h in ground arith
