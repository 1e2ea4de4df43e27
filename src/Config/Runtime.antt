-- ===== src/Config/Runtime.antt =====
-- `runtime_config` of src/main.rs.
use mathlib.Core.List.{foldl}
use icloud_location.Prelude.{ℕ, ◌*◌, Option, none, some, List, [], String, ltb, if◌then◌else◌}
use icloud_location.Prelude.Int.{ℤ}
use icloud_location.Std.Result.{ok, ◌>>=◌}
use icloud_location.Std.Float.{Float}
use icloud_location.Std.TreeMap.{TreeMap, TreeSet, insert, add}
use icloud_location.Tracking.Error.{Tracked}
use icloud_location.Tracking.Zone.Defs
use icloud_location.Tracking.Zone.Defs.{ZoneSet}
use icloud_location.Config.Defs.{AppConfig, AwayTimeZoneConfig}
use icloud_location.Runtime.Defs.{RuntimeConfig}
use icloud_location.Runtime.Accounts.{to_set}

-- `Duration::from_secs`
abbrev pub from_secs : ℕ → ℕ
from_secs n = n * 1000000000

-- The offset of every device of the time zones.
unfoldable pub away_offsets : List AwayTimeZoneConfig → TreeMap ℤ
away_offsets zones =
    foldl
      (λ m (away : AwayTimeZoneConfig).
        foldl (λ m' id. insert id away.offset_hours m') m away.device_ids)
      [] zones

-- The tracked zones with the base zone.
abbrev pub tracked_from : Option String → List String → TreeSet
tracked_from none ids = to_set ids
tracked_from (some id) ids = add id (to_set ids)

module _ {F : Type 0} (f : Float F) where
  -- The configuration of the runtime with these zones.
  unfoldable pub settings : AppConfig F → ZoneSet F → RuntimeConfig F
  unfolding away_offsets
  settings c zones = record {
    tick_interval = from_secs c.tracking.tick_seconds;
    prefetch_window = from_secs c.tracking.prefetch_seconds;
    default_update_interval = from_secs c.tracking.default_interval_seconds;
    location_quality = record {
      gps_accuracy_threshold_meters = c.tracking.gps_accuracy_threshold_meters;
      old_location_threshold_seconds = 120;
      grace_updates = 2;
    };
    zones = zones;
    base_zone_id = c.base_zone_id;
    pass_through = record {
      delay_seconds = c.tracking.pass_through_delay_seconds;
      tracked_from_zones = tracked_from c.base_zone_id c.tracked_from_zones;
      stationary_zone_prefix = "";
    };
    stationary = record {
      enabled = c.tracking.stationary_enabled;
      still_seconds = c.tracking.stationary_still_seconds;
      movement_limit_meters = f.decimal 60 0;
      radius_meters = c.tracking.stationary_radius_meters;
      reuse_cooldown_seconds = 300;
    };
    maximum_update_interval = from_secs c.tracking.maximum_interval_seconds;
    away_time_zone_offsets = away_offsets c.away_time_zones;
    old_location_adjustment_seconds = c.tracking.old_location_adjustment_seconds;
    old_location_maximum_seconds =
        if ltb 0 c.tracking.old_location_maximum_seconds
        then some c.tracking.old_location_maximum_seconds
        else none;
    in_zone_interval = from_secs c.tracking.in_zone_interval_seconds;
    stationary_interval = from_secs c.tracking.stationary_interval_seconds;
    exit_zone_interval = from_secs c.tracking.exit_zone_interval_seconds;
    fixed_interval =
        if ltb 0 c.tracking.fixed_interval_seconds
        then some (from_secs c.tracking.fixed_interval_seconds)
        else none;
    travel_time_factor = c.tracking.travel_time_factor;
  }

  unfoldable pub runtime_config : AppConfig F → Tracked (RuntimeConfig F)
  unfolding settings
  runtime_config c = do zones ← Defs.new f c.zones; ok (settings c zones)
