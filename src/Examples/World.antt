-- ===== src/Examples/World.antt =====
-- A concrete world of the runtime, which is a clock: its provider always wants another sign-in, and
-- events and saves succeed.
use icloud_location.Prelude.{ℕ, ◌≡◌, ◌+◌, refl, true, none, [], ◌∷◌, arith}
use icloud_location.Prelude.Int.{ℤ, pos}
use icloud_location.Std.Result.{ok, err}
use icloud_location.Core.{ProviderError, authentication}
use icloud_location.Routing.{RouteEstimate, straight_line}
use icloud_location.Tracking.Zone.Defs.{no_zones}
use icloud_location.Tracking.State.Defs.{DeviceTrackingState, new_device}
use icloud_location.Tracking.State.Events.{TrackingState, empty_state}
use icloud_location.Runtime.Defs.{Env, Runtime, RuntimeConfig, AccountRuntime}
use icloud_location.Runtime.Config.{validate_config}
use icloud_location.Runtime.Accounts.{with_clock}
use icloud_location.Runtime.Sound.{IsSound}
use icloud_location.Examples.Fixed.{Fixed, fixed, fixed_float}
use icloud_location.Examples.Clock.{clock}

abbrev pub refusal : ProviderError
refusal = record { kind = authentication; message = "sign in again" }

abbrev pub route : RouteEstimate Fixed
route = record {
  status = straight_line;
  distance_km = fixed (pos 1000000);
  duration_seconds = none;
  provider = "straight_line";
}

abbrev pub env : Env
env = record {
  F = Fixed;
  I = ℕ;
  D = ℤ;
  J = ℕ;
  W = ℕ;
  P = Unit {0};
  R = Unit {0};
  H = Unit {0};
  float = fixed_float;
  chrono = clock;
  null = 0;
  now = λ w. (w, w + 1);
  save = λ t w. (ok tt, w);
  emit = λ x w. (ok tt, w);
  locate = λ p r w. (err refusal, w + 1);
  route = λ r q w. (ok route, w);
  lookup = λ h q w. (ok none, w);
  store = λ h entry w. (ok entry, w);
}

abbrev pub config : RuntimeConfig Fixed
config = record {
  tick_interval = 5000000000;
  prefetch_window = 15000000000;
  default_update_interval = 60000000000;
  location_quality = record {
    gps_accuracy_threshold_meters = fixed (pos 100000000);
    old_location_threshold_seconds = 120;
    grace_updates = 1;
  };
  zones = no_zones;
  base_zone_id = none;
  pass_through = record {
    delay_seconds = 0;
    tracked_from_zones = [];
    stationary_zone_prefix = "stationary";
  };
  stationary = record {
    enabled = true;
    still_seconds = 60;
    movement_limit_meters = fixed (pos 60000000);
    radius_meters = fixed (pos 100000000);
    reuse_cooldown_seconds = 30;
  };
  maximum_update_interval = 7200000000000;
  away_time_zone_offsets = [];
  old_location_adjustment_seconds = pos 0;
  old_location_maximum_seconds = none;
  in_zone_interval = 120000000000;
  stationary_interval = 300000000000;
  exit_zone_interval = 30000000000;
  fixed_interval = none;
  travel_time_factor = fixed (pos 500000);
}

pub config_valid : validate_config fixed_float config ≡ ok tt
unfolding validate_config
config_valid = refl

abbrev pub newcomer : DeviceTrackingState Fixed ℕ ℕ
newcomer = new_device 0 "one"

-- The device `one` is known, the device `two` is not.
abbrev pub loaded : TrackingState Fixed ℕ ℕ
loaded = record (empty_state) { devices = ("one", newcomer) ∷ [] }

abbrev pub account : AccountRuntime ℕ (Unit {0})
account = record {
  provider = tt;
  configured_device_ids = none;
  device_ids = "one" ∷ [];
  next_discovery_at = 0;
  authentication_error_count = 0;
}

abbrev pub created : Runtime env
created = record {
  config = config;
  accounts = [];
  state = loaded;
  route_provider = none;
  route_history = none;
  world = 1000;
}

abbrev pub started : Runtime env
started = record created { accounts = ("main", account) ∷ [] }

pub created_run : with_clock {e = env} config (ok loaded) 1000 ≡ ok created
unfolding with_clock validate_config
created_run = refl

pub loaded-IsSound : IsSound loaded
loaded-IsSound = record { bounded = omega arith; consistent = tt; keyed = (refl, tt) }
