-- ===== src/Examples/Config.antt =====
-- A configuration file of the version before the current one, with two accounts and a zone.
use icloud_location.Prelude.{◌≡◌, refl, ap, none, some, false, [], ◌∷◌}
use icloud_location.Prelude.Int.{pos, negsuc}
use icloud_location.Std.Result.{ok, err, ◌>>◌}
use icloud_location.Std.Text.{is_empty_text, to_ascii_lowercase, trim_end, trim_start}
use icloud_location.Std.TreeMap.{contains}
use icloud_location.Std.Filter.{filter}
use icloud_location.Core
use icloud_location.Tracking.Zone.Defs.{Zone, is_blank, new, check_zone, check_zones, center}
use icloud_location.Runtime.Defs.{RuntimeConfig}
use icloud_location.Runtime.Config.{validate_config}
use icloud_location.Config.Defs.{
  AppConfig, AccountConfig, global, default_config, default_waze, default_account, default_source,
  current_config_version, unsupported_version, invalid,
}
use icloud_location.Config.Validate.{validate, load}
use icloud_location.Config.Runtime.{runtime_config}
use icloud_location.Config.Accepted.{load_makes_runtime}
use icloud_location.Config.Unique.{AreUnique, all_usernames, all_devices, accounts_AreUnique}
use icloud_location.Examples.Fixed.{Fixed, fixed, fixed_float}
use icloud_location.Examples.FixedLaws.{Fixed-IsFloat}

abbrev house : Zone Fixed
house = record {
  id = "house";
  latitude = fixed (pos 0);
  longitude = fixed (pos 0);
  radius_meters = fixed (pos 100000000);
  passive = false;
}

abbrev first_account : AccountConfig
first_account = record {
  username = " Alice@example.com";
  region = global;
  session_root = none;
  device_ids = "phone" ∷ "watch" ∷ [];
}

abbrev second_account : AccountConfig
second_account = record {
  username = "bob@example.com";
  region = global;
  session_root = none;
  device_ids = "tablet" ∷ [];
}

abbrev app : AppConfig Fixed
unfolding default_config
app = record (default_config fixed_float) {
  accounts = first_account ∷ second_account ∷ [];
  zones = house ∷ [];
  base_zone_id = some "house";
  tracked_from_zones = "house" ∷ [];
  away_time_zones = record { offset_hours = negsuc 4; device_ids = "phone" ∷ [] } ∷ [];
}

app_valid : validate fixed_float app ≡ ok tt
unfolding validate app is_empty_text to_ascii_lowercase trim_end trim_start contains is_blank new
    check_zone check_zones center Core.new filter
app_valid = refl

-- The default account and source need a name.
default_waze_valid :
    validate fixed_float (record app { waze = some (default_waze fixed_float) }) ≡ ok tt
unfolding default_waze validate app is_empty_text to_ascii_lowercase trim_end trim_start contains
    is_blank new check_zone check_zones center Core.new filter
default_waze_valid = refl

default_account_invalid :
    validate fixed_float (record app { accounts = default_account ∷ [] })
    ≡ err (invalid "Apple account usernames must be non-empty and unique")
unfolding validate app is_empty_text to_ascii_lowercase trim_end trim_start contains is_blank new
    check_zone check_zones center Core.new filter
default_account_invalid = refl

default_source_invalid :
    validate fixed_float (record app { external_sources = default_source ∷ [] })
    ≡ err (invalid "external source IDs and timing settings are invalid")
unfolding validate app is_empty_text to_ascii_lowercase trim_end trim_start contains is_blank new
    check_zone check_zones center Core.new filter
default_source_invalid = refl

-- An account that has the device of another one, and one with the user name of another.
shared_device_invalid :
    validate fixed_float (record app {
      accounts = first_account ∷ record second_account { device_ids = "watch" ∷ [] } ∷ [];
    })
    ≡ err (invalid "configured device IDs must be non-empty and assigned to one account")
unfolding validate app is_empty_text to_ascii_lowercase trim_end trim_start contains is_blank new
    check_zone check_zones center Core.new filter
shared_device_invalid = refl

shared_username_invalid :
    validate fixed_float (record app {
      accounts = first_account ∷ record second_account { username = "ALICE@example.com " } ∷ [];
    })
    ≡ err (invalid "Apple account usernames must be non-empty and unique")
unfolding validate app is_empty_text to_ascii_lowercase trim_end trim_start contains is_blank new
    check_zone check_zones center Core.new filter
shared_username_invalid = refl

later_unsupported : load fixed_float (ok (record app { version = 2 })) ≡ err (unsupported_version 2)
unfolding load validate app is_empty_text to_ascii_lowercase trim_end trim_start contains is_blank
    new check_zone check_zones center Core.new filter
later_unsupported = refl

old_upgraded : load fixed_float (ok (record app { version = 0 })) ≡ ok app
unfolding load app
old_upgraded = ap (λ r. r >> ok app) app_valid

load_makes_runtime_example :
    (app.version ≡ current_config_version)
    × ((r : RuntimeConfig Fixed) × (runtime_config fixed_float app ≡ ok r)
        × (validate_config fixed_float r ≡ ok tt))
load_makes_runtime_example =
    load_makes_runtime fixed_float Fixed-IsFloat (ok (record app { version = 0 })) app old_upgraded

accounts_AreUnique_example :
    AreUnique (all_usernames app.accounts) × AreUnique (all_devices app.accounts)
accounts_AreUnique_example = accounts_AreUnique fixed_float app app_valid
