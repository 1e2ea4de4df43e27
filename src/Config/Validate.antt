-- ===== src/Config/Validate.antt =====
-- `AppConfig::validate` and `AppConfig::migrate` of src/config.rs. A `HashSet` is the list of what was
-- put into it.
use icloud_location.Prelude.{
  Bool, false, not, ◌&&◌, ◌||◌, ◌==◌, List, [], ◌∷◌, String, str_eq, ltb, any, is_some_and,
  is_empty, map, if◌then◌else◌,
}
use icloud_location.Prelude.Int.{ℤ, pos, negsuc, ltb_ℤ}
use icloud_location.Std.Result.{Result, ok, err, ◌>>=◌, ◌>>◌, reject_if, map_err}
use icloud_location.Std.Float.{Float, is_invalid, is_not_positive}
use icloud_location.Std.Text.{trim, to_ascii_lowercase, is_empty_text}
use icloud_location.Std.TreeMap.{contains}
use icloud_location.Tracking.Zone.Defs
use icloud_location.Tracking.Zone.Defs.{Zone, active_zones, is_blank}
use icloud_location.Config.Defs.{
  AccountConfig, TrackingConfig, WazeConfig, ExternalSourceConfig, AwayTimeZoneConfig, AppConfig,
  ConfigError, unsupported_version, invalid, zone, current_config_version,
}

-- A device identifier that is blank, or was in the account or in the configuration before.
unfoldable pub has_bad_devices : List String → List String → List String → Bool
has_bad_devices account configured [] = false
has_bad_devices account configured (id ∷ ids) =
    let rest = has_bad_devices (id ∷ account) (id ∷ configured) ids in
    is_blank id || contains id account || contains id configured || rest

-- The identifiers of the devices of an account beside those from before.
unfoldable pub add_all : List String → List String → List String
add_all [] configured = configured
add_all (id ∷ ids) configured = add_all ids (id ∷ configured)

-- The accounts, given the user names and the devices of those before.
unfoldable pub validate_accounts_after :
    List String → List String → List AccountConfig → Result ConfigError (Unit {0})
unfolding has_bad_devices add_all
validate_accounts_after usernames configured [] = ok tt
validate_accounts_after usernames configured (account ∷ accounts) =
    let username = to_ascii_lowercase (trim account.username) in
    (do
      reject_if (is_empty_text username || contains username usernames)
          (invalid "Apple account usernames must be non-empty and unique")
      reject_if (has_bad_devices [] configured account.device_ids)
          (invalid "configured device IDs must be non-empty and assigned to one account")
      validate_accounts_after (username ∷ usernames) (add_all account.device_ids configured)
          accounts)

unfoldable pub validate_accounts : List AccountConfig → Result ConfigError (Unit {0})
unfolding validate_accounts_after
validate_accounts accounts = validate_accounts_after [] [] accounts

module _ {F : Type 0} (f : Float F) where
  abbrev pub has_invalid_tracking : TrackingConfig F → Bool
  has_invalid_tracking t =
      t.tick_seconds == 0
      || t.prefetch_seconds == 0
      || ltb t.default_interval_seconds 5
      || ltb t.in_zone_interval_seconds 5
      || ltb t.stationary_interval_seconds 5
      || ltb t.exit_zone_interval_seconds 5
      || ltb t.maximum_interval_seconds t.default_interval_seconds
      || is_invalid f t.gps_accuracy_threshold_meters
      || is_not_positive f t.travel_time_factor
      || t.stationary_still_seconds == 0
      || is_not_positive f t.stationary_radius_meters
      || (ltb 0 t.fixed_interval_seconds && ltb t.fixed_interval_seconds 300)

  unfoldable pub validate_tracking : TrackingConfig F → Result ConfigError (Unit {0})
  validate_tracking t =
      reject_if (has_invalid_tracking t)
        (invalid "tracking intervals and GPS thresholds are invalid")

-- The regions of Waze.
unfoldable pub is_waze_region : String → Bool
is_waze_region region =
    any (λ name. str_eq region name)
      ("us" ∷ "ca" ∷ "na" ∷ "am" ∷ "il" ∷ "eu" ∷ "au" ∷ "row" ∷ "rest_of_world" ∷ [])

module _ {F : Type 0} (f : Float F) where
  abbrev pub is_invalid_waze : WazeConfig F → Bool
  is_invalid_waze w =
      not (f.is_finite w.minimum_distance_km)
      || not (f.is_finite w.maximum_distance_km)
      || f.lt w.minimum_distance_km (f.decimal 0 0)
      || f.lt w.maximum_distance_km w.minimum_distance_km
      || not (is_waze_region (to_ascii_lowercase (trim w.region)))

module _ {F : Type 0} where
  -- The identifiers of the zones that are not passive.
  abbrev pub active_zone_ids : AppConfig F → List String
  active_zone_ids c = map (λ z. z.id) (active_zones c.zones)

-- A zone identifier that is blank, unknown, or there already.
unfoldable pub has_bad_tracked_zones : List String → List String → List String → Bool
has_bad_tracked_zones active seen [] = false
has_bad_tracked_zones active seen (id ∷ ids) =
    let rest = has_bad_tracked_zones active (id ∷ seen) ids in
    is_blank id || not (contains id active) || contains id seen || rest

-- The external sources, given the identifiers of those before.
unfoldable pub validate_sources :
    List String → List ExternalSourceConfig → Result ConfigError (Unit {0})
validate_sources seen [] = ok tt
validate_sources seen (source ∷ sources) = do
  reject_if
      (is_blank source.id
        || not (str_eq (trim source.id) source.id)
        || contains source.id seen
        || source.request_throttle_seconds == 0
        || source.alive_interval_seconds == 0)
      (invalid "external source IDs and timing settings are invalid")
  validate_sources (source.id ∷ seen) sources

-- A device identifier that is blank or was there before.
unfoldable pub has_bad_away_devices : List String → List String → Bool
has_bad_away_devices seen [] = false
has_bad_away_devices seen (id ∷ ids) =
    let rest = has_bad_away_devices (id ∷ seen) ids in is_blank id || contains id seen || rest

-- `!(-23..=23).contains(&offset)`
abbrev pub is_bad_offset : ℤ → Bool
is_bad_offset offset = ltb_ℤ offset (negsuc 22) || ltb_ℤ (pos 23) offset

-- The time zones, given the devices of those before.
unfoldable pub validate_away_zones :
    List String → List AwayTimeZoneConfig → Result ConfigError (Unit {0})
unfolding has_bad_away_devices
validate_away_zones seen [] = ok tt
validate_away_zones seen (away ∷ aways) = do
  reject_if
      (is_bad_offset away.offset_hours
        || is_empty away.device_ids
        || has_bad_away_devices seen away.device_ids)
      (invalid
        "away-time-zone offsets must be within -23..=23 and device IDs must be non-empty and unique")
  validate_away_zones (add_all away.device_ids seen) aways

module _ {F : Type 0} (f : Float F) where
  -- `AppConfig::validate`
  unfoldable pub validate : AppConfig F → Result ConfigError (Unit {0})
  unfolding validate_accounts validate_tracking has_bad_tracked_zones validate_sources
      validate_away_zones is_waze_region
  validate c = do
    reject_if (not (c.version == current_config_version)) (unsupported_version c.version)
    validate_accounts c.accounts
    validate_tracking f c.tracking
    _ ← map_err zone (Defs.new f c.zones)
    reject_if (is_some_and c.base_zone_id (λ id. not (contains id (active_zone_ids c))))
        (invalid "base_zone_id must reference an active configured zone")
    reject_if (has_bad_tracked_zones (active_zone_ids c) [] c.tracked_from_zones)
        (invalid "tracked_from_zones must contain unique active configured zone IDs")
    reject_if (is_some_and c.waze (is_invalid_waze f))
        (invalid "Waze region and distance bounds are invalid")
    validate_sources [] c.external_sources
    validate_away_zones [] c.away_time_zones

module _ {F : Type 0} where
  -- `AppConfig::migrate`
  unfoldable pub migrate : AppConfig F → Result ConfigError (AppConfig F)
  migrate c =
      if c.version == 0
      then ok (record c { version = current_config_version })
      else if c.version == current_config_version
      then ok c
      else err (unsupported_version c.version)

module _ {F : Type 0} (f : Float F) where
  -- `AppConfig::load` from the file on.
  unfoldable pub load : Result ConfigError (AppConfig F) → Result ConfigError (AppConfig F)
  unfolding validate migrate
  load parsed = do config ← parsed; migrated ← migrate config; validate f migrated; ok migrated
