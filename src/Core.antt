-- ===== src/Core.antt =====
-- The models that the crates share: crates/icloud-location-core/src/lib.rs.
--
-- `F` is `f64` and `I` is `DateTime<Utc>`. `serde_json::Value` of a device is a parameter `J`.
use icloud_location.Prelude.{ℕ, Bool, not, ◌&&◌, ◌||◌, Option, String}
use icloud_location.Prelude.Int.{ℤ}
use icloud_location.Std.Result.{Result, ok, ◌>>◌, reject_if}
use icloud_location.Std.Float.{Float}
use Prim.Native.String.{◌++◌}

pub record Coordinates (F : Type 0) : Type 0 where
  pub latitude : F
  pub longitude : F

pub data CoreError : Type 0 where
  invalid_coordinates : String → CoreError

pub data LocationSourceKind : Type 0 where
  apple : LocationSourceKind
  external : String → LocationSourceKind

pub record LocationSample (F I : Type 0) : Type 0 where
  pub coordinates : Coordinates F
  pub horizontal_accuracy_meters : Option F
  pub vertical_accuracy_meters : Option F
  pub timestamp : I
  pub source : LocationSourceKind
  pub is_old : Bool

pub record BatterySnapshot : Type 0 where
  pub level_percent : Option ℕ
  pub status : Option String
  pub low_power_mode : Option Bool

pub data DeviceAvailability : Type 0 where
  unknown online offline pending unregistered : DeviceAvailability
  other : ℤ → DeviceAvailability

pub data ExternalTrigger : Type 0 where
  zone_entered : String → ExternalTrigger
  zone_exited : String → ExternalTrigger
  manual background : ExternalTrigger

pub record ExternalLocationUpdate (F I : Type 0) : Type 0 where
  pub device_id : String
  pub sample : LocationSample F I
  pub battery : Option BatterySnapshot
  pub trigger : Option ExternalTrigger

pub record DeviceSnapshot (F I J : Type 0) : Type 0 where
  pub id : String
  pub name : String
  pub model : Option String
  pub availability : DeviceAvailability
  pub battery : Option BatterySnapshot
  pub location : Option (LocationSample F I)
  pub family_shared : Option Bool
  pub raw : J

pub record LocationRequest : Type 0 where
  pub family : Bool
  pub selected_device : Option String

pub data ProviderErrorKind : Type 0 where
  authentication unavailable other : ProviderErrorKind

pub record ProviderError : Type 0 where
  pub kind : ProviderErrorKind
  pub message : String

-- The text of a provider's error.
abbrev pub provider_text : ProviderError → String
provider_text e = "location provider failed: " ++ e.message

pub record EventSinkError : Type 0 where
  pub message : String

pub data TrackingEvent (I : Type 0) : Type 0 where
  authentication_required : String → TrackingEvent I
  device_updated : String → TrackingEvent I
  device_offline : String → TrackingEvent I
  -- The device, then the zone.
  zone_entered : String → String → TrackingEvent I
  zone_exited : String → String → TrackingEvent I
  -- The zone, then the device.
  stationary_zone_created : String → String → TrackingEvent I
  stationary_zone_moved : String → String → TrackingEvent I
  stationary_zone_removed : String → TrackingEvent I
  tracking_paused : Option String → TrackingEvent I
  tracking_resumed : Option String → TrackingEvent I
  tracking_scheduled : String → I → TrackingEvent I
  tracking_locate_requested : String → TrackingEvent I
  warning : String → TrackingEvent I

pub record TimestampedTrackingEvent (I : Type 0) : Type 0 where
  pub occurred_at : I
  pub event : TrackingEvent I

module _ {F : Type 0} (f : Float F) where
  -- `(-limit..=limit).contains(&x)`
  abbrev in_range : ℕ → F → Bool
  in_range limit x = f.le (f.neg (f.decimal limit 0)) x && f.le x (f.decimal limit 0)

  unfoldable pub new : F → F → Result CoreError (Coordinates F)
  new latitude longitude = do
    reject_if (not (f.is_finite latitude) || not (f.is_finite longitude))
        (invalid_coordinates "latitude and longitude must be finite")
    reject_if (not (in_range 90 latitude))
        (invalid_coordinates ("latitude " ++ f.display latitude ++ " is outside -90..=90"))
    reject_if (not (in_range 180 longitude))
        (invalid_coordinates ("longitude " ++ f.display longitude ++ " is outside -180..=180"))
    ok (record { latitude = latitude; longitude = longitude })

  -- The haversine distance in meters.
  unfoldable pub distance_meters : Coordinates F → Coordinates F → F
  distance_meters self target =
      let two = f.decimal 2 0 in
      let one = f.decimal 1 0 in
      let latitude_delta = f.to_radians (f.sub target.latitude self.latitude) in
      let longitude_delta = f.to_radians (f.sub target.longitude self.longitude) in
      let latitude_a = f.to_radians self.latitude in
      let latitude_b = f.to_radians target.latitude in
      let haversine = f.add (f.powi (f.sin (f.div latitude_delta two)) 2) (
        f.mul (f.mul (f.cos latitude_a) (f.cos latitude_b))
          (f.powi (f.sin (f.div longitude_delta two)) 2)) in
      f.mul (f.mul (f.decimal 63710088 1) two)
        (f.atan2 (f.sqrt haversine) (f.sqrt (f.sub one haversine)))
