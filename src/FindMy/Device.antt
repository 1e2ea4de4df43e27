-- ===== src/FindMy/Device.antt =====
-- The types of crates/icloud-findmy/src/model.rs. `F` stands for `f64`, `I` for an instant and `J` for a
-- JSON value.
use icloud_location.Prelude.{
  ℕ, ◌≡◌, Bool, ◌||◌, ◌==◌, Option, none, some, String, str_eq, starts_with, arith, if◌then◌else◌,
}
use icloud_location.Prelude.Int.{ℤ, pos, negsuc}
use icloud_location.Std.Text.{to_ascii_lowercase}

pub record Location (F I : Type 0) : Type 0 where
  pub latitude : F
  pub longitude : F
  pub horizontal_accuracy_meters : Option F
  pub vertical_accuracy_meters : Option F
  pub position_type : Option String
  pub is_old : Option Bool
  pub timestamp : Option I

pub record Battery : Type 0 where
  pub level_percent : Option ℕ
  pub status : Option String
  pub low_power_mode : Option Bool

pub data DeviceStatus : Type 0 where
  unknown online offline pending unregistered : DeviceStatus
  other : ℤ → DeviceStatus

pub record Device (F I J : Type 0) : Type 0 where
  pub id : String
  pub name : String
  pub unique_name : String
  pub device_class : Option String
  pub device_display_name : Option String
  pub model_display_name : Option String
  pub raw_device_model : Option String
  pub status : DeviceStatus
  pub battery : Option Battery
  pub location : Option (Location F I)
  pub family_shared : Option Bool
  pub raw : J

-- `DeviceStatus::from_code` and `DeviceStatus::code`
unfoldable pub from_code : ℤ → DeviceStatus
from_code (negsuc n) = other (negsuc n)
from_code (pos n) =
    if n == 0
    then unknown
    else if n == 200
    then online
    else if n == 201
    then offline
    else if n == 203
    then pending
    else if n == 204
    then unregistered
    else other (pos n)

unfoldable pub code : DeviceStatus → ℤ
code unknown = pos 0
code online = pos 200
code offline = pos 201
code pending = pos 203
code unregistered = pos 204
code (other n) = n

-- A status that was made of a code still has the code.
pub code-from_code : (n : ℤ) → code (from_code n) ≡ n
unfolding from_code code
code-from_code n = ground arith

pub data DeviceKind : Type 0 where
  iphone ipad watch mac airpods airtag other : DeviceKind

abbrev pub text_of : Option String → String
text_of none = ""
text_of (some t) = t

-- `eq_ignore_ascii_case`
abbrev pub is_named : String → String → Bool
is_named class name = str_eq (to_ascii_lowercase class) name

-- `Option::or`
abbrev pub or_else : Option String → Option String → Option String
or_else none other_text = other_text
or_else (some t) other_text = some t

module _ {F I J : Type 0} where
  -- `Device::model`
  unfoldable pub model : Device F I J → Option String
  model d = or_else d.device_display_name (or_else d.model_display_name d.raw_device_model)

  -- `Device::kind`
  unfoldable pub kind : Device F I J → DeviceKind
  kind d =
      let raw_model = text_of d.raw_device_model in
      let class = text_of d.device_class in
      if starts_with raw_model "AirPods"
      then airpods
      else if starts_with raw_model "AirTag"
      then airtag
      else if starts_with raw_model "Watch" || is_named class "watch"
      then watch
      else if is_named class "iphone"
      then iphone
      else if is_named class "ipad"
      then ipad
      else if is_named class "mac"
      then mac
      else DeviceKind.other
