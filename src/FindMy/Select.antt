-- ===== src/FindMy/Select.antt =====
-- `select_devices` of src/main.rs. `lower` stands for `str::to_lowercase`, which knows the letters of
-- Unicode.
use icloud_location.Prelude.{
  Bool, ◌||◌, Option, none, some, List, [], ◌∷◌, String, str_eq, starts_with,
}
use Prim.Native.String.{◌++◌}
use icloud_location.Std.Result.{Result, ok, err}
use icloud_location.Std.Filter.{filter}
use icloud_location.FindMy.Device.{Device}

module _ {F I J : Type 0} where
  abbrev pub has_id : String → Device F I J → Bool
  has_id id d = str_eq d.id id

  abbrev pub has_prefix : String → Device F I J → Bool
  has_prefix selector d = starts_with d.id selector

  module _ (lower : String → String) where
    abbrev pub is_exact : String → Device F I J → Bool
    is_exact selector d = str_eq d.id selector || str_eq (lower d.name) (lower selector)

  -- The devices whose identifier starts with the selector.
  unfoldable pub single_prefix : String → List (Device F I J) → Result String (List (Device F I J))
  single_prefix selector [] = err ("no device matches '" ++ selector ++ "'")
  single_prefix selector (d ∷ []) = ok (d ∷ [])
  single_prefix selector (d ∷ e ∷ ds) =
      err ("device ID prefix '" ++ selector ++ "' matches multiple devices")

  -- The choice by the devices that the selector names exactly.
  unfoldable pub single_exact :
      String → List (Device F I J) → List (Device F I J) → Result String (List (Device F I J))
  unfolding single_prefix
  single_exact selector devices [] = single_prefix selector (filter (has_prefix selector) devices)
  single_exact selector devices (d ∷ []) = ok (filter (has_id d.id) devices)
  single_exact selector devices (d ∷ e ∷ ds) =
      err ("device selector '" ++ selector ++ "' matches multiple devices")

  unfoldable pub select_devices :
      (String → String) → List (Device F I J) → Option String → Result String (List (Device F I J))
  unfolding single_exact
  select_devices lower devices none = ok devices
  select_devices lower devices (some selector) =
      single_exact selector devices (filter (is_exact lower selector) devices)
