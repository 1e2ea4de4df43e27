-- ===== src/Examples/Devices.antt =====
-- Devices that are chosen by name and by the beginning of the identifier.
use icloud_location.Prelude.{◌≡◌, ◌≢◌, refl, none, some, [], ◌∷◌, String, ℕ}
use icloud_location.Std.Result.{ok, err}
use icloud_location.Std.Filter.{filter}
use icloud_location.Std.Text.{to_ascii_lowercase}
use icloud_location.FindMy.Device.{
  Device, online, offline, kind, model, from_code, code, watch, airpods,
}
use icloud_location.FindMy.Select.{has_id, select_devices}
use icloud_location.FindMy.Selected.{select_devices_one, IsNamed}

abbrev named : String → String → Device ℕ ℕ (Unit {0})
named id name = record {
  id = id;
  name = name;
  unique_name = name;
  device_class = none;
  device_display_name = none;
  model_display_name = none;
  raw_device_model = none;
  status = online;
  battery = none;
  location = none;
  family_shared = none;
  raw = tt;
}

abbrev phone : Device ℕ ℕ (Unit {0})
phone = named "abc-1" "Test iPhone"

abbrev tablet : Device ℕ ℕ (Unit {0})
tablet = named "abc-2" "Test iPad"

watch_by_class : kind (record phone { device_class = some "WATCH" }) ≡ watch
unfolding kind to_ascii_lowercase
watch_by_class = refl

airpods_first :
    kind (record phone { device_class = some "iPhone"; raw_device_model = some "AirPodsPro_8220" })
    ≡ airpods
unfolding kind to_ascii_lowercase
airpods_first = refl

raw_model_last : model (record phone { raw_device_model = some "iPhone14_2" }) ≡ some "iPhone14_2"
unfolding model
raw_model_last = refl

offline_code : from_code (code offline) ≡ offline
unfolding from_code code
offline_code = refl

by_name :
    select_devices to_ascii_lowercase (phone ∷ tablet ∷ []) (some "test iphone") ≡ ok (phone ∷ [])
unfolding select_devices to_ascii_lowercase filter
by_name = refl

by_prefix :
    select_devices to_ascii_lowercase (phone ∷ tablet ∷ []) (some "abc")
    ≡ err "device ID prefix 'abc' matches multiple devices"
unfolding select_devices to_ascii_lowercase filter
by_prefix = refl

select_devices_one_example :
    (d : Device ℕ ℕ (Unit {0})) × (phone ∷ [] ≡ filter (has_id d.id) (phone ∷ tablet ∷ []))
    × (phone ∷ [] ≢ [])
    × IsNamed to_ascii_lowercase "test iphone" d (phone ∷ tablet ∷ [])
select_devices_one_example =
    select_devices_one to_ascii_lowercase (phone ∷ tablet ∷ []) "test iphone" (phone ∷ []) by_name
