-- ===== src/Runtime/External.antt =====
-- `ingest_external_update`, `ingest_external_source_once` and `request_external_location` of
-- src/runtime.rs.
use icloud_location.Prelude.{
  ℕ, Bool, true, false, not, ◌&&◌, ◌||◌, ◌⊎◌, inl, inr, Option, none, some, [], ◌∷◌, String, str_eq,
  ltb, any, is_some_and, unwrap_or, if◌then◌else◌,
}
use icloud_location.Prelude.Int.{pos}
use icloud_location.Std.Result.{Result, ok, err}
use icloud_location.Std.Float.{Float}
use icloud_location.Std.TreeMap.{get, insert}
use icloud_location.Core.{
  DeviceSnapshot, LocationSample, LocationSourceKind, apple, ExternalTrigger,
  ExternalLocationUpdate, BatterySnapshot, DeviceAvailability, ProviderError, provider_text,
}
use icloud_location.Tracking.External.Defs.{
  ArbitrationDecision, accept, reject, ExternalArbitrationPolicy, ExternalSourceHealth, arbitrate,
  new_source, record_update, record_error, record_request, is_healthy, can_request,
}
use icloud_location.Tracking.Zone.Defs.{is_blank}
use icloud_location.Tracking.Stationary.Defs.{StationaryZone}
use icloud_location.Tracking.State.Defs.{DeviceTrackingState}
use icloud_location.Tracking.State.Events.{TrackingState}
use icloud_location.Runtime.Defs.{
  Env, RuntimeConfig, RuntimeError, invalid_configuration, invalid_external_trigger,
  invalid_external_battery, external_source, external_request,
}
use icloud_location.Runtime.Config.{chrono_duration}
use icloud_location.Runtime.Refresh.Apply.{apply_refresh}
use icloud_location.Runtime.Action.{
  Action, pure, raise, gets, lift, tracked, on_state, call, raise_if, persist_at, ◌>>=◌, ◌>>◌,
}

-- The zone of a trigger.
unfoldable pub trigger_zone : Option ExternalTrigger → Option String
trigger_zone (some (ExternalTrigger.zone_entered id)) = some id
trigger_zone (some (ExternalTrigger.zone_exited id)) = some id
trigger_zone (some ExternalTrigger.manual) = none
trigger_zone (some ExternalTrigger.background) = none
trigger_zone none = none

-- A level above 100 percent.
abbrev pub has_invalid_level : Option BatterySnapshot → Bool
has_invalid_level none = false
has_invalid_level (some battery) = is_some_and battery.level_percent (λ level. ltb 100 level)

abbrev source_error : RuntimeError
source_error = invalid_configuration "external updates require a non-empty external source ID"

-- The identifier of an external source.
unfoldable pub source_id_of : LocationSourceKind → Result RuntimeError String
source_id_of apple = err source_error
source_id_of (LocationSourceKind.external id) = if is_blank id then err source_error else ok id

module _ {F I J : Type 0} where
  -- A zone of the configuration, or a stationary zone that is active.
  abbrev is_known_zone : RuntimeConfig F → TrackingState F I J → String → Bool
  is_known_zone c t id =
      any (λ z. str_eq z.id id) c.zones.zones
      || any (λ (z : StationaryZone F I). z.active && str_eq z.id id) t.stationary_zones.zones

  abbrev pub location_of : Option (DeviceTrackingState F I J) → Option (LocationSample F I)
  location_of none = none
  location_of (some d) = d.current_location

  -- The change of the health of a source, `entry(id).or_default()`.
  abbrev pub on_source :
      String
      → (ExternalSourceHealth I → ExternalSourceHealth I)
      → TrackingState F I J
      → TrackingState F I J
  on_source id g t = record t {
    external_source_health =
        insert id (g (unwrap_or (get id t.external_source_health) new_source))
          t.external_source_health;
  }

module _ {F I J : Type 0} (null : J) where
  -- The snapshot of an accepted update: what it does not say stays as it was.
  unfoldable pub external_snapshot :
      ExternalLocationUpdate F I
      → LocationSample F I
      → Option (DeviceTrackingState F I J)
      → DeviceSnapshot F I J
  external_snapshot update sample existing = record {
    id = update.device_id;
    name = elim existing [ none ↦ update.device_id | some d ↦ unwrap_or d.name update.device_id ];
    model = elim existing [ none ↦ none | some d ↦ d.model ];
    availability = DeviceAvailability.online;
    battery = update.battery;
    location = some sample;
    family_shared = elim existing [ none ↦ none | some d ↦ d.family_shared ];
    raw = elim existing [ none ↦ null | some d ↦ d.raw_device ];
  }

module _ {F : Type 0} (f : Float F) where
  -- The policy of the configuration, with `ExternalArbitrationPolicy::default()` for the rest.
  abbrev pub arbitration_policy : RuntimeConfig F → ExternalArbitrationPolicy F
  arbitration_policy c = record {
    gps_accuracy_threshold_meters = c.location_quality.gps_accuracy_threshold_meters;
    minimum_newer_by_seconds = pos 5;
  }

module _ {e : Env} where
  unfoldable pub check_trigger : Option String → Action e (Unit {0})
  check_trigger none = pure tt
  check_trigger (some id) = do
    known ← gets (λ s. is_known_zone s.config s.state id)
    raise_if (not known) (invalid_external_trigger id)

  -- What follows the decision.
  unfoldable pub ingest_decided :
      ExternalLocationUpdate e.F e.I
      → e.I
      → String
      → ArbitrationDecision e.F e.I
      → Action e (ArbitrationDecision e.F e.I)
  unfolding external_snapshot
  ingest_decided update now source_id (reject reason) = pure (reject reason)
  ingest_decided update now source_id (accept sample) = do
    existing ← gets (λ s. get update.device_id s.state.devices)
    apply_refresh none (external_snapshot e.null update sample existing ∷ []) now true
        update.trigger
    on_state (on_source source_id (record_update e.chrono sample.timestamp))
    persist_at now
    pure (accept sample)

  -- The update is checked, and gives the identifier of its source.
  unfoldable pub admit : ExternalLocationUpdate e.F e.I → Action e String
  unfolding check_trigger trigger_zone source_id_of
  admit update = do
    check_trigger (trigger_zone update.trigger)
    raise_if (has_invalid_level update.battery) invalid_external_battery
    lift (source_id_of update.sample.source)

  unfoldable pub ingest_external_update :
      ExternalLocationUpdate e.F e.I → e.I → Action e (ArbitrationDecision e.F e.I)
  unfolding admit ingest_decided
  ingest_external_update update now = do
    source_id ← admit update
    config ← gets (λ s. s.config)
    existing ← gets (λ s. get update.device_id s.state.devices)
    decision ← tracked (
        arbitrate e.float e.chrono (arbitration_policy e.float config) (location_of existing)
          update)
    ingest_decided update now source_id decision

  abbrev pub ingest_pulled :
      e.I
      → ProviderError ⊎ Option (ExternalLocationUpdate e.F e.I)
      → Action e (Option (ArbitrationDecision e.F e.I))
  ingest_pulled now (inl x) = raise (external_source (provider_text x))
  ingest_pulled now (inr none) = pure none
  ingest_pulled now (inr (some update)) = do
    decision ← ingest_external_update update now
    pure (some decision)

  -- The argument stands for `ExternalLocationSource::next_update` of the source.
  unfoldable pub ingest_external_source_once :
      (e.W → Result ProviderError (Option (ExternalLocationUpdate e.F e.I)) × e.W)
      → e.I
      → Action e (Option (ArbitrationDecision e.F e.I))
  unfolding ingest_external_update
  ingest_external_source_once next_update now = do
    pulled ← call next_update
    ingest_pulled now pulled

  abbrev pub requested : String → e.I → ProviderError ⊎ Unit {0} → Action e Bool
  requested source_id now (inl x) = do
    on_state (on_source source_id record_error)
    persist_at now
    raise (external_request (provider_text x))
  requested source_id now (inr _) = do persist_at now; pure true

  -- The request is recorded and sent.
  unfoldable pub send_request :
      String → String → (String → e.W → Result ProviderError (Unit {0}) × e.W) → e.I → Action e Bool
  send_request source_id device_id request_location now = do
    on_state (on_source source_id (record_request now))
    answer ← call (request_location device_id)
    requested source_id now answer

  -- The requester's argument stands for `ExternalLocationRequester::request_location`.
  unfoldable pub request_external_location :
      String
      → String
      → (String → e.W → Result ProviderError (Unit {0}) × e.W)
      → ℕ
      → ℕ
      → e.I
      → Action e Bool
  unfolding send_request
  request_external_location source_id device_id request_location alive throttle now = do
    alive_interval ← lift (chrono_duration e.chrono alive)
    request_throttle ← lift (chrono_duration e.chrono throttle)
    on_state (on_source source_id (λ h. h))
    health ← gets (λ s. unwrap_or (get source_id s.state.external_source_health) new_source)
    if is_healthy e.chrono now alive_interval health
          || not (can_request e.chrono now request_throttle health)
        then pure false
        else send_request source_id device_id request_location now
