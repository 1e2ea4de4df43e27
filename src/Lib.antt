-- ===== src/Lib.antt =====
-- The core of icloud-location: how a stream of device locations becomes zones, directions, qualities
-- and the time of the next request, and how the runtime asks for the locations.
--
-- The program asks Apple's Find My service for locations, or receives them from other sources, and
-- keeps a tracking state. A sample is first judged by its quality, then applied to the state of its
-- device; zones, direction and stationary zones are derived from the new location, and the interval
-- policy decides when to ask again. The crate crates/icloud-tracking has this logic without I/O, and
-- its source is modelled file by file. The runtime of src/runtime.rs keeps the accounts with their
-- devices, asks the provider of each account that is due, and passes every snapshot of a device
-- through that logic:
--
--   Core                  crates/icloud-location-core/src/lib.rs: Coordinates, LocationSample, the
--                         events; Core.new is Coordinates::new
--   Tracking/Error        crates/icloud-tracking/src/lib.rs: TrackingError
--   Tracking/Interval     crates/icloud-tracking/src/interval.rs: distance_interval, the retry and
--                         offline intervals (Defs), IntervalPolicy::determine (Determine)
--   Tracking/Direction    crates/icloud-tracking/src/direction.rs: determine_direction and its history
--   Tracking/Zone         crates/icloud-tracking/src/zone.rs: ZoneSet::new, select and closest
--   Tracking/ZoneState    crates/icloud-tracking/src/zone_state.rs: ZoneTransitionState::update and
--                         ZoneOccupancy
--   Tracking/Quality      crates/icloud-tracking/src/quality.rs: LocationQualityPolicy::evaluate and
--                         calculate_old_location_threshold
--   Tracking/External     crates/icloud-tracking/src/external.rs: arbitration and source health
--   Tracking/Stationary   crates/icloud-tracking/src/stationary.rs: StationaryZoneManager
--   Tracking/Nearby       crates/icloud-tracking/src/nearby.rs: group_nearby_devices
--   Tracking/State        crates/icloud-tracking/src/state.rs: the state of a device, the event
--                         history, the snapshots, the migration of a stored state
--
--   Routing               crates/icloud-routing/src/lib.rs: requests, estimates, the straight line
--   Config                src/config.rs: the types and their defaults (Defs), AppConfig::validate,
--                         migrate and load from the parsed file on (Validate), and runtime_config of
--                         src/main.rs, which makes the configuration of the runtime (Runtime)
--   FindMy/Device         crates/icloud-findmy/src/model.rs: the types of a device, DeviceStatus::code
--                         and from_code, Device::model and kind
--   FindMy/Select         select_devices of src/main.rs
--   Runtime/Defs          src/runtime.rs: RuntimeConfig, RuntimeError and TrackingRuntime; Env has the
--                         types and operations that the runtime is given
--   Runtime/Action        the methods as actions on the runtime: emit_at, persist_at
--   Runtime/Config        validate_config
--   Runtime/Accounts      with_clock, register_account, set_routing, account_is_due
--   Runtime/Commands      pause, resume, schedule, locate_now
--   Runtime/Nearby        update_nearby_devices
--   Runtime/Refresh       apply_refresh in its parts: the quality of a location and the battery
--                         (Quality), the zones (Sighting), the route (Route), the direction and the
--                         interval (Interval), the zones that a device is tracked from (Tracks), one
--                         device (Device), all of them and the account (Apply)
--   Runtime/External      ingest_external_update and the requests to external sources
--   Runtime/Tick          tick and run
--
-- An action of the runtime takes its state and gives a result beside the new state, so that what was
-- changed before an error stays changed. Runtime/Keeps has one rule for each way to build an action,
-- and what every operation keeps; Runtime/Reach has the operations as steps and the states that they
-- reach. The loop of run takes a list of wake-ups, which is the order in which its timer and its
-- shutdown channel become ready.
--
-- In each directory Defs has the definitions and the other modules what is proved of them. Prelude has
-- the shared tests, lists and integers; Std models what the program uses of Rust's standard library
-- (results with panics as a third outcome, saturating words, ordered maps, bounded vectors, stable
-- sorts). Examples has a model of the parameters and concrete runs.
--
-- Parameters: f64 is a type F with its operations (Std/Float), whose laws IsFloat state facts of IEEE
-- numbers that the proofs use; the trigonometric functions have no laws. DateTime and TimeDelta of the
-- crate chrono are types I and D (Std/Chrono) with the order of instants as laws; Duration::seconds and
-- date arithmetic may panic, and then the model gives panic. The raw JSON of a device is a type J,
-- and the operations of serde_json on a stored state are Std/Json. The providers, the event sink, the
-- store of the state, the clock and the routes are operations of Env on a world outside, of which
-- nothing is assumed but where a theorem says so.
--
-- Machine integers are natural numbers with the saturation of the source written out; u32, u64 and i64
-- have the bounds of Std/Words. Loops are structural recursions. Two
-- functions run on fuel: show_nat on 20 digits, as many as a u64 has at most, and the walk over nearby
-- devices on one more than the number of neighbors in the map, since it takes one device from its
-- vector in every round and puts the neighbors of a device there once.
--
-- Not modelled: the parsing of the configuration file and its saving, the command line but for
-- runtime_config and select_devices, the requests, sessions and JSON of the clients of Apple and Waze,
-- and the reading and writing of the state file, which are I/O or glue around this core.
pub mod Prelude
pub mod Std
pub mod Core
pub mod Config
pub mod FindMy
pub mod Routing
pub mod Tracking
pub mod Runtime
pub mod Examples
