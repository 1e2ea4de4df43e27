-- ===== src/Runtime/Accounts.antt =====
-- `TrackingRuntime::with_clock`, `register_account`, `set_routing` and `account_is_due` of
-- src/runtime.rs.
use mathlib.Core.List.{foldl}
use icloud_location.Prelude.{
  ℕ, Bool, not, ◌&&◌, Option, none, some, List, [], ◌∷◌, String, ltb, any, is_some_and, is_none_or,
  unwrap_or, is_empty, if◌then◌else◌,
}
use icloud_location.Std.Result.{Result, ok, ◌>>=◌, ◌>>◌}
use icloud_location.Std.Words.{max_of}
use icloud_location.Std.Chrono.{Chrono}
use icloud_location.Std.TreeMap.{TreeMap, TreeSet, get, insert, add}
use icloud_location.Tracking.State.Defs.{AccountTrackingState, DeviceTrackingState, new_device}
use icloud_location.Tracking.State.Events.{TrackingState}
use icloud_location.Runtime.Defs.{Env, Runtime, RuntimeConfig, RuntimeError, AccountRuntime}
use icloud_location.Runtime.Config.{validate_config}

-- `into_iter().collect::<BTreeSet<_>>()`
abbrev pub to_set : List String → TreeSet
to_set ids = foldl (λ s id. add id s) [] ids

-- `AccountTrackingState::default()`
abbrev pub empty_account : {I : Type 0} → AccountTrackingState I
empty_account = record { device_ids = []; authentication_error_count = 0; next_discovery_at = none }

module _ {I D : Type 0} (c : Chrono I D) where
  -- `a == b` on `DateTime<Utc>`, whose order is total.
  abbrev pub same_instant : I → I → Bool
  same_instant a b = not (c.before a b) && not (c.before b a)

  -- `iter().min()`
  unfoldable pub earliest : List I → Option I
  earliest [] = none
  earliest (t ∷ ts) =
      let rest = earliest ts in if is_some_and rest (λ u. c.before u t) then rest else some t

module _ {F I J : Type 0} where
  -- `filter_map(|id| devices.get(id)?.next_update_at)`
  unfoldable pub update_times : TreeMap (DeviceTrackingState F I J) → TreeSet → List I
  update_times devices [] = []
  update_times devices (id ∷ ids) =
      let rest = update_times devices ids in
      elim (get id devices) [
        | none ↦ rest
        | some d ↦ elim d.next_update_at [ none ↦ rest | some t ↦ t ∷ rest ]
      ]

  -- `filter_map(|id| devices.get(id)).map(|device| device.authentication_error_count).max()`
  unfoldable pub most_errors : TreeMap (DeviceTrackingState F I J) → TreeSet → ℕ
  most_errors devices [] = 0
  most_errors devices (id ∷ ids) =
      let rest = most_errors devices ids in
      elim (get id devices) [ none ↦ rest | some d ↦ max_of d.authentication_error_count rest ]

module _ {F I D J : Type 0} (c : Chrono I D) where
  -- The time of the first discovery of an account that is registered.
  unfoldable pub first_discovery : TreeMap (DeviceTrackingState F I J) → TreeSet → ℕ → Option I → I
  first_discovery devices ids errors persisted = unwrap_or persisted (
      if ltb 0 errors
      then unwrap_or (earliest c (update_times devices ids)) c.min_utc
      else c.min_utc)

  -- A device that is neither paused nor scheduled for later.
  abbrev pub is_device_due : TreeMap (DeviceTrackingState F I J) → I → String → Bool
  is_device_due devices due_before id =
      is_some_and (get id devices)
        (λ d. not d.paused && is_none_or d.next_update_at (λ t. not (c.before due_before t)))

  unfoldable pub account_is_due :
      {P : Type 0} → TreeMap (DeviceTrackingState F I J) → AccountRuntime I P → I → I → Bool
  account_is_due devices account now due_before =
      if ltb 0 account.authentication_error_count
      then not (c.before now account.next_discovery_at)
      else if is_empty account.device_ids
      then not (c.before due_before account.next_discovery_at)
      else any (is_device_due devices due_before) account.device_ids

module _ {F I J : Type 0} (null : J) where
  -- `entry(id).or_insert_with(|| DeviceTrackingState::new(id))`
  abbrev pub ensure_device :
      String → TreeMap (DeviceTrackingState F I J) → TreeMap (DeviceTrackingState F I J)
  ensure_device id devices = elim (get id devices) [
    | some d ↦ devices
    | none ↦ insert id (new_device null id) devices
  ]

module _ {e : Env} where
  -- `TrackingRuntime::with_clock`, on a state that is loaded.
  unfoldable pub with_clock :
      RuntimeConfig e.F
      → Result RuntimeError (TrackingState e.F e.I e.J)
      → e.W
      → Result RuntimeError (Runtime e)
  with_clock config load world = do
    validate_config e.float config
    state ← load
    ok (record {
      config = config;
      accounts = [];
      state = state;
      route_provider = none;
      route_history = none;
      world = world;
    })

  unfoldable pub set_routing : e.R → Option e.H → Runtime e → Runtime e
  set_routing provider history s = record s {
    route_provider = some provider;
    route_history = history;
  }

  unfoldable pub register_account : String → e.P → List String → Runtime e → Runtime e
  unfolding first_discovery
  register_account account_id provider ids s =
      let configured = to_set ids in
      let persisted = unwrap_or (get account_id s.state.accounts) empty_account in
      let device_ids = if is_empty configured then persisted.device_ids else configured in
      let devices = foldl (λ m id. ensure_device e.null id m) s.state.devices device_ids in
      let errors = max_of (most_errors devices device_ids) persisted.authentication_error_count in
      let next = first_discovery e.chrono devices device_ids errors persisted.next_discovery_at in
      let account : AccountTrackingState e.I = record {
        device_ids = device_ids;
        authentication_error_count = errors;
        next_discovery_at = if same_instant e.chrono next e.chrono.min_utc then none else some next;
      } in
      let running : AccountRuntime e.I e.P = record {
        provider = provider;
        configured_device_ids = if is_empty configured then none else some configured;
        device_ids = device_ids;
        next_discovery_at = next;
        authentication_error_count = errors;
      } in
      record s {
        accounts = insert account_id running s.accounts;
        state = record s.state {
          devices = devices;
          accounts = insert account_id account s.state.accounts;
        };
      }
