-- ===== src/Runtime/Restart.antt =====
-- An account that is registered again on the state that was saved: src/runtime.rs.
use mathlib.Core.List.{foldl}
use icloud_location.Prelude.{
  ◌≡◌, ◌∙◌, refl, ap, ◌≤◌, true, false, none, some, List, Bool-cases, is_empty, if◌then◌else◌, [],
  ◌∷◌, String, ℕ, arith, eq_iff, Option-cases, inl, inr,
}
use icloud_location.Std.Result.{ok}
use icloud_location.Std.Words.{u32_max, saturating_add, max_of}
use icloud_location.Std.TreeMap.{TreeMap, TreeSet, get, get-insert, contains}
use icloud_location.Tracking.Interval.Defs.{retry_interval_seconds}
use icloud_location.Tracking.State.Defs.{DeviceTrackingState, AccountTrackingState, new_device}
use icloud_location.Core.{ProviderError}
use icloud_location.Tracking.State.Events.{TrackingState}
use icloud_location.Runtime.Defs.{Env, Runtime, AccountRuntime}
use icloud_location.Runtime.Accounts.{
  to_set, register_account, ensure_device, most_errors, first_discovery,
}
use icloud_location.Runtime.Refresh.Interval.{after_seconds}
use icloud_location.Runtime.Tick.{account_failed, hold}
use icloud_location.Runtime.Commands.{change_devices}
use icloud_location.Runtime.Known.{get-change_devices}
use icloud_location.Runtime.Failing.{account_failed-HasKept}

module _ {F I J : Type 0} where
  -- No device of the list has more errors.
  abbrev HasAtMost : ℕ → TreeSet → TreeMap (DeviceTrackingState F I J) → Type 0
  HasAtMost n ids m =
      (j : String) (d : DeviceTrackingState F I J)
      → contains j ids ≡ true
      → get j m ≡ some d
      → d.authentication_error_count ≤ n

  most_errors-le :
      (n : ℕ) (ids : TreeSet) (m : TreeMap (DeviceTrackingState F I J))
      → HasAtMost n ids m
      → most_errors m ids ≤ n
  unfolding most_errors contains
  most_errors-le n [] m h = ground arith
  most_errors-le n (id ∷ ids) m h =
      let rest : most_errors m ids ≤ n =
        most_errors-le n ids m λ j d member found. h j d (ground (arith, member)) found in
      elim (Option-cases (get id m)) [
        | inl e ↦ ground (arith, e, rest)
        | inr (d, e) ↦
            let here : d.authentication_error_count ≤ n = h id d (ground (arith, eq_iff id id)) e in
            ground (arith, e, here, rest)
      ]

module _ {F I J : Type 0} (null : J) where
  ensure_devices-HasAtMost :
      (n : ℕ) (ids all : TreeSet) (m : TreeMap (DeviceTrackingState F I J))
      → HasAtMost n all m
      → HasAtMost n all (foldl (λ m' id. ensure_device null id m') m ids)
  ensure_devices-HasAtMost n [] all m h = h
  ensure_devices-HasAtMost n (id ∷ ids) all m h =
      ensure_devices-HasAtMost n ids all (ensure_device null id m) λ j d member found.
        ground (arith, h j d member, found, get-insert id j (new_device null id) m)

-- The devices of an account that is registered with these, or with those it had where there are none.
abbrev pub registered : TreeSet → TreeSet → TreeSet
registered configured known = if is_empty configured then known else configured

module _ {F I J : Type 0} where
  -- After the devices of an account are held, no device that it is registered with has more errors than
  -- the account, if none of the others had.
  held-HasAtMost :
      (n : ℕ) (at : I) (configured known : TreeSet) (t : TrackingState F I J)
      → ((j : String) (d : DeviceTrackingState F I J)
          → contains j configured ≡ true
          → contains j known ≡ false
          → get j t.devices ≡ some d
          → d.authentication_error_count ≤ n)
      → HasAtMost n (registered configured known) (change_devices known (hold n at) t).devices
  held-HasAtMost n at configured known t few j d member found =
      elim (Bool-cases (contains j known)) [
        | inl y ↦ ground (arith, y, found, get-change_devices j known (hold n at) t (λ d'. refl))
        | inr f ↦
            few j d (ground (arith, member, f)) f
              (ground (arith, f, found, get-change_devices j known (hold n at) t (λ d'. refl)))
      ]

module _ {e : Env} where
  register-known :
      (id : String) (at : e.I) (provider : e.P) (configured : List String) (r : Runtime e)
      (entry : AccountTrackingState e.I)
      → get id r.state.accounts ≡ some entry
      → entry.next_discovery_at ≡ some at
      → HasAtMost entry.authentication_error_count
          (registered (to_set configured) entry.device_ids)
          r.state.devices
      → get id (register_account id provider configured r).accounts
        ≡ some (record {
          provider = provider;
          configured_device_ids =
              if is_empty (to_set configured) then none else some (to_set configured);
          device_ids = registered (to_set configured) entry.device_ids;
          next_discovery_at = at;
          authentication_error_count = entry.authentication_error_count;
        })
  unfolding register_account first_discovery
  register-known id at provider configured r entry found next few =
      let ids = registered (to_set configured) entry.device_ids in
      let n = entry.authentication_error_count in
      let devices = foldl (λ m id'. ensure_device e.null id' m) r.state.devices ids in
      let least : max_of (most_errors devices ids) n ≡ n = ground (
        arith,
        most_errors-le n ids devices
            (ensure_devices-HasAtMost e.null n ids ids r.state.devices few),
      ) in
      rw found (rw next (get-insert id id _ r.accounts ∙ ground (arith, eq_iff id id, least)))

  -- An account whose provider failed is registered again by a runtime that has loaded what the tracking
  -- state has of the account and of the devices after the failure, whatever events and times of saving
  -- were added. The number of errors and the time of the next try, if that was in range, are those from
  -- after the failure, and the devices are the configured ones, or those from before where none are
  -- configured. A configured device that the account did not have must not have more errors than the
  -- account.
  pub restart_keeps_back_off :
      (id : String) (now at : e.I) (x : ProviderError) (account : AccountRuntime e.I e.P)
      (provider : e.P) (configured : List String) (s r : Runtime e)
      → get id s.accounts ≡ some account
      → after_seconds e.chrono now
          (retry_interval_seconds (saturating_add u32_max account.authentication_error_count 1))
        ≡ ok at
      → ((j : String) (d : DeviceTrackingState e.F e.I e.J)
          → contains j (to_set configured) ≡ true
          → contains j account.device_ids ≡ false
          → get j s.state.devices ≡ some d
          → d.authentication_error_count
            ≤ saturating_add u32_max account.authentication_error_count 1)
      → get id r.state.accounts ≡ get id (account_failed id now x s).1.state.accounts
      → r.state.devices ≡ (account_failed id now x s).1.state.devices
      → get id (register_account id provider configured r).accounts
        ≡ some (record {
          provider = provider;
          configured_device_ids =
              if is_empty (to_set configured) then none else some (to_set configured);
          device_ids = registered (to_set configured) account.device_ids;
          next_discovery_at = at;
          authentication_error_count = saturating_add u32_max account.authentication_error_count 1;
        })
  restart_keeps_back_off id now at x account provider configured s r found in_range few loaded
        devices =
      let n = saturating_add u32_max account.authentication_error_count 1 in
      let ids = account.device_ids in
      let kept = account_failed-HasKept id now at x account s found in_range in
      let entry : AccountTrackingState e.I = record {
        device_ids = ids;
        authentication_error_count = n;
        next_discovery_at = some at;
      } in
      let changed = change_devices ids (hold n at) s.state in
      register-known id at provider configured r entry
        (loaded
          ∙ ap (get id) kept.2
          ∙ ground (arith, eq_iff id id, get-insert id id entry changed.accounts))
        refl (rw (devices ∙ kept.1) (held-HasAtMost n at (to_set configured) ids s.state few))
