-- ===== src/Runtime/Failing.antt =====
-- Accounts whose provider fails: src/runtime.rs.
use icloud_location.Prelude.{◌≡◌, ◌∙◌, refl, ap, true, not, some, String, arith, eq_iff}
use icloud_location.Std.Result.{Result, ok, err, panic}
use icloud_location.Std.Words.{u32_max, saturating_add}
use icloud_location.Std.TreeMap.{get, insert, get-insert, contains}
use icloud_location.Core.{
  ProviderError, ProviderErrorKind, authentication, unavailable, other, TrackingEvent,
}
use icloud_location.Tracking.Interval.Defs.{retry_interval_seconds}
use icloud_location.Tracking.State.Events.{record_event}
use icloud_location.Runtime.Defs.{Env, Runtime, RuntimeError, AccountRuntime, Device}
use icloud_location.Runtime.Action.{Action, emit_at, continue, handled}
use icloud_location.Runtime.Accounts.{account_is_due}
use icloud_location.Runtime.Commands.{change_devices}
use icloud_location.Runtime.Refresh.Interval.{after_seconds}
use icloud_location.Runtime.Tick.{
  account_failed, back_off, require_authentication, hold, hold_account,
}
use icloud_location.Runtime.Known.{get-change_devices}

module _ {e : Env} where
  -- The runtime has the accounts and the devices of another one, also in its tracking state.
  abbrev pub HasKept : Runtime e → Runtime e → Type 0
  HasKept s s' =
      (s'.accounts ≡ s.accounts)
      × (s'.state.devices ≡ s.state.devices)
      × (s'.state.accounts ≡ s.state.accounts)

  pub continue-HasKept :
      {A B : Type 0} (r : Result RuntimeError A) (k : A → Action e B) (s0 s : Runtime e)
      → HasKept s0 s
      → ((a : A) → HasKept s (k a s).1)
      → HasKept s0 (continue r k s).1
  continue-HasKept (ok a) k s0 s h j = ((j a).0 ∙ h.0, (j a).1 ∙ h.1, (j a).2 ∙ h.2)
  continue-HasKept (err x) k s0 s h j = h
  continue-HasKept panic k s0 s h j = h

  pub emit_at-HasKept :
      (now : e.I) (x : TrackingEvent e.I) (s : Runtime e) → HasKept s (emit_at now x s).1
  unfolding emit_at record_event
  emit_at-HasKept now x s =
      continue-HasKept (handled (e.emit x s.world).0) _ s _ (refl, refl, refl)
        λ r. (refl, refl, refl)

  require_authentication-HasKept :
      (id : String) (now : e.I) (kind : ProviderErrorKind) (s : Runtime e)
      → HasKept s (require_authentication id now kind s).1
  require_authentication-HasKept id now authentication s = emit_at-HasKept now _ s
  require_authentication-HasKept id now unavailable s = (refl, refl, refl)
  require_authentication-HasKept id now other s = (refl, refl, refl)

  -- The runtime after `back_off`.
  abbrev pub held : String → AccountRuntime e.I e.P → e.I → Runtime e → Runtime e
  held id account at s =
      let count = saturating_add u32_max account.authentication_error_count 1 in
      record s {
        accounts =
            insert id
              (record account { authentication_error_count = count; next_discovery_at = at })
              s.accounts;
        state =
            hold_account id account.device_ids count at
              (change_devices account.device_ids (hold count at) s.state);
      }

  pub back_off-eq-held :
      (id : String) (now at : e.I) (account : AccountRuntime e.I e.P) (s : Runtime e)
      → get id s.accounts ≡ some account
      → after_seconds e.chrono now
          (retry_interval_seconds (saturating_add u32_max account.authentication_error_count 1))
        ≡ ok at
      → back_off id now s ≡ (ok tt, held id account at s)
  unfolding back_off
  back_off-eq-held id now at account s found in_range = rw found (rw in_range refl)

  pub account_failed-HasKept :
      (id : String) (now at : e.I) (x : ProviderError) (account : AccountRuntime e.I e.P)
      (s : Runtime e)
      → get id s.accounts ≡ some account
      → after_seconds e.chrono now
          (retry_interval_seconds (saturating_add u32_max account.authentication_error_count 1))
        ≡ ok at
      → HasKept (held id account at s) (account_failed id now x s).1
  unfolding account_failed
  account_failed-HasKept id now at x account s found in_range =
      rw (back_off-eq-held id now at account s found in_range) (
        let s1 = held id account at s in
        continue-HasKept (require_authentication id now x.kind s1).0 _ s1 _
          (require_authentication-HasKept id now x.kind s1) λ u. emit_at-HasKept now _ _)

  -- When the provider of an account fails, its errors count one more, up to the largest `u32`, and
  -- it is due again just from the time of the next try on, which lies the retry interval of that
  -- count ahead. The devices of the account that are known wait for the same time.
  pub account_failed_backs_off :
      (id : String) (now at : e.I) (x : ProviderError) (account : AccountRuntime e.I e.P)
      (s : Runtime e)
      → get id s.accounts ≡ some account
      → after_seconds e.chrono now
          (retry_interval_seconds (saturating_add u32_max account.authentication_error_count 1))
        ≡ ok at
      → let s' = (account_failed id now x s).1 in
        (account' : AccountRuntime e.I e.P) × (get id s'.accounts ≡ some account')
        × (account'.authentication_error_count
            ≡ saturating_add u32_max account.authentication_error_count 1)
        × ((t due_before : e.I)
            → account_is_due e.chrono s'.state.devices account' t due_before
              ≡ not (e.chrono.before t at))
        × ((j : String) (d : Device e)
            → contains j account.device_ids ≡ true
            → get j s.state.devices ≡ some d
            → get j s'.state.devices
              ≡ some (hold (saturating_add u32_max account.authentication_error_count 1) at d))
  unfolding account_is_due
  account_failed_backs_off id now at x account s found in_range =
      let count = saturating_add u32_max account.authentication_error_count 1 in
      let same = account_failed-HasKept id now at x account s found in_range in
      let account' : AccountRuntime e.I e.P = record account {
        authentication_error_count = count;
        next_discovery_at = at;
      } in
      (
        account',
        ap (get id) same.0 ∙ ground (arith, get-insert id id account' s.accounts, eq_iff id id),
        refl,
        (λ t due_before. ground arith),
        λ j d member known.
            ap (get j) same.1
            ∙ ground (
              arith,
              member,
              known,
              get-change_devices j account.device_ids (hold count at) s.state (λ d'. refl),
            ),
      )
