-- ===== src/Runtime/Ticking.antt =====
-- The decision ticks of src/runtime.rs.
use icloud_location.Prelude.{
  ◌≡◌, ◌≢◌, ◌≤◌, ◌⊎◌, inl, ap, sym, subst, refl, false, Option, none, some, List, [], ◌∷◌, String,
  ℕ, arith, All, inr,
}
use icloud_location.Std.Result.{Result, ok, err, panic, Result-cases}
use icloud_location.Std.Chrono.{Chrono}
use icloud_location.Std.Filter.{filter}
use icloud_location.Std.TreeMap.{TreeMap, TreeSet, get}
use icloud_location.Core.{
  ProviderError, ProviderErrorKind, authentication, unavailable, other, TrackingEvent,
  DeviceSnapshot,
}
use icloud_location.Std.Words.{u32_max, saturating_add}
use icloud_location.Tracking.Interval.Retry.{retry_interval_mono}
use icloud_location.Tracking.Interval.Defs.{retry_interval_seconds}
use icloud_location.Tracking.State.Defs.{DeviceTrackingState}
use icloud_location.Tracking.State.Events.{TrackingState}
use icloud_location.Runtime.Defs.{Env, Runtime, AccountRuntime}
use icloud_location.Runtime.Action.{emit_at, persist_at, save_state, for_each, continue, handled}
use icloud_location.Runtime.Accounts.{account_is_due}
use icloud_location.Runtime.Config.{chrono_duration}
use icloud_location.Runtime.Refresh.Apply.{plus_or_panic, apply_account_refresh}
use icloud_location.Runtime.Refresh.Interval.{after_seconds}
use icloud_location.Runtime.Visits.{
  answer_of, Visit, Visited, Halt, Halted, continue-stops, Halted-failed,
}
use icloud_location.Runtime.Tick.{
  due_accounts, tick, refresh_account, account_failed, back_off, back_off_found,
  require_authentication, located, wanted,
}

longest : (n : ℕ) → retry_interval_seconds n ≤ 3600
longest n = (retry_interval_mono n n (omega arith)).2

module _ (e : Env) where
  -- Nothing but a provider fails: events and saves succeed, and times are in range.
  pub record IsCalm (now : e.I) : Type 0 where
    pub emits : (x : TrackingEvent e.I) (w : e.W) → (e.emit x w).0 ≡ ok tt
    pub saves : (t : TrackingState e.F e.I e.J) (w : e.W) → (e.save t w).0 ≡ ok tt
    -- The longest retry interval is an hour.
    pub times : (n : ℕ) → n ≤ 3600 → (at : e.I) × (after_seconds e.chrono now n ≡ ok at)

module _ {e : Env} {now : e.I} (calm : IsCalm e now) where
  emit_at-ok : (x : TrackingEvent e.I) (s : Runtime e) → (emit_at now x s).0 ≡ ok tt
  unfolding emit_at
  emit_at-ok x s = rw (calm.emits x s.world) refl

  persist_at-ok : (s : Runtime e) → (persist_at now s).0 ≡ ok tt
  unfolding persist_at save_state
  persist_at-ok s = rw (calm.saves (record (s.state) { saved_at = some now }) s.world) refl

  back_off_found-ok :
      (id : String) (found : Option (AccountRuntime e.I e.P)) (s : Runtime e)
      → (back_off_found id found now s).0 ≡ ok tt
  back_off_found-ok id none s = refl
  back_off_found-ok id (some account) s =
      let (at, in_range) =
        calm.times
          (retry_interval_seconds (saturating_add u32_max account.authentication_error_count 1))
          (longest (saturating_add u32_max account.authentication_error_count 1)) in
      rw in_range refl

  back_off-ok : (id : String) (s : Runtime e) → (back_off id now s).0 ≡ ok tt
  unfolding back_off
  back_off-ok id s = back_off_found-ok id (get id s.accounts) s

  require_authentication-ok :
      (id : String) (kind : ProviderErrorKind) (s : Runtime e)
      → (require_authentication id now kind s).0 ≡ ok tt
  require_authentication-ok id authentication s = emit_at-ok _ s
  require_authentication-ok id unavailable s = refl
  require_authentication-ok id other s = refl

  account_failed-ok :
      (id : String) (x : ProviderError) (s : Runtime e) → (account_failed id now x s).0 ≡ ok tt
  unfolding account_failed
  account_failed-ok id x s =
      let s1 = (back_off id now s).1 in
      rw (back_off-ok id s) (
        rw (require_authentication-ok id x.kind s1)
          (emit_at-ok _ (require_authentication id now x.kind s1).1))

module _ {e : Env} {now : e.I} (calm : IsCalm e now) where
  -- How an account fares, by the answer of its provider.
  answer_cases :
      (id : String) (configured : Option TreeSet) (s : Runtime e)
      (r : Result ProviderError (List (DeviceSnapshot e.F e.I e.J)))
      → let out = continue (handled r) (located id configured now) s in
        (((x : ProviderError) × (r ≡ err x) × (account_failed id now x s ≡ (ok tt, out.1)))
            ⊎ ((snapshots : List (DeviceSnapshot e.F e.I e.J)) × (r ≡ ok snapshots)
                × (apply_account_refresh id (wanted configured snapshots) now s ≡ (ok tt, out.1))))
          × (out.0 ≡ ok tt)
        ⊎ (((x : ProviderError) → r ≢ err x) × (out.0 ≢ ok tt))
  answer_cases id configured s (err x) =
      let done = account_failed-ok calm id x s in
      inl (inl (x, refl, ap (λ z. (z, (account_failed id now x s).1)) done), done)
  answer_cases id configured s panic = inr (λ x h. absurd cc, λ h. absurd cc)
  answer_cases id configured s (ok snapshots) =
      let out = apply_account_refresh id (wanted configured snapshots) now s in
      elim (Result-cases out.0) [
        | inl (u, done) ↦ inl (inr (snapshots, refl, ap (λ z. (z, out.1)) done), done)
        | inr (inl (x, failed)) ↦ inr (λ x' h. absurd cc, λ h. absurd cc)
        | inr (inr failed) ↦ inr (λ x' h. absurd cc, λ h. absurd cc)
      ]

  Visit-cases :
      (entry : String × AccountRuntime e.I e.P) (s : Runtime e)
      → let out = refresh_account now entry s in
        (Visit e now entry s out.1 × (out.0 ≡ ok tt)) ⊎ Halt e now entry s out
  unfolding refresh_account
  Visit-cases (id, account) s =
      let (answer, w) = answer_of e account s in
      elim (answer_cases id account.configured_device_ids (record s { world = w }) answer) [
        | inl done ↦ inl done
        | inr (no_error, failed) ↦ inr (no_error, refl, failed)
      ]

  for_each_cases :
      (entries : List (String × AccountRuntime e.I e.P)) (s : Runtime e)
      → let out = for_each entries (refresh_account now) s in
        (Visited e now entries s out.1 × (out.0 ≡ ok tt)) ⊎ Halted e now entries s out
  unfolding for_each
  for_each_cases [] s = inl (refl, refl)
  for_each_cases (entry ∷ entries) s = elim (Visit-cases entry s) [
    | inl (visit, done) ↦ rw done (elim (for_each_cases entries (refresh_account now entry s).1) [
      | inl (visited, all_done) ↦ inl ((_, visit, visited), all_done)
      | inr halted ↦ inr (inr (_, visit, halted))
    ])
    | inr (no_error, same, failed) ↦
        let out = refresh_account now entry s in
        inr (
          inl (
            subst (Halt e now entry s)
              (sym
                (continue-stops out.0 (λ u. for_each entries (refresh_account now)) out.1 failed))
              (no_error, same, failed)))
  ]

  -- No failure of a provider ends a tick, provided that events and saves succeed and times are in
  -- range. The tick asks every account that is due, one after the other, notes the failure of each
  -- provider that fails and takes in what the others answer, and then saves the state and succeeds. If
  -- it does not, it has come in this way to an account whose provider did not fail, and ends with the
  -- failure to take in the answer.
  pub tick_survives_providers :
      (s : Runtime e) (prefetch : e.D) (due_before : e.I)
      → e.chrono.from_std s.config.prefetch_window ≡ inr prefetch
      → e.chrono.plus now prefetch ≡ some due_before
      → let due =
          filter
            (λ (entry : String × AccountRuntime e.I e.P).
              account_is_due e.chrono s.state.devices entry.1 now due_before)
            s.accounts in
        ((s' : Runtime e) × Visited e now due s s' × (tick now s ≡ (ok tt, (persist_at now s').1)))
        ⊎ Halted e now due s (tick now s)
  unfolding tick due_accounts chrono_duration plus_or_panic
  tick_survives_providers s prefetch due_before window ahead =
      let due = due_accounts e.chrono now due_before s.state.devices s.accounts in
      rw window (
        rw ahead (elim (for_each_cases due s) [
          | inl (visited, done) ↦
              let s' = (for_each due (refresh_account now) s).1 in
              inl (
                s',
                visited,
                rw done (ap (λ z. (z, (persist_at now s').1)) (persist_at-ok calm s')),
              )
          | inr halted ↦
              let out = for_each due (refresh_account now) s in
              inr (
                subst (Halted e now due s)
                  (sym (
                    continue-stops out.0 (λ u. persist_at now) out.1
                      (Halted-failed now due s out halted)))
                  halted)
        ]))

module _ {F I D J P : Type 0} (c : Chrono I D) where
  no_due :
      (now due_before : I) (devices : TreeMap (DeviceTrackingState F I J))
      (accounts : TreeMap (AccountRuntime I P))
      → All
          (λ (entry : String × AccountRuntime I P).
            account_is_due c devices entry.1 now due_before ≡ false)
          accounts
      → due_accounts c now due_before devices accounts ≡ []
  unfolding due_accounts filter
  no_due now due_before devices [] h = refl
  no_due now due_before devices (entry ∷ accounts) h =
      rw h.0 (no_due now due_before devices accounts h.1)

module _ {e : Env} where
  -- A tick where no account is due asks no provider: it saves the state with its time, and that is all.
  pub tick_without_due_accounts :
      (now : e.I) (s : Runtime e) (prefetch : e.D) (due_before : e.I)
      → e.chrono.from_std s.config.prefetch_window ≡ inr prefetch
      → e.chrono.plus now prefetch ≡ some due_before
      → All
          (λ (entry : String × AccountRuntime e.I e.P).
            account_is_due e.chrono s.state.devices entry.1 now due_before ≡ false)
          s.accounts
      → tick now s ≡ persist_at now s
  unfolding tick chrono_duration plus_or_panic for_each
  tick_without_due_accounts now s prefetch due_before window ahead idle =
      rw window
        (rw ahead (rw (no_due e.chrono now due_before s.state.devices s.accounts idle) refl))
