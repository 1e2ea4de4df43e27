-- ===== src/Runtime/Visits.antt =====
-- How the accounts of a tick of src/runtime.rs are asked one after the other.
use icloud_location.Prelude.{◌≡◌, ◌≢◌, ◌⊎◌, inl, refl, true, List, [], ◌∷◌, String, inr}
use icloud_location.Std.Result.{Result, ok, err, panic}
use icloud_location.Core.{ProviderError, DeviceSnapshot}
use icloud_location.Runtime.Defs.{Env, Runtime, RuntimeError, AccountRuntime}
use icloud_location.Runtime.Action.{Action, continue}
use icloud_location.Runtime.Refresh.Apply.{apply_account_refresh}
use icloud_location.Runtime.Tick.{refresh_account, account_failed, only_device, wanted}

module _ (e : Env) where
  -- The answer of the provider that an account is asked from.
  abbrev pub answer_of :
      AccountRuntime e.I e.P
      → Runtime e
      → Result ProviderError (List (DeviceSnapshot e.F e.I e.J)) × e.W
  answer_of account s =
      e.locate account.provider
        (record { family = true; selected_device = only_device account.configured_device_ids })
        s.world

  -- One account was asked, and the runtime went on: it noted the failure of the provider, or took in
  -- what the provider answered.
  abbrev pub Visit : e.I → (String × AccountRuntime e.I e.P) → Runtime e → Runtime e → Type 0
  Visit now (id, account) s s1 =
      let (answer, w) = answer_of account s in
      let asked : Runtime e = record s { world = w } in
      ((x : ProviderError) × (answer ≡ err x) × (account_failed id now x asked ≡ (ok tt, s1)))
      ⊎ ((snapshots : List (DeviceSnapshot e.F e.I e.J)) × (answer ≡ ok snapshots)
          × (apply_account_refresh id (wanted account.configured_device_ids snapshots) now asked
              ≡ (ok tt, s1)))

  -- All accounts were asked, one after the other.
  abbrev pub Visited : e.I → List (String × AccountRuntime e.I e.P) → Runtime e → Runtime e → Type 0
  Visited now [] s s' = s' ≡ s
  Visited now (entry ∷ entries) s s' =
      (s1 : Runtime e) × Visit now entry s s1 × Visited now entries s1 s'

  abbrev pub Outcome : Type 0
  Outcome = Result RuntimeError (Unit {0}) × Runtime e

  -- What the provider of an account answered, which was no error, could not be taken in.
  abbrev pub Halt : e.I → (String × AccountRuntime e.I e.P) → Runtime e → Outcome → Type 0
  Halt now (id, account) s r =
      ((x : ProviderError) → (answer_of account s).0 ≢ err x)
      × (refresh_account now (id, account) s ≡ r)
      × (r.0 ≢ ok tt)

  -- The accounts were asked up to one with such an answer.
  abbrev pub Halted : e.I → List (String × AccountRuntime e.I e.P) → Runtime e → Outcome → Type 0
  Halted now [] s r = ⊥
  Halted now (entry ∷ entries) s r =
      Halt now entry s r ⊎ ((s1 : Runtime e) × Visit now entry s s1 × Halted now entries s1 r)

module _ {e : Env} where
  -- What follows an error is not done.
  pub continue-stops :
      (r : Result RuntimeError (Unit {0})) (k : Unit {0} → Action e (Unit {0})) (s : Runtime e)
      → r ≢ ok tt
      → continue r k s ≡ (r, s)
  continue-stops (ok u) k s h = absurd (h refl)
  continue-stops (err x) k s h = refl
  continue-stops panic k s h = refl

  pub Halted-failed :
      (now : e.I) (entries : List (String × AccountRuntime e.I e.P)) (s : Runtime e) (r : Outcome e)
      → Halted e now entries s r
      → r.0 ≢ ok tt
  Halted-failed now [] s r h = absurd h
  Halted-failed now (entry ∷ entries) s r (inl halt) = halt.2
  Halted-failed now (entry ∷ entries) s r (inr (s1, visit, h)) = Halted-failed now entries s1 r h
