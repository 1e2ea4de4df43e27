-- ===== src/Runtime/Requesting.antt =====
-- Requests of src/runtime.rs for an external location.
use icloud_location.Prelude.{
  ◌≡◌, ◌∙◌, refl, sym, ap, Bool, true, false, not, ◌⊎◌, ◌||◌, Option, some, List, [], ◌∷◌, All,
  String, ℕ, arith, inl, inr, unwrap_or, if◌then◌else◌, eq_iff,
}
use icloud_location.Std.Result.{Result, ok, err, panic}
use icloud_location.Std.TreeMap.{get, get-insert}
use icloud_location.Core.{ProviderError}
use icloud_location.Tracking.External.Defs.{
  new_source, is_healthy, can_request, record_request, record_error,
}
use icloud_location.Runtime.Defs.{Env, Runtime, RuntimeError}
use icloud_location.Runtime.Action.{Action, pure, call, continue, on_state, persist_at, save_state}
use icloud_location.Runtime.Config.{chrono_duration}
use icloud_location.Runtime.External.{request_external_location, on_source, requested, send_request}

module _ (e : Env) where
  -- A call of `request_external_location` for a source.
  pub record Call : Type 0 where
    pub device : String
    pub ask : String → e.W → Result ProviderError (Unit {0}) × e.W
    pub alive : ℕ
    pub throttle : ℕ
    pub now : e.I

module _ {e : Env} where
  pub continue-eq-ok :
      {A B : Type 0} (r : Result RuntimeError A) (k : A → Action e B) (s s' : Runtime e) (b : B)
      → continue r k s ≡ (ok b, s')
      → (a : A) × (r ≡ ok a) × (k a s ≡ (ok b, s'))
  continue-eq-ok (ok a) k s s' b h = (a, refl, h)
  continue-eq-ok (err x) k s s' b h = absurd cc
  continue-eq-ok panic k s s' b h = absurd cc

  -- The time of the last request of a source.
  abbrev asked_at : String → Runtime e → Option e.I
  asked_at source s =
      (unwrap_or (get source s.state.external_source_health) new_source).last_request_at

  requested-asked :
      (source : String) (now : e.I) (r : ProviderError ⊎ Unit {0}) (s s' : Runtime e)
      → requested source now r s ≡ (ok true, s')
      → asked_at source s' ≡ asked_at source s
  unfolding persist_at save_state
  requested-asked source now (inl x) s s' h =
      let (r, s2) = persist_at now (on_state (on_source source record_error) s).1 in
      let (a, saved, done) = continue-eq-ok r _ s2 s' true h in absurd cc
  requested-asked source now (inr u) s s' h =
      let (r, s2) = persist_at now s in
      let (a, saved, done) = continue-eq-ok r _ s2 s' true h in
      sym (ap (λ x. asked_at source x.1) done)

  send_request-asked :
      (source device : String) (ask : String → e.W → Result ProviderError (Unit {0}) × e.W)
      (now : e.I) (s s' : Runtime e)
      → send_request source device ask now s ≡ (ok true, s')
      → asked_at source s' ≡ some now
  unfolding send_request record_request
  send_request-asked source device ask now s s' h =
      let s1 = (on_state (on_source source (record_request now)) s).1 in
      let (r, s2) = call (ask device) s1 in
      let (answer, called, sent) = continue-eq-ok r (requested source now) s2 s' true h in
      let health = unwrap_or (get source s.state.external_source_health) new_source in
      requested-asked source now answer s2 s' sent
      ∙ ground (
        arith,
        eq_iff source source,
        get-insert source source (record_request now health) s.state.external_source_health,
      )

  if-sent :
      (quiet : Bool) (m : Action e Bool) (s s' : Runtime e)
      → (if quiet then pure false else m) s ≡ (ok true, s')
      → m s ≡ (ok true, s')
  if-sent true m s s' h = absurd cc
  if-sent false m s s' h = h

  -- A request that was sent is recorded with its time.
  request_sent :
      (source device : String) (ask : String → e.W → Result ProviderError (Unit {0}) × e.W)
      (alive throttle : ℕ) (now : e.I) (s s' : Runtime e)
      → request_external_location source device ask alive throttle now s ≡ (ok true, s')
      → asked_at source s' ≡ some now
  unfolding request_external_location
  request_sent source device ask alive throttle now s s' h =
      let (alive_interval, a1, h1) =
        continue-eq-ok (chrono_duration e.chrono alive) _ s s' true h in
      let (request_throttle, a2, h2) =
        continue-eq-ok (chrono_duration e.chrono throttle) _ s s' true h1 in
      send_request-asked source device ask now (on_state (on_source source (λ x. x)) s).1 s'
        (if-sent _ (send_request source device ask now) _ s' h2)

  if-quiet :
      (quiet : Bool) (m : Action e Bool) (s : Runtime e)
      → quiet ≡ true
      → (if quiet then pure false else m) s ≡ (ok false, s)
  if-quiet true m s h = refl
  if-quiet false m s h = absurd cc

  abbrev pub request : String → Call e → Action e Bool
  request source c = request_external_location source c.device c.ask c.alive c.throttle c.now

  -- The durations of the call are in range, and its throttle has not passed since a time.
  abbrev pub IsEarly : e.I → Call e → Type 0
  IsEarly asked c =
      (a : e.D) × (t : e.D) × (e.chrono.from_std c.alive ≡ inr a)
      × (e.chrono.from_std c.throttle ≡ inr t)
      × (e.chrono.shorter (e.chrono.since c.now asked) t ≡ true)

  -- Each call, one after the other, answers false and does nothing outside.
  abbrev pub AreRefused : String → List (Call e) → Runtime e → Type 0
  AreRefused source [] s = Unit
  AreRefused source (c ∷ cs) s =
      let r = request source c s in
      (r.0 ≡ ok false) × (r.1.world ≡ s.world) × AreRefused source cs r.1

  early-refused :
      (source : String) (asked : e.I) (c : Call e) (s : Runtime e)
      → asked_at source s ≡ some asked
      → IsEarly asked c
      → let r = request source c s in
        (r.0 ≡ ok false) × (r.1.world ≡ s.world) × (asked_at source r.1 ≡ some asked)
  unfolding request_external_location chrono_duration can_request
  early-refused source asked c s last (a, t, alive_ok, throttle_ok, early) =
      let s1 = (on_state (on_source source (λ x. x)) s).1 in
      let health = unwrap_or (get source s1.state.external_source_health) new_source in
      let same : health.last_request_at ≡ some asked = ground (
        arith,
        eq_iff source source,
        get-insert source source (unwrap_or (get source s.state.external_source_health) new_source)
            s.state.external_source_health,
        last,
      ) in
      let quiet : (is_healthy e.chrono c.now a health || not (can_request e.chrono c.now t health))
          ≡ true =
        ground (arith, same, early) in
      let done = if-quiet _ (send_request source c.device c.ask c.now) s1 quiet in
      rw alive_ok (
        rw throttle_ok
          (ap (λ r. r.0) done, ap (λ r. r.1.world) done, ap (λ r. asked_at source r.1) done ∙ same))

  calls-refused :
      (source : String) (asked : e.I) (cs : List (Call e)) (s : Runtime e)
      → asked_at source s ≡ some asked
      → All (IsEarly asked) cs
      → AreRefused source cs s
  calls-refused source asked [] s last h = tt
  calls-refused source asked (c ∷ cs) s last (early, h) =
      let (answer, world, last') = early-refused source asked c s last early in
      (answer, world, calls-refused source asked cs (request source c s).1 last' h)

  -- After a request to a source that was sent, every call in a row of calls for the source answers false
  -- and does nothing outside, for whatever device, if no other operation comes between them and each
  -- of them comes before its throttle has passed since the request, with durations in range.
  pub request_throttled :
      (source : String) (first_call : Call e) (calls : List (Call e)) (s s' : Runtime e)
      → request source first_call s ≡ (ok true, s')
      → All (IsEarly first_call.now) calls
      → AreRefused source calls s'
  request_throttled source first_call calls s s' sent early =
      calls-refused source first_call.now calls s'
        (request_sent source first_call.device first_call.ask first_call.alive first_call.throttle
          first_call.now s s' sent)
        early
