-- ===== src/Runtime/Stopping.antt =====
-- The end of the loop of src/runtime.rs.
use icloud_location.Prelude.{◌≡◌, refl, ap, subst, Bool, true, false, some, List, [], ◌∷◌}
use icloud_location.Std.Result.{Result, ok, err, panic}
use icloud_location.Tracking.Error.{TrackingError}
use icloud_location.Tracking.State.Events.{TrackingState}
use icloud_location.Runtime.Defs.{Env, Runtime}
use icloud_location.Runtime.Action.{as_runtime, persist_at, save_state}
use icloud_location.Runtime.Requesting.{continue-eq-ok}
use icloud_location.Runtime.Tick.{tick, run, Wake, timer, changed, closed, shut_down}

module _ (e : Env) where
  -- The last thing that was done outside is that this tracking state was saved, and the save succeeded.
  abbrev pub IsSaved : Runtime e → Type 0
  IsSaved s = (w : e.W) × (e.save s.state w ≡ (ok tt, s.world))

as_runtime-eq-ok :
    (r : Result TrackingError (Unit {0})) (u : Unit {0}) → as_runtime r ≡ ok u → r ≡ ok tt
as_runtime-eq-ok (ok v) u h = refl
as_runtime-eq-ok (err x) u h = absurd cc
as_runtime-eq-ok panic u h = absurd cc

module _ {e : Env} where
  shut_down-IsSaved : (s s' : Runtime e) → shut_down s ≡ (ok true, s') → IsSaved e s'
  unfolding persist_at save_state
  shut_down-IsSaved s s' h =
      let (now, w) = e.now s.world in
      let t : TrackingState e.F e.I e.J = record s.state { saved_at = some now } in
      let (r, w') = e.save t w in
      let s2 : Runtime e = record s { state = t; world = w' } in
      let (u, saved, done) = continue-eq-ok (as_runtime r) _ s2 s' true h in
      subst (IsSaved e) (ap (λ x. x.1) done)
        (w, ap (λ (z : Result TrackingError (Unit {0})). (z, w')) (as_runtime-eq-ok r u saved))

  -- Where the loop of `run` ends by the shutdown channel, the tracking state that it leaves has been
  -- saved: the save is the last thing that it does outside, and has succeeded.
  pub run-IsSaved :
      (stop : Bool) (wakes : List Wake) (s s' : Runtime e)
      → run stop wakes s ≡ (ok true, s')
      → IsSaved e s'
  unfolding run
  run-IsSaved true wakes s s' h = shut_down-IsSaved s s' h
  run-IsSaved false [] s s' h = absurd cc
  run-IsSaved false (timer next ∷ wakes) s s' h =
      let (now, w) = e.now s.world in
      let (r, s1) = tick now (record s { world = w }) in
      let (u, ticked, rest) = continue-eq-ok r _ s1 s' true h in run-IsSaved next wakes s1 s' rest
  run-IsSaved false (changed next ∷ wakes) s s' h = run-IsSaved next wakes s s' h
  run-IsSaved false (closed ∷ wakes) s s' h = shut_down-IsSaved s s' h
