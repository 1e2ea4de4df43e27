-- ===== src/Tracking/Direction/History.antt =====
-- The history keeps the newest 30 decisions.
use mathlib.Core.List.{foldl}
use icloud_location.Prelude.{◌≤◌, ◌≡◌, refl, List, [], ◌∷◌, arith, length, map, ◌∙◌}
use icloud_location.Std.Vec.{newest, push_bounded, length-newest, foldl-push_bounded}
use icloud_location.Tracking.Direction.Defs.{
  DirectionDecision, DirectionHistory, observation, record_decision, empty_history,
}

-- Recording decisions is a run of bounded pushes.
foldl-record_decision :
    (ds : List DirectionDecision) (h : DirectionHistory)
    → (foldl record_decision h ds).observations
      ≡ foldl (push_bounded 30) h.observations (map observation ds)
unfolding record_decision
foldl-record_decision [] h = refl
foldl-record_decision (d ∷ ds) h = foldl-record_decision ds (record_decision h d)

-- After any number of recorded decisions the history holds the newest 30 of them, in their order.
pub history_keeps_newest :
    (ds : List DirectionDecision)
    → let seen = (foldl record_decision empty_history ds).observations in
      (seen ≡ newest 30 (map observation ds)) × (length seen ≤ 30)
history_keeps_newest ds =
    let e =
      foldl-record_decision ds empty_history
      ∙ foldl-push_bounded 30 (map observation ds) [] (omega arith) in
    (e, rw e (length-newest 30 (map observation ds)))
