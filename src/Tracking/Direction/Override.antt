-- ===== src/Tracking/Direction/Override.antt =====
-- An away-from sample close to a zone is overridden at most three times in a row.
use mathlib.Core.List.{reverse, reverse-append}
use icloud_location.Prelude.{
  ℕ, zero, suc, ◌-◌, ◌≤◌, ◌≡◌, refl, true, false, ◌&&◌, List, [], ◌∷◌, ◌++◌, arith, length, drop,
  take, length-append, Bool-cases, inl, inr,
}
use icloud_location.Std.Result.{ok, ◌>>=◌, >>=-eq-ok}
use icloud_location.Std.Float.{Float}
use icloud_location.Std.Vec.{drain_above-eq-newest}
use icloud_location.Tracking.Error.{Tracked}
use icloud_location.Tracking.Direction.Defs.{
  DirectionInput, DirectionObservation, DirectionHistory, observation, record_decision, supports,
  supports_close_range_override, decide, determine_direction, validate_input,
}

abbrev Obs : Type 0
Obs = DirectionObservation

-- An observation and the next three are not all overridden.
abbrev pub IsFree : Obs → List Obs → Type 0
IsFree a (b ∷ c ∷ d ∷ r) = (a.overridden && b.overridden && c.overridden && d.overridden) ≡ false
IsFree a (b ∷ c ∷ []) = Unit
IsFree a (b ∷ []) = Unit
IsFree a [] = Unit

-- No four observations in a row are all overridden.
abbrev pub HasNoFour : List Obs → Type 0
HasNoFour [] = Unit
HasNoFour (a ∷ r) = IsFree a r × HasNoFour r

HasNoFour-drop : (n : ℕ) (xs : List Obs) → HasNoFour xs → HasNoFour (drop n xs)
HasNoFour-drop zero xs h = h
HasNoFour-drop (suc n) [] h = tt
HasNoFour-drop (suc n) (x ∷ xs) h = HasNoFour-drop n xs h.1

-- The last three of a list and one more are not all overridden.
abbrev EndsFree : List Obs → Obs → Type 0
EndsFree (a ∷ b ∷ c ∷ d ∷ r) o = EndsFree (b ∷ c ∷ d ∷ r) o
EndsFree (a ∷ b ∷ c ∷ []) o = (a.overridden && b.overridden && c.overridden && o.overridden) ≡ false
EndsFree (a ∷ b ∷ []) o = Unit
EndsFree (a ∷ []) o = Unit
EndsFree [] o = Unit

HasNoFour-snoc :
    (xs : List Obs) (o : Obs) → HasNoFour xs → EndsFree xs o → HasNoFour (xs ++ (o ∷ []))
HasNoFour-snoc (a ∷ b ∷ c ∷ d ∷ r) o h e = (h.0, HasNoFour-snoc (b ∷ c ∷ d ∷ r) o h.1 e)
HasNoFour-snoc (a ∷ b ∷ c ∷ []) o h e = (e, (tt, (tt, (tt, tt))))
HasNoFour-snoc (a ∷ b ∷ []) o h e = (tt, (tt, (tt, tt)))
HasNoFour-snoc (a ∷ []) o h e = (tt, (tt, tt))
HasNoFour-snoc [] o h e = (tt, tt)

take_three-append : (xs : List Obs) (y : Obs) → 3 ≤ length xs → take 3 (xs ++ (y ∷ [])) ≡ take 3 xs
take_three-append (a ∷ b ∷ c ∷ r) y h = refl
take_three-append (a ∷ b ∷ []) y h = absurd (omega arith)
take_three-append (a ∷ []) y h = absurd (omega arith)
take_three-append [] y h = absurd (omega arith)

length-reverse : (xs : List Obs) → length (reverse xs) ≡ length xs
length-reverse [] = refl
length-reverse (x ∷ xs) =
    rw (reverse-append (x ∷ []) xs)
      (omega (arith, length-append (reverse xs) (x ∷ []), length-reverse xs))

take-reverse :
    (a : Obs) (s : List Obs) → 3 ≤ length s → take 3 (reverse (a ∷ s)) ≡ take 3 (reverse s)
take-reverse a s h =
    rw (reverse-append (a ∷ []) s)
      (take_three-append (reverse s) a (omega (arith, length-reverse s)))

-- If the newest three observations support an override, they end free.
supports-EndsFree :
    (xs : List Obs) (o : Obs) → supports (take 3 (reverse xs)) ≡ true → EndsFree xs o
unfolding supports
supports-EndsFree (a ∷ b ∷ c ∷ d ∷ r) o h =
    supports-EndsFree (b ∷ c ∷ d ∷ r) o (rw (take-reverse a (b ∷ c ∷ d ∷ r) (omega arith)) at h)
supports-EndsFree (a ∷ b ∷ c ∷ []) o h = ground arith
supports-EndsFree (a ∷ b ∷ []) o h = tt
supports-EndsFree (a ∷ []) o h = tt
supports-EndsFree [] o h = tt

not-EndsFree : (xs : List Obs) (o : Obs) → o.overridden ≡ false → EndsFree xs o
not-EndsFree (a ∷ b ∷ c ∷ d ∷ r) o h = not-EndsFree (b ∷ c ∷ d ∷ r) o h
not-EndsFree (a ∷ b ∷ c ∷ []) o h = ground arith
not-EndsFree (a ∷ b ∷ []) o h = tt
not-EndsFree (a ∷ []) o h = tt
not-EndsFree [] o h = tt

module _ {F : Type 0} (f : Float F) where
  -- One sample: the direction is determined and recorded.
  unfoldable pub observe_direction : DirectionHistory → DirectionInput F → Tracked DirectionHistory
  observe_direction h input = do
    decision ← determine_direction f input h
    ok (record_decision h decision)

  -- A run of samples; an invalid sample ends it with an error.
  unfoldable pub observe_all : DirectionHistory → List (DirectionInput F) → Tracked DirectionHistory
  observe_all h [] = ok h
  observe_all h (input ∷ inputs) = do h' ← observe_direction h input; observe_all h' inputs

  record-HasNoFour :
      (h : DirectionHistory) (input : DirectionInput F)
      → HasNoFour h.observations
      → HasNoFour (record_decision h (decide f input h)).observations
  unfolding record_decision decide supports_close_range_override
  record-HasNoFour h input free =
      let obs = h.observations in
      let o = observation (decide f input h) in
      let all = obs ++ (o ∷ []) in
      let ends : EndsFree obs o = elim (Bool-cases (supports (take 3 (reverse obs)))) [
        | inl s ↦ supports-EndsFree obs o s
        | inr s ↦ not-EndsFree obs o (ground (arith, s))
      ] in
      rw (drain_above-eq-newest 30 all)
        (HasNoFour-drop (length all - 30) all (HasNoFour-snoc obs o free ends))

  observe_direction-eq :
      (h : DirectionHistory) (input : DirectionInput F) {h' : DirectionHistory}
      → observe_direction h input ≡ ok h'
      → h' ≡ record_decision h (decide f input h)
  unfolding observe_direction determine_direction validate_input
  observe_direction-eq h input e = ground arith

  -- However many samples are determined and recorded, no four observations in a row come to be
  -- overridden.
  pub observe_all-HasNoFour :
      (inputs : List (DirectionInput F)) (h : DirectionHistory) {h' : DirectionHistory}
      → HasNoFour h.observations
      → observe_all h inputs ≡ ok h'
      → HasNoFour h'.observations
  unfolding observe_all
  observe_all-HasNoFour [] h {h'} free e = let same : h ≡ h' = cc in rw (← same) free
  observe_all-HasNoFour (input ∷ inputs) h free e =
      let (h1, step, rest) =
        >>=-eq-ok (observe_direction h input) (λ h1. observe_all h1 inputs) e in
      let kept : HasNoFour h1.observations =
        rw (observe_direction-eq h input step) (record-HasNoFour h input free) in
      observe_all-HasNoFour inputs h1 kept rest
