-- ===== src/Tracking/Interval/Distance.antt =====
-- `distance_interval` gives a bounded interval at every valid distance, and `determine` a decision at
-- every valid context without a travel time of Waze.
use icloud_location.Prelude.{
  ℕ, ◌+◌, ◌*◌, ◌^◌, ◌≤◌, ◌<◌, ◌≡◌, refl, Bool, true, false, inl, inr, arith, Bool-cases,
}
use icloud_location.Std.Result.{ok, err, panic}
use icloud_location.Std.Float.{Float, IsFloat, is_invalid}
use icloud_location.Std.FloatLaws.{valid_bounds, le_of_not_lt}
use icloud_location.Tracking.Error.{Tracked}
use icloud_location.Tracking.Interval.Defs.{
  Direction, IntervalDecision, distance_interval, distance_ladder, driving_seconds,
}

-- A decision from 15 seconds to an hour.
abbrev InRange : Tracked IntervalDecision → Type 0
InRange (ok s) = (15 ≤ s.seconds) × (s.seconds ≤ 3600)
InRange (err e) = ⊥
InRange panic = ⊥

InRange-ok :
    (r : Tracked IntervalDecision)
    → InRange r
    → (s : IntervalDecision) × (r ≡ ok s) × (15 ≤ s.seconds) × (s.seconds ≤ 3600)
InRange-ok (ok s) h = (s, refl, h.0, h.1)
InRange-ok (err e) h = absurd h
InRange-ok panic h = absurd h

module _ {F : Type 0} (f : Float F) (laws : IsFloat f) where
  open laws use {
    finite-decimal, le-decimal, lt-eq-not-le, le_trans, finite_between, mul_mono, mul-decimal-le,
    decimal-le-mul, round_mono, round-decimal, try_from_secs_between,
  }

  -- A product with a literal lies between two whole numbers if the other factor does.
  mul_between :
      (x : F) (a b n k p q : ℕ)
      → k ≤ 6
      → p < 2 ^ 32
      → q < 2 ^ 32
      → f.le (f.decimal a 0) x ≡ true
      → f.le x (f.decimal b 0) ≡ true
      → p * (10 ^ 0 * 10 ^ k) + 10 ^ 0 * 10 ^ k ≤ a * n
      → b * n + 10 ^ 0 * 10 ^ k ≤ q * (10 ^ 0 * 10 ^ k)
      → (f.le (f.decimal p 0) (f.mul x (f.decimal n k)) ≡ true)
        × (f.le (f.mul x (f.decimal n k)) (f.decimal q 0) ≡ true)
  mul_between x a b n k p q hk hp hq lo hi below above =
      let z = f.decimal n k in
      let finite = finite_between _ x _ (finite-decimal a 0) (finite-decimal b 0) lo hi in
      let nonneg = le-decimal 0 0 n k (omega arith) hk (omega arith) in
      (
        le_trans _ (f.mul (f.decimal a 0) z) _ (decimal-le-mul a 0 n k p (omega arith) hk hp below)
            (mul_mono _ x z (finite-decimal a 0) finite (finite-decimal n k) nonneg lo),
        le_trans _ (f.mul (f.decimal b 0) z) _
            (mul_mono x _ z finite (finite-decimal b 0) (finite-decimal n k) nonneg hi)
            (mul-decimal-le b 0 n k q (omega arith) hk hq above),
      )

  -- The driving time from 40 to 150 kilometers lies between 599 and 2941 seconds.
  driving_seconds_bounds :
      (d : F)
      → f.le (f.decimal 40 0) d ≡ true
      → f.le d (f.decimal 150 0) ≡ true
      → (f.le (f.decimal 599 0) (driving_seconds f d) ≡ true)
        × (f.le (driving_seconds f d) (f.decimal 2941 0) ≡ true)
  unfolding driving_seconds
  driving_seconds_bounds d lo hi =
      let miles = f.mul d (f.decimal 621371 6) in
      let half = f.mul miles (f.decimal 5 1) in
      let (m, m') =
        mul_between d 40 150 621371 6 23 95 (omega arith) (omega arith) (omega arith) lo hi
          (omega arith) (omega arith) in
      let (h, h') =
        mul_between miles 23 95 5 1 10 49 (omega arith) (omega arith) (omega arith) m m'
          (omega arith) (omega arith) in
      let r = rw (round-decimal 10 (omega arith)) at (round_mono _ half h) in
      let r' = rw (round-decimal 49 (omega arith)) at (round_mono half _ h') in
      mul_between (f.round_ties_even half) 10 49 60 0 599 2941 (omega arith) (omega arith)
        (omega arith) r r' (omega arith) (omega arith)

  -- Between 40 and 150 kilometers the driving time becomes an interval.
  calculated_seconds :
      (d : F)
      → f.is_finite d ≡ true
      → f.lt d (f.decimal 40 0) ≡ false
      → f.lt (f.decimal 150 0) d ≡ false
      → (s : ℕ) × (f.try_from_secs (driving_seconds f d) ≡ inr s) × (599 ≤ s) × (s ≤ 2941)
  calculated_seconds d finite near far =
      let (lo, hi) =
        driving_seconds_bounds d (le_of_not_lt f laws d _ finite (finite-decimal 40 0) near)
          (le_of_not_lt f laws _ d (finite-decimal 150 0) finite far) in
      try_from_secs_between _ 599 2941 (omega arith) lo hi

  distance_ladder-InRange :
      (d : F) (beyond : Bool) → f.is_finite d ≡ true → InRange (distance_ladder f d beyond)
  unfolding distance_ladder
  distance_ladder-InRange d beyond finite = elim (Bool-cases (f.lt d (f.decimal 40 0))) [
    | inl near ↦ ground arith
    | inr out ↦ elim (Bool-cases (f.lt (f.decimal 150 0) d)) [
      | inl far ↦ ground arith
      | inr within ↦
          let (s, e, lo, hi) = calculated_seconds d finite out within in ground (arith, e)
    ]
  ]

  -- Every finite distance of at least 0 gets an interval, from 15 seconds to an hour, whatever the
  -- direction.
  pub distance_interval_total :
      (d : F) (direction : Direction) (beyond : Bool)
      → is_invalid f d ≡ false
      → (s : IntervalDecision) × (distance_interval f d direction beyond ≡ ok s)
        × (15 ≤ s.seconds)
        × (s.seconds ≤ 3600)
  unfolding distance_interval
  distance_interval_total d direction beyond valid =
      let (finite, nonneg) = valid_bounds f laws d valid in
      let ladder = distance_ladder-InRange d beyond finite in InRange-ok _ (ground arith)

  -- `x <= y` and `y < l` give `x < l`.
  lt_of_le :
      (x y : F) (n k : ℕ)
      → f.is_finite x ≡ true
      → f.is_finite y ≡ true
      → f.le x y ≡ true
      → f.lt y (f.decimal n k) ≡ true
      → f.lt x (f.decimal n k) ≡ true
  lt_of_le x y n k p q h lt =
      let l = f.decimal n k in
      ground (
        arith,
        lt-eq-not-le x l p (finite-decimal n k),
        lt-eq-not-le y l q (finite-decimal n k),
        le_trans l x y,
      )

  -- Below 40 kilometers, and unless the device has come back from beyond three kilometers, a larger
  -- distance never gets a shorter interval.
  pub distance_interval_mono :
      (x y : F) (direction : Direction) {a b : IntervalDecision}
      → f.le x y ≡ true
      → f.lt y (f.decimal 40 0) ≡ true
      → distance_interval f x direction false ≡ ok a
      → distance_interval f y direction false ≡ ok b
      → a.seconds ≤ b.seconds
  unfolding distance_interval distance_ladder
  distance_interval_mono x y direction h near p q = elim (Bool-cases (is_invalid f x)) [
    | inl bad ↦ ground arith
    | inr good ↦ elim (Bool-cases (is_invalid f y)) [
      | inl bad' ↦ ground arith
      | inr good' ↦
          let (fx, nx) = valid_bounds f laws x good in
          let (fy, ny) = valid_bounds f laws y good' in
          ground (
            arith,
            lt_of_le x y 2 0 fx fy h,
            lt_of_le x y 35 1 fx fy h,
            lt_of_le x y 5 0 fx fy h,
            lt_of_le x y 8 0 fx fy h,
            lt_of_le x y 12 0 fx fy h,
            lt_of_le x y 20 0 fx fy h,
            lt_of_le x y 40 0 fx fy h,
          )
    ]
  ]
