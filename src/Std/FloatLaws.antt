-- ===== src/Std/FloatLaws.antt =====
-- Consequences of the laws of `f64` for the checks that the program makes.
use icloud_location.Prelude.{◌≡◌, true, false, arith}
use icloud_location.Std.Float.{Float, IsFloat, is_invalid, is_not_positive}

module _ {F : Type 0} (f : Float F) (laws : IsFloat f) where
  open laws use {finite-decimal, lt-eq-not-le, le_total}

  -- A value that passes `!x.is_finite() || x < 0.0` is finite and at least 0.
  pub valid_bounds :
      (x : F) → is_invalid f x ≡ false → (f.is_finite x ≡ true) × (f.le (f.decimal 0 0) x ≡ true)
  valid_bounds x h =
      ground (arith, lt-eq-not-le x (f.decimal 0 0), finite-decimal 0 0, le_total x (f.decimal 0 0))

  -- So is one that passes `!x.is_finite() || x <= 0.0`.
  pub positive_bounds :
      (x : F)
      → is_not_positive f x ≡ false
      → (f.is_finite x ≡ true) × (f.le (f.decimal 0 0) x ≡ true)
  positive_bounds x h = ground (arith, finite-decimal 0 0, le_total x (f.decimal 0 0))

  -- Where `x < l` fails for finite values, `l <= x`.
  pub le_of_not_lt :
      (x l : F) → f.is_finite x ≡ true → f.is_finite l ≡ true → f.lt x l ≡ false → f.le l x ≡ true
  le_of_not_lt x l p q h = ground (arith, lt-eq-not-le x l, le_total x l)

  pub le_of_lt :
      (x l : F) → f.is_finite x ≡ true → f.is_finite l ≡ true → f.lt x l ≡ true → f.le x l ≡ true
  le_of_lt x l p q h = ground (arith, lt-eq-not-le x l, le_total x l)
