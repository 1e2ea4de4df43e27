-- ===== src/Std/Float.antt =====
-- The type `f64` with what the program calls of it and of `std::time::Duration`.
--
-- Rust's floating-point numbers are a parameter: a type `F` with the operations below. What a
-- theorem needs of them is a hypothesis `IsFloat`, which states documented facts of IEEE 754 and of
-- `std::time::Duration` only. `Examples/Fixed.antt` has a model of the operations with its proof of
-- the hypothesis.
use Prim.Native.Nat.{Ordering}
use icloud_location.Std.Order.{IsTotal}
use icloud_location.Prelude.{
  ℕ, ◌*◌, ◌^◌, ◌+◌, ◌≤◌, ◌<◌, ◌≡◌, ◌≢◌, ◌⊎◌, inr, Bool, true, not, ◌||◌, String, Option, some,
}

pub record Float (F : Type 0) : Type 0 where
  pub is_finite : F → Bool
  -- `<` and `<=`; `a > b` is `b < a` and `a >= b` is `b <= a`, also at NaN.
  pub lt : F → F → Bool
  pub le : F → F → Bool
  -- `f64::total_cmp`.
  pub total_cmp : F → F → Ordering
  -- `==`.
  pub eq : F → F → Bool
  -- `decimal n k` is the literal n · 10^-k.
  pub decimal : ℕ → ℕ → F
  pub neg : F → F
  pub infinity : F
  pub add : F → F → F
  pub sub : F → F → F
  pub mul : F → F → F
  pub div : F → F → F
  pub min : F → F → F
  pub trunc : F → F
  pub round_ties_even : F → F
  pub to_radians : F → F
  pub sin : F → F
  pub cos : F → F
  pub sqrt : F → F
  pub atan2 : F → F → F
  pub powi : F → ℕ → F
  -- `Duration::from_secs(n).mul_f64(x).as_secs()`; `none` is its panic.
  pub mul_secs : ℕ → F → Option ℕ
  -- `Duration::try_from_secs_f64(x)` with `as_secs` of the result or the text of the error.
  pub try_from_secs : F → String ⊎ ℕ
  -- `Display`, as in `format!("{x}")`.
  pub display : F → String

-- `!x.is_finite() || x < 0.0`
abbrev pub is_invalid : {F : Type 0} → Float F → F → Bool
is_invalid f x = not (f.is_finite x) || f.lt x (f.decimal 0 0)

-- `!x.is_finite() || x <= 0.0`
abbrev pub is_not_positive : {F : Type 0} → Float F → F → Bool
is_not_positive f x = not (f.is_finite x) || f.le x (f.decimal 0 0)

pub record IsFloat {F : Type 0} (f : Float F) : Type 0 where
  -- The literals of the program have at most six places. They are finite and stand in the order of
  -- the decimal numbers that they write.
  pub finite-decimal : (n k : ℕ) → f.is_finite (f.decimal n k) ≡ true
  pub le-decimal :
      (m j n k : ℕ)
      → j ≤ 6
      → k ≤ 6
      → m * 10 ^ k ≤ n * 10 ^ j
      → f.le (f.decimal m j) (f.decimal n k) ≡ true
  -- On finite values `<=` is a total order, and `<` its strict part.
  pub lt-eq-not-le :
      (x y : F) → f.is_finite x ≡ true → f.is_finite y ≡ true → f.lt x y ≡ not (f.le y x)
  pub le_total :
      (x y : F)
      → f.is_finite x ≡ true
      → f.is_finite y ≡ true
      → (f.le x y ≡ true) ⊎ (f.le y x ≡ true)
  pub le_trans : (x y z : F) → f.le x y ≡ true → f.le y z ≡ true → f.le x z ≡ true
  pub finite_between :
      (x y z : F)
      → f.is_finite x ≡ true
      → f.is_finite z ≡ true
      → f.le x y ≡ true
      → f.le y z ≡ true
      → f.is_finite y ≡ true
  -- Products are rounded monotonically.
  pub mul_mono :
      (x y z : F)
      → f.is_finite x ≡ true
      → f.is_finite y ≡ true
      → f.is_finite z ≡ true
      → f.le (f.decimal 0 0) z ≡ true
      → f.le x y ≡ true
      → f.le (f.mul x z) (f.mul y z) ≡ true
  pub le-mul_of_one_le :
      (x : F) (n k : ℕ)
      → k ≤ 6
      → 10 ^ k ≤ n
      → f.is_finite x ≡ true
      → f.le (f.decimal 0 0) x ≡ true
      → f.le x (f.mul x (f.decimal n k)) ≡ true
  -- The product of two literals, each of them rounded, is not off by a whole unit.
  pub mul-decimal-le :
      (a j b k n : ℕ)
      → j ≤ 6
      → k ≤ 6
      → n < 2 ^ 32
      → a * b + 10 ^ j * 10 ^ k ≤ n * (10 ^ j * 10 ^ k)
      → f.le (f.mul (f.decimal a j) (f.decimal b k)) (f.decimal n 0) ≡ true
  pub decimal-le-mul :
      (a j b k n : ℕ)
      → j ≤ 6
      → k ≤ 6
      → n < 2 ^ 32
      → n * (10 ^ j * 10 ^ k) + 10 ^ j * 10 ^ k ≤ a * b
      → f.le (f.decimal n 0) (f.mul (f.decimal a j) (f.decimal b k)) ≡ true
  -- Rounding is monotone and leaves whole numbers alone.
  pub round_mono :
      (x y : F) → f.le x y ≡ true → f.le (f.round_ties_even x) (f.round_ties_even y) ≡ true
  pub round-decimal : (n : ℕ) → n < 2 ^ 32 → f.round_ties_even (f.decimal n 0) ≡ f.decimal n 0
  -- A duration is made of every number of seconds from 0 to 2^32, and its whole seconds are those of
  -- the number.
  pub try_from_secs_between :
      (x : F) (a b : ℕ)
      → b < 2 ^ 32
      → f.le (f.decimal a 0) x ≡ true
      → f.le x (f.decimal b 0) ≡ true
      → (s : ℕ) × (f.try_from_secs x ≡ inr s) × (a ≤ s) × (s ≤ b)
  -- A duration grows with the factor that scales it.
  pub mul_secs_mono :
      (n : ℕ) (x y : F) (a b : ℕ)
      → f.le x y ≡ true
      → f.mul_secs n x ≡ some a
      → f.mul_secs n y ≡ some b
      → a ≤ b
  -- `total_cmp` is a total order, which refines `<=` on finite values.
  pub total_cmp_le :
      (x y : F)
      → f.is_finite x ≡ true
      → f.is_finite y ≡ true
      → f.total_cmp x y ≢ Ordering.gt
      → f.le x y ≡ true
  pub total_cmp-IsTotal : IsTotal f.total_cmp
