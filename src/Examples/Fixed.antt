-- ===== src/Examples/Fixed.antt =====
-- Fixed-point numbers with six decimal places, as an instance of the operations of `f64`.
--
-- The trigonometric functions, of which no theorem assumes anything, are replaced by simple ones.
use Prim.Native.Nat.{Ordering, compare}
use icloud_location.Prelude.{
  ℕ, zero, suc, ◌+◌, ◌-◌, ◌*◌, ◌/◌, ◌%◌, ◌^◌, Bool, true, false, not, ◌&&◌, Option, none, some, inl,
  inr, ltb, ◌==◌, if◌then◌else◌,
}
use icloud_location.Prelude.Int.{ℤ, pos, negsuc, pos_part, neg_part, ◌+ℤ◌, ◌-ℤ◌}
use icloud_location.Std.Float.{Float}

-- A number of millionths, an infinity, or NaN.
pub data Fixed : Type 0 where
  nan infinite neg_infinite : Fixed
  fixed : ℤ → Fixed

abbrev pub unit : ℕ
unit = 1000000

abbrev pub scale : ℕ → ℕ
scale k = 10 ^ (6 - k)

abbrev pub negated : ℕ → ℤ
negated zero = pos 0
negated (suc n) = negsuc n

abbrev pub flip_sign : ℤ → ℤ
flip_sign (pos n) = negated n
flip_sign (negsuc n) = pos (suc n)

-- A function of the magnitude, with the sign kept.
abbrev pub on_magnitude : (ℕ → ℕ) → Fixed → Fixed
on_magnitude g (fixed (pos n)) = fixed (pos (g n))
on_magnitude g (fixed (negsuc n)) = fixed (negated (g (suc n)))
on_magnitude g x = x

abbrev pub compare_ℤ : ℤ → ℤ → Ordering
compare_ℤ a b = compare (pos_part a + neg_part b) (pos_part b + neg_part a)

abbrev pub total_cmp : Fixed → Fixed → Ordering
total_cmp nan nan = Ordering.eq
total_cmp nan infinite = Ordering.gt
total_cmp nan neg_infinite = Ordering.gt
total_cmp nan (fixed b) = Ordering.gt
total_cmp infinite nan = Ordering.lt
total_cmp infinite infinite = Ordering.eq
total_cmp infinite neg_infinite = Ordering.gt
total_cmp infinite (fixed b) = Ordering.gt
total_cmp neg_infinite nan = Ordering.lt
total_cmp neg_infinite infinite = Ordering.lt
total_cmp neg_infinite neg_infinite = Ordering.eq
total_cmp neg_infinite (fixed b) = Ordering.lt
total_cmp (fixed a) nan = Ordering.lt
total_cmp (fixed a) infinite = Ordering.lt
total_cmp (fixed a) neg_infinite = Ordering.gt
total_cmp (fixed a) (fixed b) = compare_ℤ a b

abbrev pub is_nan : Fixed → Bool
is_nan nan = true
is_nan _ = false

abbrev pub is_finite : Fixed → Bool
is_finite (fixed a) = true
is_finite _ = false

abbrev pub is_lt : Ordering → Bool
is_lt Ordering.lt = true
is_lt _ = false

abbrev pub is_le : Ordering → Bool
is_le Ordering.gt = false
is_le _ = true

abbrev pub lt : Fixed → Fixed → Bool
lt x y = not (is_nan x) && not (is_nan y) && is_lt (total_cmp x y)

abbrev pub le : Fixed → Fixed → Bool
le x y = not (is_nan x) && not (is_nan y) && is_le (total_cmp x y)

abbrev pub on_fixed : (ℤ → ℤ → Fixed) → Fixed → Fixed → Fixed
on_fixed g (fixed a) (fixed b) = g a b
on_fixed g _ _ = nan

abbrev pub mul_ℤ : (ℕ → ℕ → ℕ) → ℤ → ℤ → ℤ
mul_ℤ g (pos a) (pos b) = pos (g a b)
mul_ℤ g (pos a) (negsuc b) = negated (g a (suc b))
mul_ℤ g (negsuc a) (pos b) = negated (g (suc a) b)
mul_ℤ g (negsuc a) (negsuc b) = pos (g (suc a) (suc b))

abbrev pub mul : Fixed → Fixed → Fixed
mul = on_fixed (λ a b. fixed (mul_ℤ (λ m n. m * n / unit) a b))

abbrev pub div : Fixed → Fixed → Fixed
div = on_fixed (λ a b. fixed (mul_ℤ (λ m n. m * unit / n) a b))

-- Rounded to a whole number, ties to the even one.
abbrev pub round_magnitude : ℕ → ℕ
round_magnitude n =
    let q = n / unit in
    let r = n % unit in
    if ltb r 500000 then q * unit else if r == 500000 then (q + q % 2) * unit else (q + 1) * unit

abbrev pub mul_secs : ℕ → Fixed → Option ℕ
mul_secs n (fixed (pos m)) = some (n * m / unit)
mul_secs n _ = none

abbrev pub fixed_float : Float Fixed
fixed_float = record {
  is_finite = is_finite;
  lt = lt;
  le = le;
  total_cmp = total_cmp;
  eq = λ x y. le x y && le y x;
  decimal = λ n k. fixed (pos (n * scale k));
  neg = λ x. on_fixed (λ a b. fixed (flip_sign a)) x x;
  infinity = infinite;
  add = on_fixed (λ a b. fixed (a +ℤ b));
  sub = on_fixed (λ a b. fixed (a -ℤ b));
  mul = mul;
  div = div;
  min = λ x y. if le x y then x else y;
  trunc = on_magnitude (λ n. n / unit * unit);
  round_ties_even = on_magnitude round_magnitude;
  to_radians = λ x. x;
  sin = λ x. x;
  cos = λ x. fixed (pos unit);
  sqrt = λ x. x;
  atan2 = λ x y. x;
  powi = λ x n. mul x x;
  mul_secs = mul_secs;
  try_from_secs = λ x. elim (mul_secs 1 x) [ none ↦ inl "out of range" | some s ↦ inr s ];
  display = λ x. "number";
}
