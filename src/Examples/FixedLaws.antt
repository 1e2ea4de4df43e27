-- ===== src/Examples/FixedLaws.antt =====
-- The fixed-point numbers satisfy what is assumed of `f64`.
use Prim.Native.Nat.{Ordering}
use native.Mathlib.Nat.{mul-le-mul, le_refl}
use icloud_location.Prelude.{
  ℕ, zero, suc, ◌+◌, ◌*◌, ◌/◌, ◌^◌, ◌≤◌, ◌<◌, ◌≡◌, ◌≢◌, ◌⊎◌, refl, true, not, some, inl, inr, arith,
  ap, Bool-cases,
}
use icloud_location.Prelude.Int.{pos, negsuc}
use icloud_location.Std.Float.{IsFloat}
use icloud_location.Std.Order.{swap}
use icloud_location.Examples.Fixed.{
  Fixed, nan, infinite, neg_infinite, fixed, unit, scale, total_cmp, is_finite, lt, le, mul,
  mul_secs, round_magnitude, on_magnitude, fixed_float,
}

le_trans : (x y z : Fixed) → le x y ≡ true → le y z ≡ true → le x z ≡ true
le_trans x y z h k = ground arith

total_cmp-flip : (x y : Fixed) → total_cmp y x ≡ swap (total_cmp x y)
total_cmp-flip x y = ground arith

total_cmp_trans :
    (x y z : Fixed)
    → total_cmp x y ≢ Ordering.gt
    → total_cmp y z ≢ Ordering.gt
    → total_cmp x z ≢ Ordering.gt
total_cmp_trans x y z h k = ground arith

total_cmp-le :
    (x y : Fixed)
    → is_finite x ≡ true
    → is_finite y ≡ true
    → total_cmp x y ≢ Ordering.gt
    → le x y ≡ true
total_cmp-le x y p q h = ground arith

finite_between :
    (x y z : Fixed)
    → is_finite x ≡ true
    → is_finite z ≡ true
    → le x y ≡ true
    → le y z ≡ true
    → is_finite y ≡ true
finite_between x y z p q h k = ground arith

lt-eq-not-le : (x y : Fixed) → is_finite x ≡ true → is_finite y ≡ true → lt x y ≡ not (le y x)
lt-eq-not-le x y p q = ground arith

le_total :
    (x y : Fixed) → is_finite x ≡ true → is_finite y ≡ true → (le x y ≡ true) ⊎ (le y x ≡ true)
le_total x y p q = elim (Bool-cases (le x y)) [ inl e ↦ inl e | inr e ↦ inr (ground arith) ]

scale-pow : (k : ℕ) → k ≤ 6 → 10 ^ k * scale k ≡ unit
scale-pow zero h = refl
scale-pow (suc zero) h = refl
scale-pow (suc (suc zero)) h = refl
scale-pow (suc (suc (suc zero))) h = refl
scale-pow (suc (suc (suc (suc zero)))) h = refl
scale-pow (suc (suc (suc (suc (suc zero))))) h = refl
scale-pow (suc (suc (suc (suc (suc (suc zero)))))) h = refl
scale-pow (suc (suc (suc (suc (suc (suc (suc k))))))) h = absurd (omega arith)

-- Two fractions over the powers 10^j and 10^k, in millionths.
scaled_le : (m n p q s t : ℕ) → p * s ≡ unit → q * t ≡ unit → m * q ≤ n * p → m * s ≤ n * t
scaled_le m n p q s t hp hq h =
    let big = mul-le-mul h (le_refl (s * t)) in
    let l : m * q * (s * t) ≡ m * s * unit = omega (arith, ap (λ (u : ℕ). m * s * u) hq) in
    let r : n * p * (s * t) ≡ n * t * unit = omega (arith, ap (λ (u : ℕ). n * t * u) hp) in
    omega arith

le-decimal :
    (m j n k : ℕ)
    → j ≤ 6
    → k ≤ 6
    → m * 10 ^ k ≤ n * 10 ^ j
    → le (fixed (pos (m * scale j))) (fixed (pos (n * scale k))) ≡ true
le-decimal m j n k hj hk h =
    let e =
      scaled_le m n (10 ^ j) (10 ^ k) (scale j) (scale k) (scale-pow j hj) (scale-pow k hk) h in
    ground (arith, e)

scaled_mono : (a b c : ℕ) → a ≤ b → a * c / unit ≤ b * c / unit
scaled_mono a b c h = omega (arith, mul-le-mul h (le_refl c))

mul_mono :
    (x y z : Fixed)
    → is_finite x ≡ true
    → is_finite y ≡ true
    → is_finite z ≡ true
    → le (fixed (pos 0)) z ≡ true
    → le x y ≡ true
    → le (mul x z) (mul y z) ≡ true
mul_mono (fixed (pos a)) (fixed (pos b)) (fixed (pos c)) p q r nonneg h =
    ground (arith, scaled_mono a b c)
mul_mono (fixed (negsuc a)) (fixed (negsuc b)) (fixed (pos c)) p q r nonneg h =
    ground (arith, scaled_mono (suc b) (suc a) c)
mul_mono x y z p q r nonneg h = ground arith

round_mono :
    (x y : Fixed)
    → le x y ≡ true
    → le (on_magnitude round_magnitude x) (on_magnitude round_magnitude y) ≡ true
round_mono x y h = ground arith

round-decimal :
    (n : ℕ) → on_magnitude round_magnitude (fixed (pos (n * unit))) ≡ fixed (pos (n * unit))
round-decimal n = ground arith

mul_secs_mono :
    (n : ℕ) (x y : Fixed) (a b : ℕ)
    → le x y ≡ true
    → mul_secs n x ≡ some a
    → mul_secs n y ≡ some b
    → a ≤ b
mul_secs_mono n (fixed (pos k)) (fixed (pos m)) a b h p q =
    let e : n * k ≤ n * m = mul-le-mul (le_refl n) (ground arith) in ground arith
mul_secs_mono n x y a b h p q = ground arith

le-mul_of_one_le :
    (x : Fixed) (n k : ℕ)
    → k ≤ 6
    → 10 ^ k ≤ n
    → is_finite x ≡ true
    → le (fixed (pos 0)) x ≡ true
    → le x (mul x (fixed (pos (n * scale k)))) ≡ true
le-mul_of_one_le (fixed (pos a)) n k hk h p nonneg =
    let e = mul-le-mul h (le_refl (scale k)) in
    let u = scale-pow k hk in
    let one : unit ≤ n * scale k = omega arith in
    let m = mul-le-mul (le_refl a) one in ground (arith, m)
le-mul_of_one_le x n k hk h p nonneg = ground arith

-- The product of two literals in millionths lies within a unit of the exact product.
product_bounds :
    (a b p q s t n : ℕ)
    → p * s ≡ unit
    → q * t ≡ unit
    → (a * b + p * q ≤ n * (p * q) → a * s * (b * t) / unit ≤ n * unit)
      × (n * (p * q) + p * q ≤ a * b → n * unit ≤ a * s * (b * t) / unit)
product_bounds a b p q s t n hp hq =
    let area : p * q * (s * t) ≡ unit * unit =
      omega (arith, ap (λ (u : ℕ). u * (q * t)) hp, ap (λ (u : ℕ). unit * u) hq) in
    (
      λ h. omega (arith, mul-le-mul h (le_refl (s * t)), ap (λ (u : ℕ). n * u) area),
      λ h. omega (arith, mul-le-mul h (le_refl (s * t)), ap (λ (u : ℕ). n * u) area),
    )

module _ (a j b k n : ℕ) (hj : j ≤ 6) (hk : k ≤ 6) where
  mul-decimal-le :
      n < 2 ^ 32
      → a * b + 10 ^ j * 10 ^ k ≤ n * (10 ^ j * 10 ^ k)
      → le (mul (fixed (pos (a * scale j))) (fixed (pos (b * scale k)))) (fixed (pos (n * scale 0)))
        ≡ true
  mul-decimal-le small h =
      let (upper, lower) =
        product_bounds a b (10 ^ j) (10 ^ k) (scale j) (scale k) n (scale-pow j hj)
          (scale-pow k hk) in
      ground (arith, upper h)

  decimal-le-mul :
      n < 2 ^ 32
      → n * (10 ^ j * 10 ^ k) + 10 ^ j * 10 ^ k ≤ a * b
      → le (fixed (pos (n * scale 0))) (mul (fixed (pos (a * scale j))) (fixed (pos (b * scale k))))
        ≡ true
  decimal-le-mul small h =
      let (upper, lower) =
        product_bounds a b (10 ^ j) (10 ^ k) (scale j) (scale k) n (scale-pow j hj)
          (scale-pow k hk) in
      ground (arith, lower h)

try_from_secs_between :
    (x : Fixed) (a b : ℕ)
    → b < 2 ^ 32
    → le (fixed (pos (a * scale 0))) x ≡ true
    → le x (fixed (pos (b * scale 0))) ≡ true
    → (s : ℕ) × (fixed_float.try_from_secs x ≡ inr s) × (a ≤ s) × (s ≤ b)
try_from_secs_between (fixed (pos m)) a b hb lo hi =
    (1 * m / unit, refl, ground arith, ground arith)
try_from_secs_between (fixed (negsuc m)) a b hb lo hi = absurd (ground arith)
try_from_secs_between nan a b hb lo hi = absurd (ground arith)
try_from_secs_between infinite a b hb lo hi = absurd (ground arith)
try_from_secs_between neg_infinite a b hb lo hi = absurd (ground arith)

pub Fixed-IsFloat : IsFloat fixed_float
Fixed-IsFloat = record {
  finite-decimal = λ n k. refl;
  le-decimal = le-decimal;
  lt-eq-not-le = lt-eq-not-le;
  le_total = le_total;
  le_trans = le_trans;
  finite_between = finite_between;
  mul_mono = mul_mono;
  le-mul_of_one_le = le-mul_of_one_le;
  mul-decimal-le = mul-decimal-le;
  decimal-le-mul = decimal-le-mul;
  round_mono = round_mono;
  round-decimal = λ n h. round-decimal n;
  try_from_secs_between = try_from_secs_between;
  mul_secs_mono = mul_secs_mono;
  total_cmp_le = total_cmp-le;
  total_cmp-IsTotal = record { flip = total_cmp-flip; trans = total_cmp_trans };
}
