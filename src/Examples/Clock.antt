-- ===== src/Examples/Clock.antt =====
-- Instants as whole seconds, as an instance of the operations of `chrono`.
use icloud_location.Prelude.{
  ℕ, zero, suc, ◌+◌, ◌*◌, ◌/◌, ◌-◌, Bool, true, false, none, some, arith, ltb, leb, inl, inr,
  if◌then◌else◌, Bool-cases,
}
use icloud_location.Prelude.Int.{ℤ, pos, negsuc, sub_ℕ, ltb_ℤ, pos_part, neg_part}
use icloud_location.Std.Chrono.{Chrono, IsChrono}

abbrev is_zero_ℤ : ℤ → Bool
is_zero_ℤ (pos zero) = true
is_zero_ℤ (pos (suc n)) = false
is_zero_ℤ (negsuc n) = false

abbrev sixty : ℤ → ℤ
sixty (pos n) = pos (60 * n)
sixty (negsuc n) = negsuc (60 * n + 59)

abbrev pub clock : Chrono ℕ ℤ
clock = record {
  before = ltb;
  since = sub_ℕ;
  plus =
      λ t d. if leb (neg_part d) (t + pos_part d) then some (t + pos_part d - neg_part d) else none;
  seconds = λ n. if ltb 9223372036854775 (pos_part n + neg_part n) then none else some n;
  minutes = λ n. if ltb 153722867280912 (pos_part n + neg_part n) then none else some (sixty n);
  from_std = λ n.
      if ltb 9223372036854775807000000 n then inl "out of range" else inr (pos (n / 1000000000));
  min_utc = 0;
  num_seconds = λ d. d;
  is_zero = is_zero_ℤ;
  shorter = ltb_ℤ;
}

pub clock-IsChrono : IsChrono clock
clock-IsChrono = record {
  before_irrefl = λ a. ground arith;
  before_trans = λ a b d h k. ground arith;
  before_total = λ a b. elim (Bool-cases (ltb a b)) [
    | inl less ↦ inr (inl less)
    | inr more ↦ elim (Bool-cases (ltb b a)) [
      | inl less ↦ inr (inr less)
      | inr same ↦ inl (ground arith)
    ]
  ];
}
