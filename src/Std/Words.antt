-- ===== src/Std/Words.antt =====
-- Machine-width integers: the ranges of `u32`, `u64` and `i64`, and the saturating operations.
use icloud_location.Prelude.{ℕ, ◌+◌, ◌-◌, ◌*◌, ltb, if◌then◌else◌}
use icloud_location.Prelude.Int.{ℤ, pos, negsuc}

abbrev pub u32_max : ℕ
u32_max = 4294967295

abbrev pub u64_max : ℕ
u64_max = 18446744073709551615

abbrev pub i64_max : ℕ
i64_max = 9223372036854775807

-- The least of a number and the largest value of its type.
abbrev pub saturate : ℕ → ℕ → ℕ
saturate top n = if ltb top n then top else n

-- `saturating_add`, `saturating_mul` of `u32` and `u64`.
abbrev pub saturating_add : ℕ → ℕ → ℕ → ℕ
saturating_add top a b = saturate top (a + b)

abbrev pub saturating_mul : ℕ → ℕ → ℕ → ℕ
saturating_mul top a b = saturate top (a * b)

-- `u64::saturating_add_signed`.
abbrev pub saturating_add_signed : ℕ → ℤ → ℕ
saturating_add_signed a (pos n) = saturate u64_max (a + n)
saturating_add_signed a (negsuc n) = a - (n + 1)

-- `i64::try_from(n).unwrap_or(i64::MAX)` at a `u64`.
abbrev pub i64_or_max : ℕ → ℕ
i64_or_max n = saturate i64_max n

abbrev pub max_of : ℕ → ℕ → ℕ
max_of a b = if ltb a b then b else a

abbrev pub min_of : ℕ → ℕ → ℕ
min_of a b = if ltb b a then b else a
