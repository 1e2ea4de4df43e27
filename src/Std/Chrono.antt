-- ===== src/Std/Chrono.antt =====
-- What the program calls of the crate `chrono`.
--
-- `I` is `DateTime<Utc>` and `D` is `TimeDelta`. The crate is not part of the repository, so its
-- types and operations are a parameter, and what a theorem needs of them is a hypothesis `IsChrono`.
use icloud_location.Prelude.{ℕ, String, ◌≡◌, ◌⊎◌, Bool, true, false, Option}
use icloud_location.Prelude.Int.{ℤ}

pub record Chrono (I : Type 0) (D : Type 0) : Type 0 where
  -- `a < b` on `DateTime<Utc>`; `a >= b` is its negation, since the order is total.
  pub before : I → I → Bool
  -- `a.signed_duration_since(b)`, which is `a - b`.
  pub since : I → I → D
  -- `now + delta`; `none` is the panic on a date out of range.
  pub plus : I → D → Option I
  -- `TimeDelta::seconds`; `none` is its panic, for more than `i64::MAX / 1000` seconds.
  pub seconds : ℤ → Option D
  -- `TimeDelta::minutes`, with the same panic.
  pub minutes : ℤ → Option D
  -- `TimeDelta::from_std` on a number of nanoseconds, or the text of its error.
  pub from_std : ℕ → String ⊎ D
  -- `DateTime::<Utc>::MIN_UTC`.
  pub min_utc : I
  pub num_seconds : D → ℤ
  pub is_zero : D → Bool
  -- `a < b` on `TimeDelta`.
  pub shorter : D → D → Bool

-- The order of instants is a strict total order.
pub record IsChrono {I D : Type 0} (c : Chrono I D) : Type 0 where
  pub before_irrefl : (a : I) → c.before a a ≡ false
  pub before_trans : (a b d : I) → c.before a b ≡ true → c.before b d ≡ true → c.before a d ≡ true
  pub before_total : (a b : I) → (a ≡ b) ⊎ ((c.before a b ≡ true) ⊎ (c.before b a ≡ true))
