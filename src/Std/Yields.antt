-- ===== src/Std/Yields.antt =====
-- Postconditions of results: what holds of the value if there is one.
use icloud_location.Prelude.{◌≡◌, refl, subst, Bool, true, false, Option, none, some, if◌then◌else◌}
use icloud_location.Std.Result.{Result, ok, err, panic, ◌>>=◌, ok_injective}

module _ {ℓ κ} {E : Type 0} {A : Type ℓ} where
  abbrev pub Yields : (A → Type κ) → Result E A → Type κ
  Yields P (ok a) = P a
  Yields P (err e) = Unit
  Yields P panic = Unit

  pub Yields_ok : (P : A → Type κ) (r : Result E A) {a : A} → Yields P r → r ≡ ok a → P a
  Yields_ok P (ok b) h e = subst P (ok_injective e) h
  Yields_ok P (err x) h e = absurd cc
  Yields_ok P panic h e = absurd cc

  pub Yields-if :
      (P : A → Type κ) (b : Bool) (x y : Result E A)
      → (b ≡ true → Yields P x)
      → (b ≡ false → Yields P y)
      → Yields P (if b then x else y)
  Yields-if P true x y h k = h refl
  Yields-if P false x y h k = k refl

module _ {ℓ μ κ} {E : Type 0} {A : Type ℓ} {B : Type μ} where
  -- The rest of a computation, knowing which value the first part had.
  pub Yields-bind :
      (P : B → Type κ) (m : Result E A) (k : A → Result E B)
      → ((a : A) → m ≡ ok a → Yields P (k a))
      → Yields P (m >>= k)
  Yields-bind P (ok a) k h = h a refl
  Yields-bind P (err e) k h = tt
  Yields-bind P panic k h = tt

module _ {ℓ κ} {A : Type ℓ} where
  pub elim_option {μ} :
      {B : Type μ} (P : B → Type κ) (o : Option A) (x : B) (k : A → B)
      → (o ≡ none → P x)
      → ((a : A) → o ≡ some a → P (k a))
      → P (elim o [ none ↦ x | some a ↦ k a ])
  elim_option P none x k' h k = h refl
  elim_option P (some a) x k' h k = k a refl
