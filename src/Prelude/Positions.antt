-- ===== src/Prelude/Positions.antt =====
-- Positions in a list: the first element with a property, and a change of one element.
use mathlib.Core.Bool.{Bool, true}
use mathlib.Core.Option.{Option, none, some}
use mathlib.Core.List.{List, [], ◌∷◌, ◌++◌}
use mathlib.Core.Path.{◌≡◌, refl}
use Prim.Native.Nat.{ℕ, zero, suc}
use mathlib.Core.Logic.{inl, inr}
use native.Mathlib.Omega.{arith}
use icloud_location.Prelude.Tests.{if◌then◌else◌, map_option, Option-cases}
use icloud_location.Prelude.Lists.{All, length}

module _ {ℓ} {A : Type ℓ} where
  -- `xs.iter().position(p)`
  unfoldable pub position : (A → Bool) → List A → Option ℕ
  position p [] = none
  position p (x ∷ xs) = let rest = map_option suc (position p xs) in if p x then some 0 else rest

  -- `xs[i]`, where out of range is a panic.
  unfoldable pub get_elem? : List A → ℕ → Option A
  get_elem? [] i = none
  get_elem? (x ∷ xs) zero = some x
  get_elem? (x ∷ xs) (suc i) = get_elem? xs i

  -- A change of `xs[i]`.
  unfoldable pub modify : ℕ → (A → A) → List A → List A
  modify i g [] = []
  modify zero g (x ∷ xs) = g x ∷ xs
  modify (suc i) g (x ∷ xs) = x ∷ modify i g xs

  -- A change keeps a property if it keeps it of every element.
  pub All-modify {κ} :
      (P : A → Type κ) (g : A → A) (i : ℕ) (xs : List A)
      → ((x : A) → P x → P (g x))
      → All P xs
      → All P (modify i g xs)
  unfolding modify
  All-modify P g i [] keep h = tt
  All-modify P g zero (x ∷ xs) keep h = (keep x h.0, h.1)
  All-modify P g (suc i) (x ∷ xs) keep h = (h.0, All-modify P g i xs keep h.1)

  -- Inversion of a search for a position.
  position_head : (p : A → Bool) (x : A) (xs : List A) → position p (x ∷ xs) ≡ some 0 → p x ≡ true
  unfolding position
  position_head p x xs e = elim (Option-cases (position p xs)) [
    | inl n ↦ ground (arith, n, e)
    | inr (i, n) ↦ ground (arith, n, e)
  ]

  position_tail :
      (p : A → Bool) (x : A) (xs : List A) {i : ℕ}
      → position p (x ∷ xs) ≡ some (suc i)
      → position p xs ≡ some i
  unfolding position
  position_tail p x xs e = elim (Option-cases (position p xs)) [
    | inl n ↦ absurd (ground (arith, n, e))
    | inr (i, n) ↦ ground (arith, n, e)
  ]

  -- And if it does so of the elements that the position was searched for.
  pub All-modify-position {κ} :
      (P : A → Type κ) (p : A → Bool) (g : A → A) (i : ℕ) (xs : List A)
      → ((x : A) → p x ≡ true → P x → P (g x))
      → position p xs ≡ some i
      → All P xs
      → All P (modify i g xs)
  unfolding modify
  All-modify-position P p g i [] keep e h = tt
  All-modify-position P p g zero (x ∷ xs) keep e h = (keep x (position_head p x xs e) h.0, h.1)
  All-modify-position P p g (suc i) (x ∷ xs) keep e h =
      (h.0, All-modify-position P p g i xs keep (position_tail p x xs e) h.1)

  -- A second change of the same element.
  pub modify-modify :
      (g k : A → A) (i : ℕ) (xs : List A) → modify i g (modify i k xs) ≡ modify i (λ x. g (k x)) xs
  unfolding modify
  modify-modify g k i [] = refl
  modify-modify g k zero (x ∷ xs) = refl
  modify-modify g k (suc i) (x ∷ xs) = rw (modify-modify g k i xs) refl

  -- A change of the element that has just been appended.
  pub modify-append :
      (g : A → A) (xs : List A) (y : A) → modify (length xs) g (xs ++ (y ∷ [])) ≡ xs ++ (g y ∷ [])
  unfolding modify
  modify-append g [] y = refl
  modify-append g (x ∷ xs) y = rw (modify-append g xs y) refl

  pub All-append {κ} :
      (P : A → Type κ) (xs : List A) (y : A) → All P xs → P y → All P (xs ++ (y ∷ []))
  All-append P [] y h k = (k, tt)
  All-append P (x ∷ xs) y h k = (h.0, All-append P xs y h.1 k)
