-- ===== src/Std/Filter.antt =====
-- `iter().filter(..)` with a Boolean test.
use mathlib.Core.List.{Memᴰ}
use icloud_location.Prelude.{
  ◌≡◌, Bool, true, List, [], ◌∷◌, All, Bool-cases, inl, inr, if◌then◌else◌,
}

module _ {ℓ} {A : Type ℓ} (p : A → Bool) where
  unfoldable pub filter : List A → List A
  filter [] = []
  filter (x ∷ xs) = let rest = filter xs in if p x then x ∷ rest else rest

  pub All-filter {κ} : (P : A → Type κ) (xs : List A) → All P xs → All P (filter xs)
  unfolding filter
  All-filter P [] h = tt
  All-filter P (x ∷ xs) h = elim (Bool-cases (p x)) [
    | inl y ↦ rw y (h.0, All-filter P xs h.1)
    | inr n ↦ rw n (All-filter P xs h.1)
  ]

  head_or :
      {x y : A} {xs : List A}
      → (Memᴰ y (filter xs) → Memᴰ y xs × (p y ≡ true))
      → p x ≡ true
      → Memᴰ y (x ∷ filter xs)
      → Memᴰ y (x ∷ xs) × (p y ≡ true)
  head_or rest q (Memᴰ.head e) = (Memᴰ.head e, rw e q)
  head_or rest q (Memᴰ.tail t) = let (m, q') = rest t in (Memᴰ.tail m, q')

  pub mem-filter : (y : A) (xs : List A) → Memᴰ y (filter xs) → Memᴰ y xs × (p y ≡ true)
  unfolding filter
  mem-filter y [] m = elim m [ ]
  mem-filter y (x ∷ xs) m = elim (Bool-cases (p x)) [
    | inl e ↦ head_or (mem-filter y xs) e (rw e at m)
    | inr n ↦ let (m', q) = mem-filter y xs (rw n at m) in (Memᴰ.tail m', q)
  ]

  pub All-of_filter {κ} :
      (P : A → Type κ) (xs : List A) → All P (filter xs) → All (λ x. p x ≡ true → P x) xs
  unfolding filter
  All-of_filter P [] h = tt
  All-of_filter P (x ∷ xs) h = elim (Bool-cases (p x)) [
    | inl y ↦ let h' = rw y at h in (λ e. h'.0, All-of_filter P xs h'.1)
    | inr n ↦ (λ e. absurd (cc (e, n)), All-of_filter P xs (rw n at h))
  ]
