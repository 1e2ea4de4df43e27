-- ===== src/Std/Sort.antt =====
-- `slice::sort_by`, the stable sort.
use Prim.Native.Nat.{Ordering}
use mathlib.Core.List.{Perm, Memᴰ}
use mathlib.Core.List.Perm
use icloud_location.Prelude.{
  ◌≡◌, ◌≢◌, refl, List, [], ◌∷◌, arith, All, Option, none, some, ◌⊎◌, inl, inr,
}
use icloud_location.Std.Order.{IsTotal}

module _ {ℓ} {A : Type ℓ} (cmp : A → A → Ordering) where
  -- Before the first element that is not less.
  unfoldable pub insert_by : A → List A → List A
  insert_by x [] = x ∷ []
  insert_by x (y ∷ ys) =
      let rest = insert_by x ys in elim (cmp x y) [ Ordering.gt ↦ y ∷ rest | _ ↦ x ∷ y ∷ ys ]

  unfoldable pub sort_by : List A → List A
  unfolding insert_by
  sort_by [] = []
  sort_by (x ∷ xs) = insert_by x (sort_by xs)

  -- Every element is at most each of the later ones.
  abbrev pub IsSorted : List A → Type 0
  IsSorted [] = Unit
  IsSorted (x ∷ xs) = All (λ y. cmp x y ≢ Ordering.gt) xs × IsSorted xs

  -- Whether an element goes before the head of a list.
  insert_by_cases :
      (x y : A) (ys : List A)
      → ((cmp x y ≡ Ordering.gt) × (insert_by x (y ∷ ys) ≡ y ∷ insert_by x ys))
        ⊎ ((cmp x y ≢ Ordering.gt) × (insert_by x (y ∷ ys) ≡ x ∷ y ∷ ys))
  unfolding insert_by
  insert_by_cases x y ys = go (cmp x y) refl
    where
      go :
          (o : Ordering)
          → cmp x y ≡ o
          → ((cmp x y ≡ Ordering.gt) × (insert_by x (y ∷ ys) ≡ y ∷ insert_by x ys))
            ⊎ ((cmp x y ≢ Ordering.gt) × (insert_by x (y ∷ ys) ≡ x ∷ y ∷ ys))
      go Ordering.lt e = inr (λ g. cc, rw (e, insert_by))
      go Ordering.eq e = inr (λ g. cc, rw (e, insert_by))
      go Ordering.gt e = inl (e, rw (e, insert_by))

  insert_by-perm : (x : A) (xs : List A) → Perm (insert_by x xs) (x ∷ xs)
  insert_by-perm x [] = unfold insert_by in Perm.refl (x ∷ [])
  insert_by-perm x (y ∷ ys) = elim (insert_by_cases x y ys) [
    | inl (g, e) ↦ rw e (Perm.trans (Perm.cons y (insert_by-perm x ys)) (Perm.swap x y ys))
    | inr (le, e) ↦ rw e (Perm.refl _)
  ]

  -- Sorting permutes.
  pub sort_by-perm : (xs : List A) → Perm (sort_by xs) xs
  unfolding sort_by
  sort_by-perm [] = Perm.refl []
  sort_by-perm (x ∷ xs) = Perm.trans (insert_by-perm x (sort_by xs)) (Perm.cons x (sort_by-perm xs))

  All-insert_by {κ} :
      (P : A → Type κ) (x : A) (xs : List A) → P x → All P xs → All P (insert_by x xs)
  All-insert_by P x [] p ps = unfold insert_by in (p, ps)
  All-insert_by P x (y ∷ ys) p ps = elim (insert_by_cases x y ys) [
    | inl (g, e) ↦ rw e (ps.0, All-insert_by P x ys p ps.1)
    | inr (le, e) ↦ rw e (p, ps)
  ]

  pub All-sort_by {κ} : (P : A → Type κ) (xs : List A) → All P xs → All P (sort_by xs)
  unfolding sort_by
  All-sort_by P [] ps = ps
  All-sort_by P (x ∷ xs) ps = All-insert_by P x (sort_by xs) ps.0 (All-sort_by P xs ps.1)

  module _ (total : IsTotal cmp) where
    open total use {flip, trans}

    -- What is at most the head of a sorted list is at most each of its elements.
    below :
        (x y : A) (ys : List A)
        → cmp x y ≢ Ordering.gt
        → All (λ z. cmp y z ≢ Ordering.gt) ys
        → All (λ z. cmp x z ≢ Ordering.gt) ys
    below x y [] le s = tt
    below x y (z ∷ zs) le s = (trans x y z le s.0, below x y zs le s.1)

    insert_by-IsSorted : (x : A) (xs : List A) → IsSorted xs → IsSorted (insert_by x xs)
    insert_by-IsSorted x [] s = unfold insert_by in (tt, tt)
    insert_by-IsSorted x (y ∷ ys) s = elim (insert_by_cases x y ys) [
      | inl (g, e) ↦ rw e (
        All-insert_by (λ z. cmp y z ≢ Ordering.gt) x ys (ground (arith, flip x y)) s.0,
        insert_by-IsSorted x ys s.1,
      )
      | inr (le, e) ↦ rw e ((le, below x y ys le s.0), s)
    ]

    -- Sorting sorts.
    pub sort_by-IsSorted : (xs : List A) → IsSorted (sort_by xs)
    unfolding sort_by
    sort_by-IsSorted [] = tt
    sort_by-IsSorted (x ∷ xs) = insert_by-IsSorted x (sort_by xs) (sort_by-IsSorted xs)

nil_of_none {ℓ} : {A : Type ℓ} (xs : List A) → All (λ x. ⊥) xs → xs ≡ []
nil_of_none [] h = refl
nil_of_none (x ∷ xs) h = absurd h.0

-- `first()` of a slice.
abbrev pub first {ℓ} : {A : Type ℓ} → List A → Option A
first [] = none
first (x ∷ xs) = some x

All-self {ℓ} :
    {A : Type ℓ} (ys xs : List A) → ((y : A) → Memᴰ y xs → Memᴰ y ys) → All (λ y. Memᴰ y ys) xs
All-self ys [] h = tt
All-self ys (x ∷ xs) h = (h x (Memᴰ.head refl), All-self ys xs (λ y m. h y (Memᴰ.tail m)))

module _ {ℓ} {A : Type ℓ} (cmp : A → A → Ordering) where
  All-of_insert_by {κ} :
      (P : A → Type κ) (x : A) (xs : List A) → All P (insert_by cmp x xs) → P x × All P xs
  All-of_insert_by P x [] h = unfold insert_by in h
  All-of_insert_by P x (y ∷ ys) h = elim (insert_by_cases cmp x y ys) [
    | inl (g, e) ↦
        let h' = rw e at h in let (p, ps) = All-of_insert_by P x ys h'.1 in (p, (h'.0, ps))
    | inr (le, e) ↦ rw e at h
  ]

  All-of_sort_by {κ} : (P : A → Type κ) (xs : List A) → All P (sort_by cmp xs) → All P xs
  unfolding sort_by
  All-of_sort_by P [] h = h
  All-of_sort_by P (x ∷ xs) h =
      let (p, ps) = All-of_insert_by P x (sort_by cmp xs) h in (p, All-of_sort_by P xs ps)

  -- What stands first after sorting: an element that no other one precedes.
  abbrev pub IsLeast : List A → Option A → Type ℓ
  IsLeast xs none = xs ≡ []
  IsLeast xs (some m) = Memᴰ m xs × All (λ y. cmp m y ≢ Ordering.gt) xs

  le_refl : IsTotal cmp → (x : A) → cmp x x ≢ Ordering.gt
  le_refl total x = ground (arith, total.flip x x)

  pub first-sort_by : (xs : List A) → IsTotal cmp → IsLeast xs (first (sort_by cmp xs))
  first-sort_by xs total =
      go (sort_by cmp xs) (sort_by-IsSorted cmp total xs)
        (All-sort_by cmp (λ y. Memᴰ y xs) xs (All-self xs xs (λ y m. m))) (λ P. All-of_sort_by P xs)
    where
      go :
          (ys : List A)
          → IsSorted cmp ys
          → All (λ y. Memᴰ y xs) ys
          → ((P : A → Type 0) → All P ys → All P xs)
          → IsLeast xs (first ys)
      go [] s from back = nil_of_none xs (back (λ z. ⊥) tt)
      go (y ∷ ys) s from back = (from.0, back (λ z. cmp y z ≢ Ordering.gt) (le_refl total y, s.0))
