-- ===== src/Std/Vec.antt =====
-- `Vec<A>` that is kept short: a push followed by a `drain` of the oldest elements.
use mathlib.Core.List.{foldl, append_assoc, append-nil}
use icloud_location.Prelude.{
  ℕ, ◌+◌, ◌-◌, ◌≤◌, ◌≡◌, ap, ◌∙◌, List, [], ◌∷◌, ◌++◌, arith, Bool-cases, inl, inr, ltb, length,
  drop, length-append, length-drop, drop-append, drop-drop, if◌then◌else◌,
}

module _ {ℓ} {A : Type ℓ} where
  -- `if v.len() > limit { v.drain(..v.len() - limit); }`
  abbrev pub drain_above : ℕ → List A → List A
  drain_above limit xs = if ltb limit (length xs) then drop (length xs - limit) xs else xs

  -- `v.push(x)`, then the drain.
  abbrev pub push_bounded : ℕ → List A → A → List A
  push_bounded limit xs x = drain_above limit (xs ++ (x ∷ []))

  -- The newest `n` elements.
  abbrev pub newest : ℕ → List A → List A
  newest n xs = drop (length xs - n) xs

  pub length-newest : (n : ℕ) (xs : List A) → length (newest n xs) ≤ n
  length-newest n xs = omega (arith, length-drop (length xs - n) xs)

  newest_short : (n : ℕ) (xs : List A) → length xs ≤ n → newest n xs ≡ xs
  newest_short n xs h = let e : length xs - n ≡ 0 = omega arith in rw e

  pub drain_above-eq-newest : (n : ℕ) (xs : List A) → drain_above n xs ≡ newest n xs
  drain_above-eq-newest n xs = elim (Bool-cases (ltb n (length xs))) [
    | inl more ↦ rw more
    | inr few ↦ let e : length xs - n ≡ 0 = ground arith in rw (few, e)
  ]

  -- Draining after every push loses nothing that a single drain at the end would keep.
  newest-append : (n : ℕ) (xs ys : List A) → newest n (newest n xs ++ ys) ≡ newest n (xs ++ ys)
  newest-append n xs ys =
      let k = length xs - n in
      let zs = xs ++ ys in
      let same : k + (length (drop k zs) - n) ≡ length zs - n =
        omega (arith, length-drop k zs, length-append xs ys) in
      rw (← drop-append k xs ys (omega arith))
        (drop-drop (length (drop k zs) - n) k zs ∙ ap (λ (j : ℕ). drop j zs) same)

  -- A run of bounded pushes leaves the newest elements of all, in their order.
  pub foldl-push_bounded :
      (n : ℕ) (ys xs : List A) → length xs ≤ n → foldl (push_bounded n) xs ys ≡ newest n (xs ++ ys)
  foldl-push_bounded n [] xs fits = rw append-nil (rw (newest_short n xs fits))
  foldl-push_bounded n (y ∷ ys) xs fits =
      let zs = xs ++ (y ∷ []) in
      let short : length (drain_above n zs) ≤ n =
        rw (drain_above-eq-newest n zs) (length-newest n zs) in
      foldl-push_bounded n ys (drain_above n zs) short
      ∙ rw (drain_above-eq-newest n zs)
          (newest-append n zs ys ∙ ap (newest n) (append_assoc xs (y ∷ []) ys))
