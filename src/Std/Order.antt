-- ===== src/Std/Order.antt =====
-- Comparators: `Ordering`, `then_with`, and the order of texts.
use Prim.Native.Nat.{Ordering, compare as compare_ℕ}
use Prim.Native.Char.{code}
use Prim.Native.String.compare.{nil-nil, nil-cons, cons-nil, cons-cons}
use Prim.Native.String.{String, compare, then}
use icloud_location.Prelude.{ℕ, ◌≡◌, ◌≢◌, refl, arith}

-- `Ordering::reverse`.
abbrev pub swap : Ordering → Ordering
swap Ordering.lt = Ordering.gt
swap Ordering.eq = Ordering.eq
swap Ordering.gt = Ordering.lt

-- A comparator that orders its type totally, up to elements that it calls equal.
pub record IsTotal {ℓ} {A : Type ℓ} (cmp : A → A → Ordering) : Type ℓ where
  pub flip : (x y : A) → cmp y x ≡ swap (cmp x y)
  pub trans : (x y z : A) → cmp x y ≢ Ordering.gt → cmp y z ≢ Ordering.gt → cmp x z ≢ Ordering.gt

-- `a.cmp(..).then_with(..)`: the second comparator decides where the first finds no difference.
abbrev pub then_by {ℓ} : {A : Type ℓ} → (A → A → Ordering) → (A → A → Ordering) → A → A → Ordering
then_by p q x y = then (p x y) (q x y)

pub then_by-IsTotal {ℓ} :
    {A : Type ℓ} (p q : A → A → Ordering) → IsTotal p → IsTotal q → IsTotal (then_by p q)
then_by-IsTotal p q tp tq = record {
  flip = λ x y. ground (arith, tp.flip x y, tq.flip x y);
  trans = λ x y z h k. ground (
    arith,
    tp.trans x y z,
    tp.trans y z x,
    tp.trans z x y,
    tp.flip x y,
    tp.flip y z,
    tp.flip x z,
    tq.trans x y z,
  );
}

-- A comparator on a key.
pub on_key-IsTotal {ℓ κ} :
    {A : Type ℓ} {B : Type κ} (key : A → B) (p : B → B → Ordering)
    → IsTotal p
    → IsTotal (λ x y. p (key x) (key y))
on_key-IsTotal key p tp = record {
  flip = λ x y. tp.flip (key x) (key y);
  trans = λ x y z. tp.trans (key x) (key y) (key z);
}

ℕ-flip : (m n : ℕ) → compare_ℕ n m ≡ swap (compare_ℕ m n)
ℕ-flip m n = ground arith

ℕ-trans :
    (l m n : ℕ)
    → compare_ℕ l m ≢ Ordering.gt
    → compare_ℕ m n ≢ Ordering.gt
    → compare_ℕ l n ≢ Ordering.gt
ℕ-trans l m n h k = ground arith

compare-flip : (s t : String) → compare t s ≡ swap (compare s t)
compare-flip String.[] String.[] = refl
compare-flip String.[] (String.◌∷◌ d t) = rw (nil-cons, cons-nil)
compare-flip (String.◌∷◌ c s) String.[] = rw (nil-cons, cons-nil)
compare-flip (String.◌∷◌ c s) (String.◌∷◌ d t) =
    rw (cons-cons c d s t, cons-cons d c t s)
      (ground (arith, compare-flip s t, ℕ-flip (code c) (code d)))

compare_trans :
    (s t u : String)
    → compare s t ≢ Ordering.gt
    → compare t u ≢ Ordering.gt
    → compare s u ≢ Ordering.gt
compare_trans String.[] t String.[] h k = λ e. cc (nil-nil)
compare_trans String.[] t (String.◌∷◌ e u) h k = rw nil-cons (λ e. cc)
compare_trans (String.◌∷◌ c s) String.[] u h k = absurd (h (rw cons-nil))
compare_trans (String.◌∷◌ c s) (String.◌∷◌ d t) String.[] h k = absurd (k (rw cons-nil))
compare_trans (String.◌∷◌ c s) (String.◌∷◌ d t) (String.◌∷◌ e u) h k =
    let h' = rw (cons-cons c d s t) at h in
    let k' = rw (cons-cons d e t u) at k in
    rw (cons-cons c e s u) (ground (arith, compare_trans s t u, ℕ-trans (code c) (code d) (code e)))

-- The order of texts is total.
pub compare-IsTotal : IsTotal compare
compare-IsTotal = record { flip = compare-flip; trans = compare_trans }
