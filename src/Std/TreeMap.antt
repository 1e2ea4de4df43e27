-- ===== src/Std/TreeMap.antt =====
-- `BTreeMap<String, V>` and `BTreeSet<String>`: entries in the order of their keys.
use Prim.Native.Nat.{Ordering}
use Prim.Native.String.{compare}
use text.Mathlib.TextEquality.{path_by_compare}
use icloud_location.Prelude.{
  ◌≡◌, refl, Bool, true, false, Option, none, some, List, [], ◌∷◌, arith, String, str_eq, eq_iff,
  if◌then◌else◌,
}

abbrev pub TreeMap {ℓ} : Type ℓ → Type ℓ
TreeMap V = List (String × V)

module _ {ℓ} {V : Type ℓ} where
  -- `map.get(k)`
  unfoldable pub get : String → TreeMap V → Option V
  get k [] = none
  get k ((j, v) ∷ m) = if str_eq j k then some v else get k m

  -- `map.insert(k, v)`
  unfoldable pub insert : String → V → TreeMap V → TreeMap V
  insert k v [] = (k, v) ∷ []
  insert k v ((j, w) ∷ m) =
      let rest = insert k v m in
      elim (compare k j) [
        | Ordering.lt ↦ (k, v) ∷ (j, w) ∷ m
        | Ordering.eq ↦ (k, v) ∷ m
        | Ordering.gt ↦ (j, w) ∷ rest
      ]

  -- `map.remove(k)`
  unfoldable pub remove : String → TreeMap V → TreeMap V
  remove k [] = []
  remove k ((j, v) ∷ m) = let rest = remove k m in if str_eq j k then rest else (j, v) ∷ rest

  pub get-remove :
      (k j : String) (m : TreeMap V) → get j (remove k m) ≡ (if str_eq k j then none else get j m)
  unfolding get remove
  get-remove k j [] = ground arith
  get-remove k j ((i, v) ∷ m) = ground (arith, get-remove k j m, eq_iff i k, eq_iff i j, eq_iff k j)

  pub get-insert :
      (k j : String) (v : V) (m : TreeMap V)
      → get j (insert k v m) ≡ (if str_eq k j then some v else get j m)
  unfolding get insert
  get-insert k j v [] = refl
  get-insert k j v ((i, w) ∷ m) =
      ground (arith, get-insert k j v m, path_by_compare k i, eq_iff i k, eq_iff i j, eq_iff k j)

-- `set.insert(k)`, whose result says whether the key is new, and `set.remove(k)`.
abbrev pub TreeSet : Type 0
TreeSet = List String

unfoldable pub contains : String → TreeSet → Bool
contains k [] = false
contains k (j ∷ s) = if str_eq j k then true else contains k s

unfoldable pub add : String → TreeSet → TreeSet
add k [] = k ∷ []
add k (j ∷ s) =
    let rest = add k s in
    elim (compare k j) [ Ordering.lt ↦ k ∷ j ∷ s | Ordering.eq ↦ j ∷ s | Ordering.gt ↦ j ∷ rest ]

unfoldable pub discard : String → TreeSet → TreeSet
discard k [] = []
discard k (j ∷ s) = let rest = discard k s in if str_eq j k then rest else j ∷ rest

pub contains-add :
    (k j : String) (s : TreeSet)
    → contains j (add k s) ≡ (if str_eq k j then true else contains j s)
unfolding contains add
contains-add k j [] = refl
contains-add k j (i ∷ s) =
    ground (arith, contains-add k j s, path_by_compare k i, eq_iff i k, eq_iff i j, eq_iff k j)

pub contains-discard :
    (k j : String) (s : TreeSet)
    → contains j (discard k s) ≡ (if str_eq k j then false else contains j s)
unfolding contains discard
contains-discard k j [] = ground arith
contains-discard k j (i ∷ s) =
    ground (arith, contains-discard k j s, eq_iff i k, eq_iff i j, eq_iff k j)
