-- ===== src/Tracking/State/Migration.antt =====
-- `migrate_state` of crates/icloud-tracking/src/state.rs.
use Prim.Native.String.{◌++◌}
use icloud_location.Prelude.{
  ℕ, ◌≡◌, ◌≢◌, refl, ap, ◌∙◌, arith, true, false, not, ◌||◌, Option, none, some, String, str_eq,
  eq_iff, ◌==◌, if◌then◌else◌, is_none, inl, inr, Bool-cases,
}
use icloud_location.Std.Result.{ok, err, ◌>>◌, reject_if}
use icloud_location.Std.Yields.{Yields, Yields-if, Yields_ok}
use icloud_location.Std.Json.{Json, IsJson}
use icloud_location.Std.Display.{show_nat}
use icloud_location.Tracking.Error.{Tracked, persistence}
use icloud_location.Tracking.State.Events.{current_state_version}

module _ {J : Type 0} (s : Json J) where
  -- `value.get("version").and_then(Value::as_u64)`
  abbrev as_version : Option J → Option ℕ
  as_version none = none
  as_version (some x) = s.as_u64 x

  abbrev pub version_of : J → Option ℕ
  version_of v = as_version (s.get "version" v)

  -- A key that is absent gets a value.
  unfoldable pub ensure : String → J → J → J
  ensure key x v = if is_none (s.get key v) then s.set key x v else v

  abbrev set_version : J → J
  set_version = s.set "version" (s.of_u64 current_state_version)

  -- The `match` on the version.
  unfoldable pub migrate_from : Option ℕ → J → Tracked J
  unfolding ensure
  migrate_from none v = ok (ensure "devices" s.empty_object (set_version v))
  migrate_from (some n) v =
      if n == 0
      then ok (ensure "devices" s.empty_object (set_version v))
      else if n == 1
      then ok (ensure "event_history" s.empty_array (set_version v))
      else if n == 2 || n == 3
      then ok (set_version v)
      else if n == current_state_version
      then ok v
      else err (
          persistence (
            "tracking state version "
            ++ show_nat n
            ++ " is newer than supported version "
            ++ show_nat current_state_version))

  unfoldable pub migrate_state : J → Tracked J
  unfolding migrate_from
  migrate_state v = do
    reject_if (not (s.is_object v)) (persistence "tracking state root must be an object")
    migrate_from (version_of v) v

  -- The current version, and a value under another key.
  abbrev IsCurrent : String → J → J → Type 0
  IsCurrent key x v = (s.is_object v ≡ true) × (version_of v ≡ some 4) × (s.get key v ≡ some x)

  set_version-IsCurrent :
      IsJson s
      → (key : String) (x v : J) → s.is_object v ≡ true
      → key ≢ "version"
      → s.get key v ≡ some x
      → IsCurrent key x (set_version v)
  set_version-IsCurrent laws key x v obj other e =
      let four = s.of_u64 4 in
      (
        laws.is_object-set "version" four v obj,
        ground (arith, laws.get-set "version" "version" four v obj, laws.as_u64-of_u64 4),
        ground (arith, laws.get-set "version" key four v obj, eq_iff "version" key, e),
      )

  ensure-IsCurrent :
      IsJson s
      → (key k : String) (x y v : J) → str_eq k "version" ≡ false
      → IsCurrent key x v
      → IsCurrent key x (ensure k y v)
  unfolding ensure
  ensure-IsCurrent laws key k x y v not_version (obj, current, kept) =
      elim (Bool-cases (is_none (s.get k v))) [
        | inl absent ↦ rw absent (
          laws.is_object-set k y v obj,
          ap as_version (laws.get-set k "version" y v obj ∙ rw not_version refl) ∙ current,
          ground (arith, absent, laws.get-set k key y v obj, eq_iff k key, kept),
        )
        | inr present ↦ rw present (obj, current, kept)
      ]

  migrate_from-Yields :
      IsJson s
      → (key : String) (x v : J) → s.is_object v ≡ true
      → key ≢ "version"
      → s.get key v ≡ some x
      → (o : Option ℕ) → version_of v ≡ o
      → Yields (IsCurrent key x) (migrate_from o v)
  unfolding migrate_from
  migrate_from-Yields laws key x v obj other e none at =
      ensure-IsCurrent laws key "devices" x s.empty_object (set_version v) refl
        (set_version-IsCurrent laws key x v obj other e)
  migrate_from-Yields laws key x v obj other e (some n) at =
      let current = set_version-IsCurrent laws key x v obj other e in
      let P = IsCurrent key x in
      Yields-if P (n == 0) _ _
        (λ _. ensure-IsCurrent laws key "devices" x s.empty_object (set_version v) refl current)
        λ _.
          Yields-if P (n == 1) _ _
            (λ _.
              ensure-IsCurrent laws key "event_history" x s.empty_array (set_version v) refl
                current)
            λ _.
              Yields-if P (n == 2 || n == 3) _ _ (λ _. current)
                λ _.
                  Yields-if P (n == current_state_version) _ _
                    (λ same. (obj, ground (arith, at, same), e)) (λ _. tt)

  -- A state that is migrated has the current version, and keeps what it has under every other key.
  pub migrate_state_keeps :
      (laws : IsJson s) (v : J) {v' : J} (key : String) (x : J)
      → migrate_state v ≡ ok v'
      → key ≢ "version"
      → s.get key v ≡ some x
      → (version_of v' ≡ some 4) × (s.get key v' ≡ some x)
  unfolding migrate_state
  migrate_state_keeps laws v key x h other e = elim (Bool-cases (s.is_object v)) [
    | inl obj ↦
        let kept = migrate_from-Yields laws key x v obj other e (version_of v) refl in
        let (_, current, same) =
          Yields_ok (IsCurrent key x) (migrate_from (version_of v) v) kept
            (ground (arith, obj, h)) in
        (current, same)
    | inr bad ↦ absurd (ground (arith, bad, h))
  ]
