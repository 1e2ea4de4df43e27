-- ===== src/Examples/Migration.antt =====
-- A concrete run of the migration, on values that are numbers and objects.
use icloud_location.Prelude.{
  ℕ, ◌≡◌, ◌≢◌, refl, ap, arith, Bool, true, false, Option, none, some, String, str_eq, ◌||◌,
  if◌then◌else◌,
}
use icloud_location.Std.Result.{ok}
use icloud_location.Std.Json.{Json, IsJson}
use icloud_location.Tracking.State.Migration.{
  migrate_state, migrate_from, ensure, migrate_state_keeps, version_of,
}

data Value : Type 0 where
  number : ℕ → Value
  -- Which keys are there, and their values.
  object : (String → Bool) → (String → Value) → Value

abbrev is_object : Value → Bool
is_object (number n) = false
is_object (object has g) = true

abbrev get : String → Value → Option Value
get k (number n) = none
get k (object has g) = if has k then some (g k) else none

abbrev set : String → Value → Value → Value
set k x (number n) = number n
set k x (object has g) = object (λ j. str_eq k j || has j) (λ j. if str_eq k j then x else g j)

abbrev as_u64 : Value → Option ℕ
as_u64 (number n) = some n
as_u64 (object has g) = none

abbrev nothing : Value
nothing = object (λ j. false) (λ j. number 0)

abbrev values : Json Value
values = record {
  is_object = is_object;
  get = get;
  set = set;
  as_u64 = as_u64;
  of_u64 = number;
  empty_object = nothing;
  empty_array = nothing;
}

is_object-set : (k : String) (x v : Value) → is_object v ≡ true → is_object (set k x v) ≡ true
is_object-set k x (number n) h = h
is_object-set k x (object has g) h = refl

get-set :
    (k j : String) (x v : Value)
    → is_object v ≡ true
    → get j (set k x v) ≡ (if str_eq k j then some x else get j v)
get-set k j x (number n) h = absurd cc
get-set k j x (object has g) h = ground arith

values-IsJson : IsJson values
values-IsJson = record {
  is_object-set = is_object-set;
  get-set = get-set;
  as_u64-of_u64 = λ n. refl;
}

abbrev old_state : Value
old_state = set "version" (number 1) (set "saved" (number 7) nothing)

abbrev new_state : Value
new_state = set "event_history" nothing (set "version" (number 4) old_state)

saved_other : ◌≢◌ {A = String} "saved" "version"
saved_other e =
    let same : str_eq "saved" "saved" ≡ str_eq "version" "saved" =
      ap (λ (k : String). str_eq k "saved") e in
    absurd (ground (arith, same))

migrate_run : migrate_state values old_state ≡ ok new_state
unfolding migrate_state migrate_from ensure
migrate_run = refl

migrate_state_keeps_example :
    (version_of values new_state ≡ some 4) × (get "saved" new_state ≡ some (number 7))
migrate_state_keeps_example =
    migrate_state_keeps values values-IsJson old_state {v' = new_state} "saved" (number 7)
      migrate_run saved_other refl
