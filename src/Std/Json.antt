-- ===== src/Std/Json.antt =====
-- What the program calls of `serde_json::Value`: a type `J` with the operations below as a
-- parameter, and what a theorem needs of them as a hypothesis `IsJson`.
use icloud_location.Prelude.{ℕ, ◌≡◌, Bool, true, Option, some, String, str_eq, if◌then◌else◌}

pub record Json (J : Type 0) : Type 0 where
  pub is_object : J → Bool
  -- `value.get(key)`
  pub get : String → J → Option J
  -- `value[key] = x`, on an object.
  pub set : String → J → J → J
  pub as_u64 : J → Option ℕ
  -- `Value::from(n)`, `json!({})` and `json!([])`.
  pub of_u64 : ℕ → J
  pub empty_object : J
  pub empty_array : J

-- An assignment on an object sets one key and keeps the others; a number is read back.
pub record IsJson {J : Type 0} (s : Json J) : Type 0 where
  pub is_object-set :
      (k : String) (x v : J) → s.is_object v ≡ true → s.is_object (s.set k x v) ≡ true
  pub get-set :
      (k j : String) (x v : J)
      → s.is_object v ≡ true
      → s.get j (s.set k x v) ≡ (if str_eq k j then some x else s.get j v)
  pub as_u64-of_u64 : (n : ℕ) → s.as_u64 (s.of_u64 n) ≡ some n
