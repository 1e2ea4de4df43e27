-- ===== src/Config/Accepted.antt =====
-- A configuration that is valid for src/config.rs makes a runtime of src/runtime.rs.
use mathlib.Core.List.{foldl}
use std.Path.{fun_ext}
use icloud_location.Prelude.{
  ◌≡◌, ◌∙◌, refl, ap, subst, ℕ, Bool, true, false, not, Option, none, some, List, [], ◌∷◌, String,
  arith, any, map, is_some_and, ◌==◌,
}
use icloud_location.Std.Result.{
  Result, ok, err, panic, ◌>>=◌, >>=-eq-ok, reject_if, reject_if-eq-ok, map_err, ◌>>◌,
}
use icloud_location.Std.Float.{Float, IsFloat, is_invalid}
use icloud_location.Std.Filter.{filter}
use icloud_location.Std.TreeMap.{TreeSet, contains, add}
use icloud_location.Tracking.Zone.Defs
use icloud_location.Tracking.Zone.Defs.{Zone, ZoneSet, active_zones}
use icloud_location.Config.Defs.{
  AppConfig, ConfigError, unsupported_version, current_config_version,
}
use icloud_location.Config.Validate.{
  validate, migrate, load, validate_accounts, validate_tracking, has_invalid_tracking,
  active_zone_ids, has_bad_tracked_zones,
}
use icloud_location.Tracking.Zone.Validation.{new_iff}
use icloud_location.Config.Runtime.{settings, runtime_config, tracked_from, from_secs}
use icloud_location.Runtime.Accounts.{to_set}
use icloud_location.Runtime.Config.{validate_config, has_invalid_durations, is_active_zone}
use icloud_location.Runtime.Defs.{RuntimeConfig, as_secs}

module _ {F : Type 0} where
  -- The two tests of an active zone agree.
  active-eq-contains :
      (id : String) (zones : List (Zone F))
      → is_active_zone (record { zones = zones }) id
        ≡ contains id (map (λ z. z.id) (active_zones zones))
  unfolding contains filter
  active-eq-contains id [] = refl
  active-eq-contains id (z ∷ zones) = ground (arith, active-eq-contains id zones)

all_active :
    (active : List String) (seen ids : List String)
    → has_bad_tracked_zones active seen ids ≡ false
    → any (λ id. not (contains id active)) ids ≡ false
unfolding has_bad_tracked_zones
all_active active seen [] h = refl
all_active active seen (id ∷ ids) h = ground (arith, h, all_active active (id ∷ seen) ids)

-- The identifiers of a set come from the list that it was made from.
any-add :
    (test : String → Bool) (id : String) (ids : TreeSet)
    → test id ≡ false
    → any test ids ≡ false
    → any test (add id ids) ≡ false
unfolding add
any-add test id [] h k = ground (arith, h)
any-add test id (j ∷ ids) h k = ground (arith, h, k, any-add test id ids)

any-to_set :
    (test : String → Bool) (ids : List String) (s : TreeSet)
    → any test s ≡ false
    → any test ids ≡ false
    → any test (foldl (λ t id. add id t) s ids) ≡ false
any-to_set test [] s h k = h
any-to_set test (id ∷ ids) s h k =
    any-to_set test ids (add id s) (any-add test id s (ground (arith, k)) h) (ground (arith, k))

any-tracked_from :
    (test : String → Bool) (base : Option String) (ids : List String)
    → is_some_and base test ≡ false
    → any test ids ≡ false
    → any test (tracked_from base ids) ≡ false
any-tracked_from test none ids h k = any-to_set test ids [] refl k
any-tracked_from test (some id) ids h k =
    any-add test id (to_set ids) h (any-to_set test ids [] refl k)

as_secs-from_secs : (n : ℕ) → as_secs (from_secs n) ≡ n
as_secs-from_secs n = omega arith

reject_if-eq-false :
    {E : Type 0} (bad : Bool) (x : E) {u : Unit {0}} → reject_if bad x ≡ ok u → bad ≡ false
reject_if-eq-false true x h = absurd cc
reject_if-eq-false false x h = refl

-- Checks that all pass.
passes :
    {E : Type 0} (a b c : Bool) (x y z : E)
    → a ≡ false
    → b ≡ false
    → c ≡ false
    → (do reject_if a x; reject_if b y; reject_if c z) ≡ ok tt
passes a b c x y z p q r = cc

map_err-eq-ok :
    {E G A : Type 0} (g : E → G) (r : Result E A) (a : A) → map_err g r ≡ ok a → r ≡ ok a
map_err-eq-ok g (ok b) a h = cc
map_err-eq-ok g (err x) a h = absurd cc
map_err-eq-ok g panic a h = absurd cc

module _ {F : Type 0} (f : Float F) (laws : IsFloat f) where
  sixty_valid : is_invalid f (f.decimal 60 0) ≡ false
  sixty_valid = ground (
    arith,
    laws.finite-decimal 60 0,
    laws.lt-eq-not-le (f.decimal 60 0) (f.decimal 0 0) (laws.finite-decimal 60 0)
        (laws.finite-decimal 0 0),
    laws.le-decimal 0 0 60 0 (omega arith) (omega arith) (omega arith),
  )

  valid_durations :
      (c : AppConfig F) (zones : ZoneSet F)
      → has_invalid_tracking f c.tracking ≡ false
      → has_invalid_durations f (settings f c zones) ≡ false
  unfolding settings
  valid_durations c zones valid = ground (arith, valid, sixty_valid)

  new-eq-ok : (zs : List (Zone F)) (set : ZoneSet F) → Defs.new f zs ≡ ok set → set.zones ≡ zs
  new-eq-ok zs set h = ((new_iff f zs set).0 h).2

  -- The zones of the set are those of the configuration, so the runtime finds the same ones active.
  same_test :
      (c : AppConfig F) (set : ZoneSet F)
      → set.zones ≡ c.zones
      → (id : String) → not (is_active_zone set id) ≡ not (contains id (active_zone_ids c))
  same_test c set same id =
      ap not (active-eq-contains id set.zones)
      ∙ ap (λ zs. not (contains id (map (λ z. z.id) (active_zones zs)))) same

  settings_accepted :
      (c : AppConfig F) (set : ZoneSet F)
      → set.zones ≡ c.zones
      → has_invalid_tracking f c.tracking ≡ false
      → is_some_and c.base_zone_id (λ id. not (contains id (active_zone_ids c))) ≡ false
      → has_bad_tracked_zones (active_zone_ids c) [] c.tracked_from_zones ≡ false
      → validate_config f (settings f c set) ≡ ok tt
  unfolding settings validate_config
  settings_accepted c set same tracking base tracked =
      let test = fun_ext (same_test c set same) in
      let known = ap (is_some_and c.base_zone_id) test ∙ base in
      let all =
        any-tracked_from (λ id. not (is_active_zone set id)) c.base_zone_id c.tracked_from_zones
          known
          (ap (λ t. any t c.tracked_from_zones) test
            ∙ all_active (active_zone_ids c) [] c.tracked_from_zones tracked) in
      passes _ _ _ _ _ _ (valid_durations c set tracking) known all

  -- The runtime accepts the configuration that is made of a valid configuration of the application:
  -- it exists, and passes the validation of the runtime.
  pub validate_makes_runtime :
      (c : AppConfig F)
      → validate f c ≡ ok tt
      → (r : RuntimeConfig F) × (runtime_config f c ≡ ok r) × (validate_config f r ≡ ok tt)
  unfolding validate validate_tracking runtime_config validate_config
  validate_makes_runtime c h =
      let (_, h1) =
        reject_if-eq-ok (not (c.version == current_config_version)) (unsupported_version c.version)
          _ h in
      let (_, _, h2) = >>=-eq-ok (validate_accounts c.accounts) _ h1 in
      let (_, tracking, h3) = >>=-eq-ok (validate_tracking f c.tracking) _ h2 in
      let (set, named, h4) = >>=-eq-ok (map_err ConfigError.zone (Defs.new f c.zones)) _ h3 in
      let (base, h5) =
        reject_if-eq-ok (is_some_and c.base_zone_id (λ id. not (contains id (active_zone_ids c)))) _
          _ h4 in
      let (tracked, h6) =
        reject_if-eq-ok (has_bad_tracked_zones (active_zone_ids c) [] c.tracked_from_zones) _ _
          h5 in
      let made = map_err-eq-ok ConfigError.zone (Defs.new f c.zones) set named in
      (
        settings f c set,
        ap (λ r. r >>= λ zones. ok (settings f c zones)) made,
        settings_accepted c set (new-eq-ok c.zones set made) (reject_if-eq-false _ _ tracking) base
            tracked,
      )

  validate-version : (c : AppConfig F) → validate f c ≡ ok tt → c.version ≡ current_config_version
  unfolding validate
  validate-version c h =
      let (current, _) =
        reject_if-eq-ok (not (c.version == current_config_version)) (unsupported_version c.version)
          _ h in
      ground (arith, current)

  -- What is loaded has the current version, also when the file had the version before it, and the
  -- runtime accepts it: its configuration exists, and passes the validation of the runtime.
  pub load_makes_runtime :
      (parsed : Result ConfigError (AppConfig F)) (c : AppConfig F)
      → load f parsed ≡ ok c
      → (c.version ≡ current_config_version)
        × ((r : RuntimeConfig F) × (runtime_config f c ≡ ok r) × (validate_config f r ≡ ok tt))
  unfolding load
  load_makes_runtime parsed c h =
      let (config, _, h1) = >>=-eq-ok parsed _ h in
      let (migrated, _, h2) = >>=-eq-ok (migrate config) _ h1 in
      let (_, valid, h3) = >>=-eq-ok (validate f migrated) _ h2 in
      let same : migrated ≡ c = cc in
      let accepted = subst (λ x. validate f x ≡ ok tt) same valid in
      (validate-version c accepted, validate_makes_runtime c accepted)
