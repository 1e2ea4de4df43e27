-- ===== src/Config/Unique.antt =====
-- What the validation of the accounts in src/config.rs rules out.
use icloud_location.Prelude.{
  ◌≡◌, ◌≢◌, refl, true, false, not, Bool, List, [], ◌∷◌, ◌++◌, String, eq_iff, All, map, arith,
  ◌&&◌, ◌||◌, ◌==◌,
}
use icloud_location.Std.Result.{ok, >>=-eq-ok, reject_if-eq-ok}
use icloud_location.Std.Float.{Float}
use icloud_location.Std.Text.{trim, to_ascii_lowercase, is_empty_text}
use icloud_location.Std.TreeMap.{contains}
use icloud_location.Config.Defs.{AppConfig, AccountConfig, current_config_version}
use icloud_location.Config.Validate.{
  validate, validate_accounts, validate_accounts_after, has_bad_devices, add_all,
}

abbrev pub AreUnique : List String → Type 0
AreUnique [] = Unit
AreUnique (x ∷ xs) = All (λ y. y ≢ x) xs × AreUnique xs

-- Names that are neither among those seen nor there twice.
unfoldable are_fresh : List String → List String → Bool
are_fresh seen [] = true
are_fresh seen (x ∷ xs) = let rest = are_fresh (x ∷ seen) xs in not (contains x seen) && rest

-- Names that are not among those seen with `x` differ from `x`.
differ :
    (x : String) (seen xs : List String)
    → All (λ y. contains y (x ∷ seen) ≡ false) xs
    → All (λ y. contains y seen ≡ false) xs × All (λ y. y ≢ x) xs
unfolding contains
differ x seen [] h = (tt, tt)
differ x seen (y ∷ ys) (h, hs) =
    let (old, new) = differ x seen ys hs in
    ((ground (arith, h), old), (ground (arith, h, eq_iff x y), new))

are_fresh_sound :
    (seen xs : List String)
    → are_fresh seen xs ≡ true
    → All (λ y. contains y seen ≡ false) xs × AreUnique xs
unfolding are_fresh
are_fresh_sound seen [] h = (tt, tt)
are_fresh_sound seen (x ∷ xs) h =
    let (all, unique) = are_fresh_sound (x ∷ seen) xs (ground (arith, h)) in
    let (old, new) = differ x seen xs all in ((ground (arith, h), old), (new, unique))

-- The devices of the accounts, in their order.
abbrev pub all_devices : List AccountConfig → List String
all_devices [] = []
all_devices (account ∷ accounts) = account.device_ids ++ all_devices accounts

abbrev pub all_usernames : List AccountConfig → List String
all_usernames = map (λ (account : AccountConfig). to_ascii_lowercase (trim account.username))

are_fresh-++ :
    (account seen ids rest : List String)
    → has_bad_devices account seen ids ≡ false
    → are_fresh (add_all ids seen) rest ≡ true
    → are_fresh seen (ids ++ rest) ≡ true
unfolding are_fresh has_bad_devices add_all
are_fresh-++ account seen [] rest h k = k
are_fresh-++ account seen (id ∷ ids) rest h k =
    ground (arith, h, are_fresh-++ (id ∷ account) (id ∷ seen) ids rest, k)

accounts_fresh :
    (usernames devices : List String) (accounts : List AccountConfig)
    → validate_accounts_after usernames devices accounts ≡ ok tt
    → (are_fresh usernames (all_usernames accounts) ≡ true)
      × (are_fresh devices (all_devices accounts) ≡ true)
unfolding are_fresh validate_accounts_after
accounts_fresh usernames devices [] h = (refl, refl)
accounts_fresh usernames devices (account ∷ accounts) h =
    let username = to_ascii_lowercase (trim account.username) in
    let (named, h1) =
      reject_if-eq-ok (is_empty_text username || contains username usernames) _ _ h in
    let (bad, h2) = reject_if-eq-ok (has_bad_devices [] devices account.device_ids) _ _ h1 in
    let (names, ids) =
      accounts_fresh (username ∷ usernames) (add_all account.device_ids devices) accounts h2 in
    (
      ground (arith, named, names),
      are_fresh-++ [] devices account.device_ids (all_devices accounts) bad ids,
    )

module _ {F : Type 0} (f : Float F) where
  -- In a valid configuration no two accounts have the same user name, which is compared without its
  -- surrounding white space and in lower case, and no device is listed twice, be it in one account or
  -- in two.
  pub accounts_AreUnique :
      (c : AppConfig F)
      → validate f c ≡ ok tt
      → AreUnique (all_usernames c.accounts) × AreUnique (all_devices c.accounts)
  unfolding validate validate_accounts
  accounts_AreUnique c h =
      let (_, h1) = reject_if-eq-ok (not (c.version == current_config_version)) _ _ h in
      let (_, accepted, _) = >>=-eq-ok (validate_accounts c.accounts) _ h1 in
      let (names, ids) = accounts_fresh [] [] c.accounts accepted in
      ((are_fresh_sound [] _ names).1, (are_fresh_sound [] _ ids).1)
