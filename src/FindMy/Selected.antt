-- ===== src/FindMy/Selected.antt =====
-- What `select_devices` of src/main.rs chooses.
use mathlib.Core.List.{Memᴰ}
use icloud_location.Prelude.{
  false, ◌⊎◌, inl, inr, All, Bool, ◌≡◌, ◌≢◌, refl, sym, subst, ◌∙◌, Bool, true, some, List, [], ◌∷◌,
  String, eq_iff, arith,
}
use icloud_location.Std.Result.{ok}
use icloud_location.Std.Filter.{filter, mem-filter, All-of_filter}
use icloud_location.FindMy.Device.{Device}
use icloud_location.FindMy.Select.{
  has_id, has_prefix, is_exact, single_prefix, single_exact, select_devices,
}

module _ {F I J : Type 0} where
  filter-head :
      (test : Device F I J → Bool) (d : Device F I J) (ds devices : List (Device F I J))
      → filter test devices ≡ d ∷ ds
      → test d ≡ true
  filter-head test d ds devices h =
      (mem-filter test d devices (subst (Memᴰ d) (sym h) (Memᴰ.head refl))).1

  -- The device is in the list and passes a test, and no other one passes it.
  abbrev pub IsOnly : (Device F I J → Bool) → Device F I J → List (Device F I J) → Type 0
  IsOnly test d devices =
      Memᴰ d devices × (test d ≡ true) × All (λ x. test x ≡ true → x ≡ d) devices

  -- The selector names a device exactly, or no device exactly and begins its identifier.
  abbrev pub IsNamed : (String → String) → String → Device F I J → List (Device F I J) → Type 0
  IsNamed lower selector d devices =
      IsOnly (is_exact lower selector) d devices
      ⊎ (All (λ x. is_exact lower selector x ≡ false) devices
          × IsOnly (has_prefix selector) d devices)

  filter-IsOnly :
      (test : Device F I J → Bool) (d : Device F I J) (devices : List (Device F I J))
      → filter test devices ≡ d ∷ []
      → IsOnly test d devices
  filter-IsOnly test d devices h =
      let (member, passes) = mem-filter test d devices (subst (Memᴰ d) (sym h) (Memᴰ.head refl)) in
      (
        member,
        passes,
        All-of_filter test (λ x. x ≡ d) devices (subst (All (λ x. x ≡ d)) (sym h) (refl, tt)),
      )

  filter-none :
      (test : Device F I J → Bool) (devices : List (Device F I J))
      → filter test devices ≡ []
      → All (λ x. test x ≡ false) devices
  unfolding filter
  filter-none test [] h = tt
  filter-none test (e ∷ es) h = (ground (arith, h), filter-none test es (ground (arith, h)))

  -- A device that passes is one of those with its identifier.
  filter-has_id-≢ :
      (test : Device F I J → Bool) (d : Device F I J) (ds devices : List (Device F I J))
      → filter test devices ≡ d ∷ ds
      → filter (has_id d.id) devices ≢ []
  unfolding filter
  filter-has_id-≢ test d ds [] h k = absurd cc
  filter-has_id-≢ test d ds (e ∷ es) h k =
      ground (arith, h, k, filter-has_id-≢ test d ds es, eq_iff e.id d.id)

  -- No device has the identifier when none has its prefix.
  none_with_id :
      (selector : String) (d : Device F I J) (devices : List (Device F I J))
      → has_prefix selector d ≡ true
      → filter (has_prefix selector) devices ≡ []
      → filter (has_id d.id) devices ≡ []
  unfolding filter
  none_with_id selector d [] p h = refl
  none_with_id selector d (e ∷ es) p h =
      ground (arith, h, p, none_with_id selector d es p, eq_iff e.id d.id)

  single_with_id :
      (selector : String) (d : Device F I J) (devices : List (Device F I J))
      → filter (has_prefix selector) devices ≡ d ∷ []
      → filter (has_id d.id) devices ≡ d ∷ []
  unfolding filter
  single_with_id selector d [] h = absurd cc
  single_with_id selector d (e ∷ es) h = ground (
    arith,
    h,
    filter-head (has_prefix selector) d [] (e ∷ es) h,
    single_with_id selector d es,
    none_with_id selector d es,
    eq_iff e.id d.id,
  )

  chosen_prefix :
      (devices : List (Device F I J)) (selector : String) (chosen found : List (Device F I J))
      → filter (has_prefix selector) devices ≡ found
      → single_prefix selector found ≡ ok chosen
      → (d : Device F I J) × (chosen ≡ filter (has_id d.id) devices)
        × (chosen ≢ [])
        × IsOnly (has_prefix selector) d devices
  unfolding single_prefix
  chosen_prefix devices selector chosen [] found h = absurd cc
  chosen_prefix devices selector chosen (d ∷ []) found h =
      let same : d ∷ [] ≡ chosen = cc in
      (
        d,
        sym same ∙ sym (single_with_id selector d devices found),
        (λ none. absurd cc),
        filter-IsOnly (has_prefix selector) d devices found,
      )
  chosen_prefix devices selector chosen (d ∷ e ∷ ds) found h = absurd cc

  chosen_one :
      (lower : String → String) (devices : List (Device F I J)) (selector : String)
      (chosen found : List (Device F I J))
      → filter (is_exact lower selector) devices ≡ found
      → single_exact selector devices found ≡ ok chosen
      → (d : Device F I J) × (chosen ≡ filter (has_id d.id) devices)
        × (chosen ≢ [])
        × IsNamed lower selector d devices
  unfolding single_exact
  chosen_one lower devices selector chosen [] found h =
      let (d, same, some_one, starts) =
        chosen_prefix devices selector chosen (filter (has_prefix selector) devices) refl h in
      let no_device : All (λ x. is_exact lower selector x ≡ false) devices =
        filter-none (is_exact lower selector) devices found in
      (d, same, some_one, inr (no_device, starts))
  chosen_one lower devices selector chosen (d ∷ []) found h =
      let same : filter (has_id d.id) devices ≡ chosen = cc in
      (
        d,
        sym same,
        (λ none. filter-has_id-≢ (is_exact lower selector) d [] devices found (same ∙ none)),
        inl (filter-IsOnly (is_exact lower selector) d devices found),
      )
  chosen_one lower devices selector chosen (d ∷ e ∷ ds) found h = absurd cc

  -- Who names devices by a selector gets the devices of one identifier, all of them and at least one,
  -- or an error. The identifier is that of a device of the list: the only one that has the selector as
  -- its identifier or, without regard to case, as its name; or, where there is none, the only one
  -- whose identifier starts with the selector.
  pub select_devices_one :
      (lower : String → String) (devices : List (Device F I J)) (selector : String)
      (chosen : List (Device F I J))
      → select_devices lower devices (some selector) ≡ ok chosen
      → (d : Device F I J) × (chosen ≡ filter (has_id d.id) devices)
        × (chosen ≢ [])
        × IsNamed lower selector d devices
  unfolding select_devices
  select_devices_one lower devices selector chosen h =
      chosen_one lower devices selector chosen (filter (is_exact lower selector) devices) refl h
