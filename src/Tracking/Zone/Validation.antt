-- ===== src/Tracking/Zone/Validation.antt =====
-- `ZoneSet::new` accepts exactly the well-formed lists of zones.
use icloud_location.Prelude.{
  inl, inr, ◌≡◌, ◌≢◌, ◌↔◌, refl, false, List, [], ◌∷◌, arith, All, String, eq_iff,
}
use icloud_location.Std.Result.{ok, >>=-eq-ok, Result-cases}
use icloud_location.Std.Float.{Float, is_not_positive}
use icloud_location.Std.TreeMap.{contains}
use icloud_location.Core.{Coordinates}
use icloud_location.Tracking.Zone.Defs.{
  Zone, ZoneSet, is_blank, center, check_zone, check_zones, new,
}

module _ {F : Type 0} where
  -- No two zones have one identifier.
  abbrev pub AreDistinct : List (Zone F) → Type 0
  AreDistinct [] = Unit
  AreDistinct (z ∷ zs) = All (λ y. y.id ≢ z.id) zs × AreDistinct zs

  -- No zone has one of the identifiers.
  abbrev AreNew : List String → List (Zone F) → Type 0
  AreNew ids = All (λ z. contains z.id ids ≡ false)

  AreNew-cons :
      (id : String) (ids : List String) (zs : List (Zone F))
      → AreNew (id ∷ ids) zs ↔ (AreNew ids zs × All (λ y. y.id ≢ id) zs)
  unfolding contains
  AreNew-cons id ids [] = (λ _. (tt, tt), λ _. tt)
  AreNew-cons id ids (z ∷ zs) =
      let (to, from) = AreNew-cons id ids zs in
      (
        λ h. (
          (ground (arith, eq_iff id z.id), (to h.1).0),
          (ground (arith, eq_iff id z.id), (to h.1).1),
        ),
        λ h. (ground (arith, eq_iff id z.id), from (h.0.1, h.1.1)),
      )

module _ {F : Type 0} (f : Float F) where
  -- An identifier, a center and a radius that the constructor accepts.
  pub record IsUsable (z : Zone F) : Type 0 where
    pub named : is_blank z.id ≡ false
    pub centered : (c : Coordinates F) × (center f z ≡ ok c)
    pub round : is_not_positive f z.radius_meters ≡ false

  check_zone_iff :
      (ids : List String) (z : Zone F)
      → (check_zone f ids z ≡ ok tt) ↔ (IsUsable z × (contains z.id ids ≡ false))
  unfolding check_zone
  check_zone_iff ids z = elim (Result-cases (center f z)) [
    | inl (c, e) ↦ (
      λ h. (
        record { named = ground (arith, h, e); centered = (c, e); round = ground (arith, h, e) },
        ground (arith, h, e),
      ),
      λ h. ground (arith, e, h.0.named, h.0.round, h.1),
    )
    | inr (inl (x, e)) ↦ (λ h. absurd (ground (arith, h, e)), λ h. absurd (cc (h.0.centered.1, e)))
    | inr (inr e) ↦ (λ h. absurd (ground (arith, h, e)), λ h. absurd (cc (h.0.centered.1, e)))
  ]

  check_zones_iff :
      (ids : List String) (zs : List (Zone F))
      → (check_zones f ids zs ≡ ok tt) ↔ (All IsUsable zs × AreNew ids zs × AreDistinct zs)
  unfolding check_zones
  check_zones_iff ids [] = (λ h. (tt, tt, tt), λ h. refl)
  check_zones_iff ids (z ∷ zs) = (
    λ h.
        let (u, one, rest) =
          >>=-eq-ok (check_zone f ids z) (λ _. check_zones f (z.id ∷ ids) zs) h in
        let (usable, fresh) = (check_zone_iff ids z).0 one in
        let (all, new_rest, distinct) = (check_zones_iff (z.id ∷ ids) zs).0 rest in
        let (older, apart) = (AreNew-cons z.id ids zs).0 new_rest in
        ((usable, all), (fresh, older), (apart, distinct)),
    λ h.
        let one = (check_zone_iff ids z).1 (h.0.0, h.1.0) in
        let rest =
          (check_zones_iff (z.id ∷ ids) zs).1
            (h.0.1, (AreNew-cons z.id ids zs).1 (h.1.1, h.2.0), h.2.1) in
        rw one rest,
  )

  AreNew-nil : (zs : List (Zone F)) → AreNew [] zs
  unfolding contains
  AreNew-nil [] = tt
  AreNew-nil (z ∷ zs) = (refl, AreNew-nil zs)

  -- A list of zones becomes a set exactly when every zone has an identifier that is not blank, a
  -- valid center and a finite positive radius, and no two zones share an identifier; the set then
  -- holds just these zones.
  pub new_iff :
      (zs : List (Zone F)) (set : ZoneSet F)
      → (new f zs ≡ ok set) ↔ (All IsUsable zs × AreDistinct zs × (set.zones ≡ zs))
  unfolding new
  new_iff zs set = (
    λ h.
        let (u, checked, made) =
          >>=-eq-ok (check_zones f [] zs) (λ _. ok (record { zones = zs })) h in
        let (all, fresh, distinct) = (check_zones_iff [] zs).0 checked in
        (all, distinct, ground (arith, made)),
    λ h.
        let checked = (check_zones_iff [] zs).1 (h.0, AreNew-nil zs, h.1) in
        rw checked (ground (arith, h.2)),
  )
