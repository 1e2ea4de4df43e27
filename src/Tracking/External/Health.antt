-- ===== src/Tracking/External/Health.antt =====
-- The health of an external source.
use mathlib.Core.List.{Memᴰ}
use icloud_location.Prelude.{
  ◌≡◌, ◌⊎◌, inl, inr, refl, true, not, Option, none, some, List, [], ◌∷◌, arith, All, is_some_and,
  is_none_or, Bool-cases, Option-cases, ◌∙◌,
}
use icloud_location.Std.Chrono.{Chrono, IsChrono}
use icloud_location.Tracking.External.Defs.{ExternalSourceHealth, record_update}

module _ {I D : Type 0} (c : Chrono I D) where
  -- The latest update of a source is not before an instant.
  abbrev pub CoversUpTo : ExternalSourceHealth I → I → Type 0
  CoversUpTo h t = is_some_and h.last_update_at (λ last. not (c.before last t)) ≡ true

  -- It is not before the one that was known, where there was one.
  abbrev pub CoversKnown : ExternalSourceHealth I → Option I → Type 0
  CoversKnown h none = Unit
  CoversKnown h (some u) = CoversUpTo h u

  record_update_covers :
      IsChrono c → (t : I) (h : ExternalSourceHealth I) → CoversUpTo (record_update c t h) t
  unfolding record_update
  record_update_covers laws t h = ground (arith, laws.before_irrefl t)

  record_update_keeps :
      IsChrono c
      → (t u : I) (h : ExternalSourceHealth I) → CoversUpTo h u
      → CoversUpTo (record_update c t h) u
  unfolding record_update
  record_update_keeps laws t u h covered = elim (Option-cases h.last_update_at) [
    | inl e ↦ absurd (ground (arith, e))
    | inr (last, e) ↦ ground (arith, e, laws.before_trans last t u)
  ]

  -- Updates in any order.
  abbrev pub record_all : List I → ExternalSourceHealth I → ExternalSourceHealth I
  record_all [] h = h
  record_all (t ∷ ts) h = record_all ts (record_update c t h)

  record_all_keeps :
      IsChrono c
      → (ts : List I) (u : I) (h : ExternalSourceHealth I) → CoversUpTo h u
      → CoversUpTo (record_all ts h) u
  record_all_keeps laws [] u h covered = covered
  record_all_keeps laws (t ∷ ts) u h covered =
      record_all_keeps laws ts u (record_update c t h) (record_update_keeps laws t u h covered)

  -- The time of the last update comes from the updates, or was known before.
  abbrev pub IsAttained : List I → ExternalSourceHealth I → ExternalSourceHealth I → Type 0
  IsAttained ts h h' =
      (h'.last_update_at ≡ h.last_update_at) ⊎ ((t : I) × Memᴰ t ts × (h'.last_update_at ≡ some t))

  record_update_attained :
      (t : I) (h : ExternalSourceHealth I)
      → ((record_update c t h).last_update_at ≡ h.last_update_at)
        ⊎ ((record_update c t h).last_update_at ≡ some t)
  unfolding record_update
  record_update_attained t h =
      elim (Bool-cases (is_none_or h.last_update_at (λ current. c.before current t))) [
        | inl later ↦ inr (rw later refl)
        | inr early ↦ inl (rw early refl)
      ]

  record_all-IsAttained :
      (ts : List I) (h : ExternalSourceHealth I) → IsAttained ts h (record_all ts h)
  record_all-IsAttained [] h = inl refl
  record_all-IsAttained (t ∷ ts) h =
      let next = record_update c t h in
      elim (record_all-IsAttained ts next) [
        | inl same ↦ elim (record_update_attained t h) [
          | inl kept ↦ inl (same ∙ kept)
          | inr new ↦ inr (t, Memᴰ.head refl, same ∙ new)
        ]
        | inr (u, m, e) ↦ inr (u, Memᴰ.tail m, e)
      ]

  -- In whatever order its updates arrive, the last update of a source is the latest of them and of
  -- the one known before: neither an update nor the one known before is later, and it is one of them.
  pub record_all_latest :
      (laws : IsChrono c) (ts : List I) (h : ExternalSourceHealth I)
      → All (CoversUpTo (record_all ts h)) ts
        × CoversKnown (record_all ts h) h.last_update_at
        × IsAttained ts h (record_all ts h)
  record_all_latest laws ts h =
      (covers ts h, known h.last_update_at refl, record_all-IsAttained ts h)
    where
      known : (o : Option I) → h.last_update_at ≡ o → CoversKnown (record_all ts h) o
      known none e = tt
      known (some u) e = record_all_keeps laws ts u h (ground (arith, e, laws.before_irrefl u))

      covers : (ts : List I) (h : ExternalSourceHealth I) → All (CoversUpTo (record_all ts h)) ts
      covers [] h = tt
      covers (t ∷ ts) h = (
        record_all_keeps laws ts t (record_update c t h) (record_update_covers laws t h),
        covers ts (record_update c t h),
      )
