-- ===== src/Runtime/Sound.antt =====
-- Invariants of the tracking state under the operations of src/runtime.rs.
use icloud_location.Prelude.{
  ◌≡◌, ◌∙◌, refl, sym, ◌≤◌, Option, some, List, [], ◌∷◌, ◌++◌, String, ℕ, arith, All, length, map,
  eq_iff, subst, Option-cases, inl, inr,
}
use Prim.Native.Nat.{Ordering}
use Prim.Native.String.{compare}
use icloud_location.Std.Result.{ok}
use icloud_location.Std.Vec.{push_bounded, drain_above-eq-newest, length-newest}
use icloud_location.Std.Yields.{Yields_ok}
use icloud_location.Std.TreeMap.{TreeMap, get, insert}
use icloud_location.Tracking.State.Defs.{DeviceTrackingState, new_device}
use icloud_location.Tracking.State.Events.{TrackingState, record_event}
use icloud_location.Tracking.Stationary.Consistent.{AllConsistent, observe-Yields}
use icloud_location.Runtime.Defs.{Env, Runtime, RuntimeConfig}
use icloud_location.Runtime.Action.{change_entry}
use icloud_location.Runtime.Accounts.{ensure_device, with_clock}
use icloud_location.Runtime.Commands.{change_selected}
use icloud_location.Runtime.Nearby.{forget_all_nearby, forget_nearby}
use icloud_location.Runtime.Keeps.Rules.{IsKept}
use icloud_location.Runtime.Reach.{Reach, reach-keeps, with_clock-eq-ok}

length-push_bounded {ℓ} :
    {A : Type ℓ} (n : ℕ) (xs : List A) (x : A) → length (push_bounded n xs x) ≤ n
length-push_bounded n xs x = rw (drain_above-eq-newest n (xs ++ x ∷ [])) (length-newest n _)

module _ {ℓ} {V : Type ℓ} where
  All-insert :
      (Q : String × V → Type 0) (k : String) (v : V) (m : TreeMap V)
      → Q (k, v)
      → All Q m
      → All Q (insert k v m)
  unfolding insert
  All-insert Q k v [] q h = (q, tt)
  All-insert Q k v ((j, w) ∷ m) q h =
      elim (compare k j)
        as (λ o. All Q (elim o [
          | Ordering.lt ↦ (k, v) ∷ (j, w) ∷ m
          | Ordering.eq ↦ (k, v) ∷ m
          | Ordering.gt ↦ (j, w) ∷ insert k v m
        ])) [
          | Ordering.lt ↦ (q, h)
          | Ordering.eq ↦ (q, h.1)
          | Ordering.gt ↦ (h.0, All-insert Q k v m q h.1)
        ]

module _ {F I J : Type 0} where
  -- The device is kept under its own identifier.
  abbrev pub IsKeyed : String × DeviceTrackingState F I J → Type 0
  IsKeyed (k, d) = d.device_id ≡ k

  get-IsKeyed :
      (k : String) (m : TreeMap (DeviceTrackingState F I J)) {d : DeviceTrackingState F I J}
      → All IsKeyed m
      → get k m ≡ some d
      → d.device_id ≡ k
  unfolding get
  get-IsKeyed k [] h found = absurd cc
  get-IsKeyed k ((j, w) ∷ m) {d} h found =
      ground (arith, found, h.0, eq_iff j k, get-IsKeyed k m {d = d} h.1)

  -- The history has at most a thousand events, the stationary zones are consistent with their
  -- occupants, and every device is kept under its own identifier.
  pub record IsSound (t : TrackingState F I J) : Type 0 where
    pub bounded : length t.event_history ≤ 1000
    pub consistent : AllConsistent t.stationary_zones
    pub keyed : All IsKeyed t.devices

  All-change_selected :
      (selected : Option String) (g : DeviceTrackingState F I J → DeviceTrackingState F I J)
      (m : TreeMap (DeviceTrackingState F I J))
      → ((d : DeviceTrackingState F I J) → (g d).device_id ≡ d.device_id)
      → All IsKeyed m
      → All IsKeyed (change_selected selected g m)
  unfolding change_selected
  All-change_selected selected g [] same h = tt
  All-change_selected selected g ((k, d) ∷ m) same h =
      (ground (arith, same d, h.0), All-change_selected selected g m same h.1)

  All-forget :
      (m : TreeMap (DeviceTrackingState F I J))
      → All IsKeyed m
      → All IsKeyed (map (λ (k, d). (k, forget_nearby d)) m)
  All-forget [] h = tt
  All-forget ((k, d) ∷ m) h = (h.0, All-forget m h.1)

  change_entry-IsKeyed :
      (id : String) (g : DeviceTrackingState F I J → DeviceTrackingState F I J)
      (m : TreeMap (DeviceTrackingState F I J))
      → ((d : DeviceTrackingState F I J) → (g d).device_id ≡ d.device_id)
      → All IsKeyed m
      → All IsKeyed (change_entry id g m)
  change_entry-IsKeyed id g m same h = elim (Option-cases (get id m)) [
    | inl e ↦ rw (e, change_entry) h
    | inr (d, e) ↦
        rw (e, change_entry) (All-insert IsKeyed id (g d) m (same d ∙ get-IsKeyed id m h e) h)
  ]

module _ {F I J : Type 0} (null : J) where
  ensure_device-IsKeyed :
      (id : String) (m : TreeMap (DeviceTrackingState F I J))
      → All IsKeyed m
      → All IsKeyed (ensure_device null id m)
  ensure_device-IsKeyed id m h = elim (Option-cases (get id m)) [
    | inl e ↦ rw (e, ensure_device) (All-insert IsKeyed id (new_device null id) m refl h)
    | inr (d, e) ↦ rw (e, ensure_device) h
  ]

module _ (e : Env) where
  IsSound-IsKept : IsKept e IsSound
  unfolding record_event forget_all_nearby
  IsSound-IsKept = record {
    recorded = λ at x t h. record {
      bounded = length-push_bounded 1000 t.event_history _;
      consistent = h.consistent;
      keyed = h.keyed;
    };
    saved = λ at t h. record { bounded = h.bounded; consistent = h.consistent; keyed = h.keyed };
    accounts_changed =
        λ m t h. record { bounded = h.bounded; consistent = h.consistent; keyed = h.keyed };
    occupancy_changed =
        λ m t h. record { bounded = h.bounded; consistent = h.consistent; keyed = h.keyed };
    health_changed =
        λ m t h. record { bounded = h.bounded; consistent = h.consistent; keyed = h.keyed };
    observed = λ policy zones o t m xs seen h. record {
      bounded = h.bounded;
      consistent =
          Yields_ok _ _
            (observe-Yields e.float e.chrono policy zones o t.stationary_zones h.consistent) seen;
      keyed = h.keyed;
    };
    device_changed = λ id g t same h. record {
      bounded = h.bounded;
      consistent = h.consistent;
      keyed = change_entry-IsKeyed id g t.devices same h.keyed;
    };
    selected_changed = λ selected g t same h. record {
      bounded = h.bounded;
      consistent = h.consistent;
      keyed = All-change_selected selected g t.devices same h.keyed;
    };
    device_entered = λ id t h. record {
      bounded = h.bounded;
      consistent = h.consistent;
      keyed = ensure_device-IsKeyed e.null id t.devices h.keyed;
    };
    nearby_forgotten = λ t h. record {
      bounded = h.bounded;
      consistent = h.consistent;
      keyed = All-forget t.devices h.keyed;
    };
  }

module _ {e : Env} where
  -- From a sound state that is loaded on, whatever operations are called and whether they succeed
  -- or fail, the event history has at most a thousand events, a stationary zone is active just when
  -- a device is in it, and every device is kept under its own identifier.
  pub Reach-IsSound :
      (config : RuntimeConfig e.F) (t : TrackingState e.F e.I e.J) (w : e.W) (s s' : Runtime e)
      → with_clock config (ok t) w ≡ ok s
      → IsSound t
      → Reach e s s'
      → IsSound s'.state
  Reach-IsSound config t w s s' made h r =
      reach-keeps (IsSound-IsKept e) s s' r
        (subst IsSound (sym (with_clock-eq-ok config t w made).0) h)
