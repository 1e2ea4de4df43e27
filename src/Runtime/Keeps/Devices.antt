-- ===== src/Runtime/Keeps/Devices.antt =====
-- A refresh of one device, in src/runtime.rs, keeps what the basic changes keep.
use icloud_location.Prelude.{
  ◌≡◌, refl, arith, Bool, true, false, Option, none, some, List, [], ◌∷◌, String, ℕ,
}
use icloud_location.Std.Result.{ok, err, panic}
use icloud_location.Std.TreeMap.{TreeSet}
use icloud_location.Core.{
  Coordinates, DeviceSnapshot, LocationSample, LocationSourceKind, TrackingEvent, ExternalTrigger,
  BatterySnapshot, DeviceAvailability,
}
use icloud_location.Tracking.Direction.Defs.{DirectionDecision}
use icloud_location.Tracking.Interval.Determine.{TrackingIntervalDecision}
use icloud_location.Tracking.Quality.Defs.{LocationQuality, good, grace, rejected}
use icloud_location.Tracking.State.Device.{
  apply_location, accept_location, update_availability, update_battery,
}
use icloud_location.Tracking.State.Events.{TrackingState}
use icloud_location.Tracking.Stationary.Observe.{observe}
use icloud_location.Runtime.Defs.{Env, Runtime, Device}
use icloud_location.Runtime.Refresh.Quality.{
  open_device, judge, judge_location, apply_battery, charge,
}
use icloud_location.Runtime.Refresh.Sighting.{
  sight_at, sight_location, sight, watch_stationary, observation_of,
}
use icloud_location.Runtime.Refresh.Interval.{
  Facts, distance_of, steer, decide_interval, take_route,
}
use icloud_location.Runtime.Refresh.Tracks.{follow_zone, follow_known, follow_zones, follow}
use icloud_location.Runtime.Refresh.Device.{plan_update, gather, refresh_device, set_time}
use icloud_location.Tracking.Error.{Tracked}
use icloud_location.Tracking.Stationary.Defs.{StationaryZoneManager}
use icloud_location.Runtime.Keeps.Routes.{find_route-Keeps}
use icloud_location.Runtime.Action.{on_state, Action, tracked, pure, ◌>>=◌, ◌>>◌}
use icloud_location.Runtime.Keeps.Rules.{Keeps, IsKept, Keeps-on_state, Keeps-pure, kept_rules}

module _ (e : Env) where
  apply_location-device_id :
      (sample : LocationSample e.F e.I) (q : LocationQuality) (d : Device e)
      → (apply_location e.float sample q d).device_id ≡ d.device_id
  unfolding apply_location accept_location
  apply_location-device_id sample good d = refl
  apply_location-device_id sample (grace r) d = refl
  apply_location-device_id sample (rejected r) d = refl

  update_availability-device_id :
      (a : DeviceAvailability) (now : e.I) (d : Device e)
      → (update_availability e.chrono a now d).device_id ≡ d.device_id
  unfolding update_availability
  update_availability-device_id a now d = refl

  charge-device_id :
      (b : BatterySnapshot) (at : e.I) (source : LocationSourceKind) (d : Device e)
      → (charge e.chrono b at source d).device_id ≡ d.device_id
  unfolding update_battery
  charge-device_id b at source d = ground arith

  take_route-device_id :
      (facts : Facts e.F) (now : e.I) (d : Device e)
      → (take_route facts now d).device_id ≡ d.device_id
  take_route-device_id facts now d = ground arith

  pub set_time-device_id :
      (tracks : Bool) (at : e.I) (d : Device e) → (set_time tracks at d).device_id ≡ d.device_id
  set_time-device_id true at d = refl
  set_time-device_id false at d = refl

ruleset same_device = (
  apply_location-device_id, update_availability-device_id, charge-device_id, take_route-device_id,
  set_time-device_id,
)

module _ {e : Env} where
  -- What `watch_stationary` does with the result of the manager.
  abbrev set_stationary :
      Tracked (StationaryZoneManager e.F e.I × List (TrackingEvent e.I))
      → Action e (List (TrackingEvent e.I))
  set_stationary r = do
    (zones, events) ← tracked r
    on_state (λ t. record t { stationary_zones = zones })
    pure events

module _ {e : Env} {P : TrackingState e.F e.I e.J → Type 0} (kept : IsKept e P) where
  open_device-Keeps :
      (snapshot : DeviceSnapshot e.F e.I e.J) (now : e.I) → Keeps e P (open_device snapshot now)
  unfolding open_device
  open_device-Keeps snapshot now =
      search (kept_rules, same_device, Keeps-on_state, kept.device_entered snapshot.id) depth 16

  judge-Keeps :
      (id : String) (now : e.I) (sample : LocationSample e.F e.I) → Keeps e P (judge id now sample)
  unfolding judge
  judge-Keeps id now sample = search (kept_rules, same_device) depth 16

  judge_location-Keeps :
      (id : String) (now : e.I) (sample : Option (LocationSample e.F e.I))
      → Keeps e P (judge_location id now sample)
  unfolding judge_location
  judge_location-Keeps id now none = Keeps-pure none
  judge_location-Keeps id now (some sample) = search (kept_rules, judge-Keeps)

  apply_battery-Keeps :
      (id : String) (at : e.I) (source : LocationSourceKind) (b : Option BatterySnapshot)
      → Keeps e P (apply_battery id at source b)
  unfolding apply_battery
  apply_battery-Keeps id at source none = Keeps-pure tt
  apply_battery-Keeps id at source (some b) = search (kept_rules, same_device)

  sight_at-Keeps :
      (id : String) (now : e.I) (trigger : Option ExternalTrigger) (l : LocationSample e.F e.I)
      → Keeps e P (sight_at id now trigger l)
  unfolding sight_at
  sight_at-Keeps id now trigger l = search kept_rules depth 24

  sight_location-Keeps :
      (id : String) (now : e.I) (trigger : Option ExternalTrigger)
      (l : Option (LocationSample e.F e.I))
      → Keeps e P (sight_location id now trigger l)
  sight_location-Keeps id now trigger none = Keeps-pure _
  sight_location-Keeps id now trigger (some l) = sight_at-Keeps id now trigger l

  sight-Keeps :
      (id : String) (now : e.I) (trigger : Option ExternalTrigger) (q : Option LocationQuality)
      → Keeps e P (sight id now trigger q)
  unfolding sight
  sight-Keeps id now trigger q = search (kept_rules, sight_location-Keeps) depth 8

  distance_of-Keeps : (id : String) (km : Option e.F) → Keeps e P (distance_of id km)
  unfolding distance_of
  distance_of-Keeps id (some km) = Keeps-pure km
  distance_of-Keeps id none = search kept_rules depth 8

  steer-Keeps : (id : String) (now : e.I) (facts : Facts e.F) → Keeps e P (steer id now facts)
  unfolding steer
  steer-Keeps id now facts =
      search (kept_rules, same_device, Keeps-on_state, kept.occupancy_changed) depth 20

  decide_interval-Keeps : (id : String) (facts : Facts e.F) → Keeps e P (decide_interval id facts)
  unfolding decide_interval
  decide_interval-Keeps id facts = search kept_rules depth 8

  follow_zone-Keeps :
      (id : String) (now : e.I) (facts : Facts e.F) (direction : DirectionDecision)
      (decision : TrackingIntervalDecision) (zone : String) (distance : e.F)
      → Keeps e P (follow_zone id now facts direction decision zone distance)
  unfolding follow_zone
  follow_zone-Keeps id now facts direction decision zone distance = search kept_rules depth 40

  follow_known-Keeps :
      (id : String) (now : e.I) (facts : Facts e.F) (direction : DirectionDecision)
      (decision : TrackingIntervalDecision) (zone : String) (seconds : ℕ) (distance : Option e.F)
      → Keeps e P (follow_known id now facts direction decision zone seconds distance)
  follow_known-Keeps id now facts direction decision zone seconds none = Keeps-pure _
  follow_known-Keeps id now facts direction decision zone seconds (some distance) =
      search (kept_rules, follow_zone-Keeps)

  follow_zones-Keeps :
      (id : String) (now : e.I) (facts : Facts e.F) (direction : DirectionDecision)
      (decision : TrackingIntervalDecision) (zones : TreeSet) (seconds : ℕ)
      → Keeps e P (follow_zones id now facts direction decision zones seconds)
  unfolding follow_zones
  follow_zones-Keeps id now facts direction decision [] seconds = Keeps-pure _
  follow_zones-Keeps id now facts direction decision (zone ∷ zones) seconds =
      search
        (kept_rules, follow_known-Keeps, follow_zones-Keeps id now facts direction decision zones)
        depth 8

  follow-Keeps :
      (id : String) (now : e.I) (facts : Facts e.F) (direction : DirectionDecision)
      (decision : TrackingIntervalDecision)
      → Keeps e P (follow id now facts direction decision)
  unfolding follow
  follow-Keeps id now facts direction decision = search (kept_rules, follow_zones-Keeps) depth 12

  plan_update-Keeps :
      (id : String) (now : e.I) (offline : Bool) (seconds : ℕ)
      → Keeps e P (plan_update id now offline seconds)
  unfolding plan_update
  plan_update-Keeps id now offline seconds = search (kept_rules, same_device) depth 12

  observed-keeps :
      (s : Runtime e) (r : Tracked (StationaryZoneManager e.F e.I × List (TrackingEvent e.I)))
      → ((m : StationaryZoneManager e.F e.I) (xs : List (TrackingEvent e.I))
          → r ≡ ok (m, xs)
          → P (record (s.state) { stationary_zones = m }))
      → P s.state
      → P (set_stationary r s).1.state
  observed-keeps s (ok (m, xs)) k h = k m xs refl
  observed-keeps s (err x) k h = h
  observed-keeps s panic k h = h

  watch_stationary-Keeps :
      (id : String) (now : e.I) (q : Option LocationQuality) (o : Option (Coordinates e.F × e.F))
      → Keeps e P (watch_stationary id now q o)
  unfolding watch_stationary
  watch_stationary-Keeps id now q none = Keeps-pure _
  watch_stationary-Keeps id now q (some (location, moved)) = record {
    at = λ s h.
        observed-keeps s
          (observe e.float e.chrono s.config.stationary s.config.zones
            (observation_of id now q location moved) s.state.stationary_zones)
          (λ m xs seen. kept.observed _ _ _ s.state m xs seen h) h;
  }

  gather-Keeps :
      (snapshot : DeviceSnapshot e.F e.I e.J) (now : e.I) (external_update : Bool)
      (trigger : Option ExternalTrigger)
      → Keeps e P (gather snapshot now external_update trigger)
  unfolding gather
  gather-Keeps snapshot now external_update trigger =
      search
        (
          kept_rules, open_device-Keeps, judge_location-Keeps, apply_battery-Keeps, sight-Keeps,
          watch_stationary-Keeps, find_route-Keeps, distance_of-Keeps,
        )
        depth 40

  pub refresh_device-Keeps :
      (snapshot : DeviceSnapshot e.F e.I e.J) (now : e.I) (external_update : Bool)
      (trigger : Option ExternalTrigger)
      → Keeps e P (refresh_device snapshot now external_update trigger)
  unfolding refresh_device
  refresh_device-Keeps snapshot now external_update trigger =
      search
        (
          kept_rules, gather-Keeps, steer-Keeps, decide_interval-Keeps, follow-Keeps,
          plan_update-Keeps,
        )
        depth 40
