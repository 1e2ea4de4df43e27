-- ===== src/Runtime/Refresh/Route.antt =====
-- The route of an observed location, in `apply_refresh` (src/runtime.rs).
use icloud_location.Prelude.{
  ℕ, Bool, not, ◌&&◌, ◌⊎◌, inl, inr, Option, none, some, List, [], ◌∷◌, ◌++◌, String, str_eq,
  opt_str_eq, is_some_and, unwrap_or, if◌then◌else◌, map_option,
}
use Prim.Native.String.{◌++◌ as ◌+++◌}
use icloud_location.Std.Float.{Float}
use icloud_location.Std.Chrono.{Chrono}
use icloud_location.Std.Filter.{filter}
use icloud_location.Std.Sort.{first}
use icloud_location.Std.TreeMap.{TreeMap}
use icloud_location.Core.{Coordinates, LocationSample, TrackingEvent, distance_meters}
use icloud_location.Routing.{
  RouteEstimate, RouteHistoryEntry, RouteHistoryQuery, RouteRequest, RoutingError, routing_text,
}
use icloud_location.Tracking.Zone.Defs.{Zone, center}
use icloud_location.Tracking.State.Defs.{DeviceTrackingState}
use icloud_location.Runtime.Defs.{Env}
use icloud_location.Runtime.Accounts.{same_instant}
use icloud_location.Runtime.Action.{Action, pure, gets, tracked, call, ◌>>=◌}

pub record Route (F : Type 0) : Type 0 where
  pub distance_km : F
  pub duration_seconds : Option ℕ

abbrev route_of : {F : Type 0} → RouteEstimate F → Route F
route_of x = record { distance_km = x.distance_km; duration_seconds = x.duration_seconds }

abbrev warn : {I : Type 0} → String → RoutingError → List (TrackingEvent I)
warn what x = TrackingEvent.warning (what +++ routing_text x) ∷ []

module _ {F I D J : Type 0} (f : Float F) (c : Chrono I D) where
  -- The route of another device at the same place is taken over.
  unfoldable pub is_same_route :
      String
      → Option String
      → I
      → Coordinates F
      → DeviceTrackingState F I J
      → LocationSample F I
      → Bool
  is_same_route id closest now destination d location =
      not (str_eq d.device_id id)
      && opt_str_eq d.route_zone_id closest
      && is_some_and d.route_updated_at (λ t. same_instant c t now)
      && f.le (distance_meters f location.coordinates destination) (f.decimal 25 0)
      && f.le (unwrap_or location.horizontal_accuracy_meters f.infinity) (f.decimal 25 0)

  abbrev route_from :
      String → Option String → I → Coordinates F → DeviceTrackingState F I J → Option (Route F)
  route_from id closest now destination d = elim d.current_location [
    | none ↦ none
    | some location ↦
        if is_same_route id closest now destination d location
        then map_option
            (λ km. record { distance_km = km; duration_seconds = d.route_duration_seconds })
            d.route_distance_km
        else none
  ]

  unfoldable pub nearby_route :
      String
      → Option String
      → I
      → Coordinates F
      → TreeMap (DeviceTrackingState F I J)
      → Option (Route F)
  unfolding is_same_route
  nearby_route id closest now destination [] = none
  nearby_route id closest now destination ((_, d) ∷ devices) =
      let rest = nearby_route id closest now destination devices in
      elim (route_from id closest now destination d) [ some r ↦ some r | none ↦ rest ]

module _ {F I : Type 0} where
  abbrev found :
      RoutingError ⊎ Option (RouteHistoryEntry F I)
      → Option (RouteEstimate F) × List (TrackingEvent I)
  found (inl x) = (none, warn "route-history lookup failed: " x)
  found (inr entry) = (map_option (λ h. h.estimate) entry, [])

  abbrev stored : RoutingError ⊎ RouteHistoryEntry F I → List (TrackingEvent I)
  stored (inl x) = warn "route-history store failed: " x
  stored (inr entry) = []

module _ {e : Env} where
  -- The history is asked for a route.
  unfoldable pub recall :
      Option e.H
      → String
      → Coordinates e.F
      → Action e (Option (RouteEstimate e.F) × List (TrackingEvent e.I))
  recall none zone destination = pure (none, [])
  recall (some history) zone destination = do
    let query : RouteHistoryQuery e.F = record {
      zone_id = zone;
      destination = destination;
      maximum_distance_meters = e.float.decimal 100 0;
    }
    r ← call (e.lookup history query)
    pure (found r)

  -- The history keeps a route.
  unfoldable pub keep :
      Option e.H
      → String
      → Coordinates e.F
      → e.I
      → RouteEstimate e.F
      → Action e (List (TrackingEvent e.I))
  keep none zone destination now estimate = pure []
  keep (some history) zone destination now estimate = do
    let entry : RouteHistoryEntry e.F e.I = record {
      id = none;
      zone_id = zone;
      destination = destination;
      estimate = estimate;
      recorded_at = now;
      use_count = 1;
    }
    r ← call (e.store history entry)
    pure (stored r)

  abbrev pub keep_calculated :
      Option e.H
      → String
      → Coordinates e.F
      → e.I
      → RoutingError ⊎ RouteEstimate e.F
      → Action e (Option (RouteEstimate e.F) × List (TrackingEvent e.I))
  keep_calculated history zone destination now (inl x) =
      pure (none, warn "route calculation failed: " x)
  keep_calculated history zone destination now (inr estimate) = do
    events ← keep history zone destination now estimate
    pure (some estimate, events)

  -- The provider is asked where the history has no route.
  unfoldable pub calculate :
      e.R
      → Option e.H
      → String
      → Coordinates e.F
      → Coordinates e.F
      → e.I
      → Option (RouteEstimate e.F)
      → Action e (Option (RouteEstimate e.F) × List (TrackingEvent e.I))
  unfolding keep
  calculate provider history zone origin destination now (some estimate) = pure (some estimate, [])
  calculate provider history zone origin destination now none = do
    let request : RouteRequest e.F e.I = record {
      origin = origin;
      destination = destination;
      departure = now;
    }
    r ← call (e.route provider request)
    keep_calculated history zone destination now r

  unfoldable pub route_between :
      e.R
      → String
      → Coordinates e.F
      → Coordinates e.F
      → e.I
      → Action e (Option (Route e.F) × List (TrackingEvent e.I))
  unfolding recall calculate
  route_between provider zone origin destination now = do
    history ← gets (λ s. s.route_history)
    (known, lookup_events) ← recall history zone destination
    (estimate, events) ← calculate provider history zone origin destination now known
    pure (map_option route_of estimate, lookup_events ++ events)

  abbrev pub route_from_zone :
      e.R
      → Option (Zone e.F)
      → String
      → Coordinates e.F
      → e.I
      → Action e (Option (Route e.F) × List (TrackingEvent e.I))
  route_from_zone provider none id destination now = pure (none, [])
  route_from_zone provider (some zone) id destination now = do
    origin ← tracked (center e.float zone)
    route_between provider id origin destination now

  -- A route to the nearest zone by the provider, if there is one.
  abbrev pub provided :
      Option e.R
      → Option String
      → Coordinates e.F
      → e.I
      → Action e (Option (Route e.F) × List (TrackingEvent e.I))
  provided none closest destination now = pure (none, [])
  provided (some provider) none destination now = pure (none, [])
  provided (some provider) (some id) destination now = do
    config ← gets (λ s. s.config)
    route_from_zone provider (first (filter (λ z. str_eq z.id id) config.zones.zones)) id
        destination now

  abbrev pub route_or :
      Option (Route e.F)
      → Option String
      → Coordinates e.F
      → e.I
      → Action e (Option (Route e.F) × List (TrackingEvent e.I))
  route_or (some route) closest destination now = pure (some route, [])
  route_or none closest destination now = do
    provider ← gets (λ s. s.route_provider)
    provided provider closest destination now

  -- The route of an update, with the warnings.
  unfoldable pub find_route :
      String
      → Option String
      → e.I
      → Option (Coordinates e.F × e.F)
      → Action e (Option (Route e.F) × List (TrackingEvent e.I))
  unfolding nearby_route route_between
  find_route id closest now none = pure (none, [])
  find_route id closest now (some (destination, _)) = do
    devices ← gets (λ s. s.state.devices)
    route_or (nearby_route e.float e.chrono id closest now destination devices) closest destination
        now
