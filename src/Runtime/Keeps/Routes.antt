-- ===== src/Runtime/Keeps/Routes.antt =====
-- The search for a route, in src/runtime.rs, keeps what the basic changes keep.
use icloud_location.Prelude.{◌⊎◌, inl, inr, Option, none, some, String}
use icloud_location.Core.{Coordinates}
use icloud_location.Routing.{RouteEstimate, RoutingError}
use icloud_location.Tracking.Zone.Defs.{Zone}
use icloud_location.Tracking.State.Events.{TrackingState}
use icloud_location.Runtime.Defs.{Env}
use icloud_location.Runtime.Refresh.Route.{
  Route, recall, keep, keep_calculated, calculate, route_between, route_from_zone, provided,
  route_or, find_route,
}
use icloud_location.Runtime.Keeps.Rules.{Keeps, IsKept, Keeps-pure, kept_rules}

module _ {e : Env} {P : TrackingState e.F e.I e.J → Type 0} (kept : IsKept e P) where
  recall-Keeps :
      (history : Option e.H) (zone : String) (destination : Coordinates e.F)
      → Keeps e P (recall history zone destination)
  unfolding recall
  recall-Keeps none zone destination = Keeps-pure _
  recall-Keeps (some history) zone destination = search kept_rules

  keep-Keeps :
      (history : Option e.H) (zone : String) (destination : Coordinates e.F) (now : e.I)
      (estimate : RouteEstimate e.F)
      → Keeps e P (keep history zone destination now estimate)
  unfolding keep
  keep-Keeps none zone destination now estimate = Keeps-pure _
  keep-Keeps (some history) zone destination now estimate = search kept_rules

  keep_calculated-Keeps :
      (history : Option e.H) (zone : String) (destination : Coordinates e.F) (now : e.I)
      (r : RoutingError ⊎ RouteEstimate e.F)
      → Keeps e P (keep_calculated history zone destination now r)
  keep_calculated-Keeps history zone destination now (inl x) = Keeps-pure _
  keep_calculated-Keeps history zone destination now (inr estimate) =
      search (kept_rules, keep-Keeps)

  calculate-Keeps :
      (provider : e.R) (history : Option e.H) (zone : String) (origin destination : Coordinates e.F)
      (now : e.I) (known : Option (RouteEstimate e.F))
      → Keeps e P (calculate provider history zone origin destination now known)
  unfolding calculate
  calculate-Keeps provider history zone origin destination now (some estimate) = Keeps-pure _
  calculate-Keeps provider history zone origin destination now none =
      search (kept_rules, keep_calculated-Keeps)

  route_between-Keeps :
      (provider : e.R) (zone : String) (origin destination : Coordinates e.F) (now : e.I)
      → Keeps e P (route_between provider zone origin destination now)
  unfolding route_between
  route_between-Keeps provider zone origin destination now =
      search (kept_rules, recall-Keeps, calculate-Keeps) depth 12

  route_from_zone-Keeps :
      (provider : e.R) (zone : Option (Zone e.F)) (id : String) (destination : Coordinates e.F)
      (now : e.I)
      → Keeps e P (route_from_zone provider zone id destination now)
  route_from_zone-Keeps provider none id destination now = Keeps-pure _
  route_from_zone-Keeps provider (some zone) id destination now =
      search (kept_rules, route_between-Keeps)

  provided-Keeps :
      (provider : Option e.R) (closest : Option String) (destination : Coordinates e.F) (now : e.I)
      → Keeps e P (provided provider closest destination now)
  provided-Keeps none closest destination now = Keeps-pure _
  provided-Keeps (some provider) none destination now = Keeps-pure _
  provided-Keeps (some provider) (some id) destination now =
      search (kept_rules, route_from_zone-Keeps)

  route_or-Keeps :
      (known : Option (Route e.F)) (closest : Option String) (destination : Coordinates e.F)
      (now : e.I)
      → Keeps e P (route_or known closest destination now)
  route_or-Keeps (some route) closest destination now = Keeps-pure _
  route_or-Keeps none closest destination now = search (kept_rules, provided-Keeps)

  pub find_route-Keeps :
      (id : String) (closest : Option String) (now : e.I) (o : Option (Coordinates e.F × e.F))
      → Keeps e P (find_route id closest now o)
  unfolding find_route
  find_route-Keeps id closest now none = Keeps-pure _
  find_route-Keeps id closest now (some (destination, _)) = search (kept_rules, route_or-Keeps)
