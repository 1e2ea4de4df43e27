-- ===== src/Routing.antt =====
-- Routes and their history: crates/icloud-routing/src/lib.rs.
use Prim.Native.String.{◌++◌}
use icloud_location.Prelude.{ℕ, Option, none, String}
use icloud_location.Prelude.Int.{ℤ}
use icloud_location.Std.Float.{Float}
use icloud_location.Core.{Coordinates, distance_meters}

pub record RouteRequest (F I : Type 0) : Type 0 where
  pub origin : Coordinates F
  pub destination : Coordinates F
  pub departure : I

pub data RouteStatus : Type 0 where
  used straight_line out_of_range paused no_data : RouteStatus

pub record RouteEstimate (F : Type 0) : Type 0 where
  pub status : RouteStatus
  pub distance_km : F
  pub duration_seconds : Option ℕ
  pub provider : String

pub record RouteHistoryEntry (F I : Type 0) : Type 0 where
  pub id : Option ℤ
  pub zone_id : String
  pub destination : Coordinates F
  pub estimate : RouteEstimate F
  pub recorded_at : I
  pub use_count : ℕ

pub record RouteHistoryQuery (F : Type 0) : Type 0 where
  pub zone_id : String
  pub destination : Coordinates F
  pub maximum_distance_meters : F

pub data RoutingError : Type 0 where
  provider history invalid_response : String → RoutingError

-- The text of a `RoutingError`.
abbrev pub routing_text : RoutingError → String
routing_text (RoutingError.provider m) = "route provider failed: " ++ m
routing_text (history m) = "route history failed: " ++ m
routing_text (invalid_response m) = "invalid route response: " ++ m

module _ {F I : Type 0} (f : Float F) where
  -- `StraightLineRouteProvider::route`, which never fails.
  unfoldable pub straight_line_route : RouteRequest F I → RouteEstimate F
  straight_line_route request = record {
    status = straight_line;
    distance_km = f.div (distance_meters f request.origin request.destination) (f.decimal 1000 0);
    duration_seconds = none;
    provider = "straight_line";
  }
