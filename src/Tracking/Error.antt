-- ===== src/Tracking/Error.antt =====
-- `TrackingError`, and the results of the crate: crates/icloud-tracking/src/lib.rs.
use icloud_location.Prelude.{String}
use icloud_location.Std.Result.{Result}

pub data TrackingError : Type 0 where
  invalid_input : String → TrackingError
  duplicate_zone : String → TrackingError
  persistence : String → TrackingError

abbrev pub Tracked {ℓ} : Type ℓ → Type ℓ
Tracked A = Result TrackingError A
