-- ===== src/Tracking/Interval/Retry.antt =====
-- The intervals after errors and for offline devices.
use icloud_location.Prelude.{ℕ, ◌≤◌, arith}
use icloud_location.Tracking.Interval.Defs.{retry_interval_seconds, offline_interval_seconds}

-- More errors never shorten the retry interval, which lies between five seconds and an hour.
pub retry_interval_mono :
    (a b : ℕ)
    → a ≤ b
    → (retry_interval_seconds a ≤ retry_interval_seconds b)
      × (5 ≤ retry_interval_seconds a)
      × (retry_interval_seconds b ≤ 3600)
unfolding retry_interval_seconds
retry_interval_mono a b h = ground arith

-- An older location never shortens the interval of an offline device, which lies between three
-- minutes and an hour.
pub offline_interval_mono :
    (a b : ℕ)
    → a ≤ b
    → (offline_interval_seconds a ≤ offline_interval_seconds b)
      × (180 ≤ offline_interval_seconds a)
      × (offline_interval_seconds b ≤ 3600)
unfolding offline_interval_seconds
offline_interval_mono a b h = ground arith
