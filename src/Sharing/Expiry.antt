-- ===== src/Sharing/Expiry.antt =====
-- The times at which a share ends.
use isms_portal.Base.{ℕ, ◌+◌, ◌*◌, ◌≤◌, ◌<◌, ◌≡◌, Option, none, some, arith}
use isms_portal.Sharing.{
  Duration, lifetime, custom, hours_24, days_7, days_30, days_90, day, max_custom_days,
  resolve_expiry,
}

-- Every share that is not for life ends in the future, and after five years of 365 days at the
-- latest.
pub resolve_expiry_bounds :
    (now : ℕ) (duration : Duration) (date : Option ℕ) (t : ℕ)
    → resolve_expiry now duration date ≡ some (some t)
    → (now < t) × (t ≤ now + max_custom_days * day)
unfolding resolve_expiry
resolve_expiry_bounds now lifetime date t e = cc
resolve_expiry_bounds now custom none t e = cc
resolve_expiry_bounds now custom (some d) t e = (ground arith, ground arith)
resolve_expiry_bounds now hours_24 date t e = (ground arith, ground arith)
resolve_expiry_bounds now days_7 date t e = (ground arith, ground arith)
resolve_expiry_bounds now days_30 date t e = (ground arith, ground arith)
resolve_expiry_bounds now days_90 date t e = (ground arith, ground arith)
