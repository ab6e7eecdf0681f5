-- ===== src/Remote/ExternalProbe/Tests.antt =====
-- The external probe at a concrete target.
use wan_router_notifications.Common.{ℕ, ◌≡◌, refl, Bool, true, [], ◌∷◌, ◌==◌}
use wan_router_notifications.Common.Text.{codes, is_truthy}
use wan_router_notifications.Remote.ExternalProbe.{
  reachable, ExternalProbe, new_probe, http_error, try_ports, check,
}

abbrev home_probe : ExternalProbe
home_probe = new_probe (codes "203.0.113.7") true

abbrev https_only : ℕ → Bool
https_only port = port == 443

-- The loop stops at the port that connects.
stops_at_https : check home_probe http_error https_only ≡ (reachable, 80 ∷ 443 ∷ [])
unfolding check new_probe is_truthy try_ports
stops_at_https = refl
