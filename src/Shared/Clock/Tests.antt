-- ===== src/Shared/Clock/Tests.antt =====
-- Dates of the calendar at known instants.
use wan_router_notifications.Common.{◌*◌, ◌≡◌, refl}
use wan_router_notifications.Common.Text.{codes}
use wan_router_notifications.Shared.Clock.{strftime}

-- The Unix epoch, a leap day and the last day of a leap year.
epoch_date : strftime (62135596800 * 1000000) ≡ codes "1970-01-01 00:00:00 UTC"
unfolding strftime
epoch_date = refl

leap_day : strftime (63844806645 * 1000000) ≡ codes "2024-02-29 12:30:45 UTC"
unfolding strftime
leap_day = refl

new_years_eve : strftime (63871286399 * 1000000) ≡ codes "2024-12-31 23:59:59 UTC"
unfolding strftime
new_years_eve = refl
