-- ===== src/Shared/Telegram/Duration/Tests.antt =====
-- Durations at concrete inputs, those of tests/test_telegram.py among them.
use wan_router_notifications.Common.{◌+◌, ◌*◌, ◌/◌, ◌≡◌, refl}
use wan_router_notifications.Common.Int.{pos, negsuc}
use wan_router_notifications.Common.Text.{codes, join, decimal}
use wan_router_notifications.Shared.Telegram.Duration.{format_duration}
use wan_router_notifications.Shared.Telegram.Duration.RoundTrip.{
  read_duration, read_duration-format_duration,
}

one_hour : format_duration (pos (3661 * 1000000)) ≡ codes "1h 1m 1s"
unfolding format_duration join decimal
one_hour = refl

two_days : format_duration (pos (180000 * 1000000 + 999999)) ≡ codes "2d 2h"
unfolding format_duration join decimal
two_days = refl

at_once : format_duration (pos 0) ≡ codes "0s"
unfolding format_duration join decimal
at_once = refl

-- Five seconds back: the quotients round down.
clock_went_back : format_duration (negsuc 4999999) ≡ codes "-1d 23h 59m 55s"
unfolding format_duration join decimal
clock_went_back = refl

read_duration-format_duration_example :
    read_duration (format_duration (pos 3661999999)) ≡ 3661999999 / 1000000
read_duration-format_duration_example = read_duration-format_duration 3661999999
