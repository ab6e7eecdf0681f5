-- ===== src/Remote/HeartbeatStore/Tests.antt =====
-- The heartbeat store at concrete times.
use wan_router_notifications.Common.{◌≡◌, refl, true, false, []}
use wan_router_notifications.Common.Int.{pos, ◌*ℤ◌}
use wan_router_notifications.Common.Text.{codes}
use wan_router_notifications.Shared.Clock.{minus}
use wan_router_notifications.Shared.Models.{HeartbeatPayload}
use wan_router_notifications.Remote.HeartbeatStore.{
  HeartbeatStore, new_store, record_heartbeat, threshold, is_missing, should_alert_missing,
}

abbrev payload : HeartbeatPayload
payload = record {
  timestamp = 0;
  wan_states = [];
  recent_events = [];
  monitor_version = codes "0.1.0";
}

abbrev beaten : HeartbeatStore
beaten = record_heartbeat 1000000 payload (new_store (pos 60) (pos 3))

-- at the threshold itself nothing is missing
at_threshold : is_missing 181000000 beaten ≡ false
unfolding is_missing record_heartbeat new_store threshold minus ◌*ℤ◌
at_threshold = refl

alert_due : (should_alert_missing 181000001 beaten).1 ≡ true
unfolding should_alert_missing is_missing record_heartbeat new_store threshold minus ◌*ℤ◌
alert_due = refl
