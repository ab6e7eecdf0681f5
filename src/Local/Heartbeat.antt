-- ===== src/Local/Heartbeat.antt =====
-- local/heartbeat.py. How the HTTP request of httpx ends is an argument.
use wan_router_notifications.Common.{ℕ, Bool, false, List, ◌==◌, last_items}
use wan_router_notifications.Common.Text.{codes}
use wan_router_notifications.Common.Dict.{Dict}
use wan_router_notifications.Shared.Clock.{Instant}
use wan_router_notifications.Shared.Models.{WanState, AlertEvent, HeartbeatPayload}

unfoldable pub build_payload : Instant → Dict WanState → List AlertEvent → HeartbeatPayload
unfolding last_items
build_payload now wan_states recent_events = record {
  timestamp = now;
  wan_states = wan_states;
  recent_events = last_items 10 recent_events;
  monitor_version = codes "0.1.0";
}

-- The status code of the response, or an exception.
pub data PostOutcome : Type 0 where
  status_code : ℕ → PostOutcome
  failed : PostOutcome

unfoldable pub post_result : PostOutcome → Bool
post_result (status_code code) = code == 200
post_result failed = false

-- `send`: the payload that is posted, and the result
unfoldable pub send :
    Instant
    → (HeartbeatPayload → PostOutcome)
    → Dict WanState
    → List AlertEvent
    → HeartbeatPayload × Bool
unfolding build_payload post_result
send now post wan_states recent_events =
    let payload = build_payload now wan_states recent_events in
    (payload, post_result (post payload))
