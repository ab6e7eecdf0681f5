-- ===== src/Remote/HeartbeatStore.antt =====
-- `HeartbeatStore` and the two endpoints of remote/heartbeat_receiver.py. The intervals are Python
-- integers, which the configuration does not bound, so they may be negative.
mod Tests
use wan_router_notifications.Common.{
  ℕ, ◌*◌, Bool, true, false, not, ◌&&◌, [], Option, none, some, if◌then◌else◌,
}
use wan_router_notifications.Common.Int.{ℤ, pos, ◌*ℤ◌, ltb_ℤ}
use wan_router_notifications.Common.Text.{Text, codes}
use wan_router_notifications.Common.Dict.{Dict}
use wan_router_notifications.Shared.Clock.{Instant, minus, micros_per_second}
use wan_router_notifications.Shared.Models.{WanState, HeartbeatPayload}

pub record HeartbeatStore : Type 0 where
  pub expected_interval : ℤ
  pub missed_threshold : ℤ
  pub last_heartbeat : Option Instant
  pub last_payload : Option HeartbeatPayload
  pub alerted_missing : Bool

unfoldable pub new_store : ℤ → ℤ → HeartbeatStore
new_store expected_interval missed_threshold = record {
  expected_interval = expected_interval;
  missed_threshold = missed_threshold;
  last_heartbeat = none;
  last_payload = none;
  alerted_missing = false;
}

unfoldable pub record_heartbeat : Instant → HeartbeatPayload → HeartbeatStore → HeartbeatStore
record_heartbeat now payload s = record s {
  last_heartbeat = some now;
  last_payload = some payload;
  alerted_missing = false;
}

-- The threshold in microseconds: both sides of the comparison are scaled by a million.
unfoldable pub threshold : HeartbeatStore → ℤ
threshold s = s.expected_interval *ℤ s.missed_threshold *ℤ pos micros_per_second

unfoldable pub is_missing : Instant → HeartbeatStore → Bool
is_missing now s = elim s.last_heartbeat [
  | none ↦ true
  | some last ↦ ltb_ℤ (threshold s) (minus now last)
]

unfoldable pub should_alert_missing : Instant → HeartbeatStore → HeartbeatStore × Bool
should_alert_missing now s =
    if is_missing now s && not s.alerted_missing
    then (record s { alerted_missing = true }, true)
    else (s, false)

unfoldable pub get_last_wan_states : HeartbeatStore → Dict WanState
get_last_wan_states s = elim s.last_payload [ none ↦ [] | some p ↦ p.wan_states ]

pub record HeartbeatResponse : Type 0 where
  pub status : Text
  pub received_at : Instant

pub record HealthResponse : Type 0 where
  pub status : Text
  pub last_heartbeat : Option Instant
  pub heartbeat_missing : Bool

-- `POST /heartbeat` and `GET /health`, on the application's store; the framework has parsed the
-- payload
unfoldable pub receive_heartbeat :
    Instant → Instant → HeartbeatPayload → HeartbeatStore → HeartbeatStore × HeartbeatResponse
receive_heartbeat now later payload s =
    (record_heartbeat now payload s, record { status = codes "ok"; received_at = later })

unfoldable pub health : Instant → HeartbeatStore → HealthResponse
health now s = record {
  status = codes "ok";
  last_heartbeat = s.last_heartbeat;
  heartbeat_missing = is_missing now s;
}
