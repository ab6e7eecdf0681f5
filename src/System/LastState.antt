-- ===== src/System/LastState.antt =====
-- From the monitor's engine, over the heartbeat and the store, to the lost alert.
use mathlib.Core.Path.{subst}
use wan_router_notifications.Common.{◌≡◌, sym, ap, ◌∙◌, List, [], ◌∷◌}
use wan_router_notifications.Shared.Clock.{Instant}
use wan_router_notifications.Shared.Models.{HeartbeatPayload}
use wan_router_notifications.Local.Heartbeat.{PostOutcome}
use wan_router_notifications.Local.Monitor.Bounds.{beat_payload}
use wan_router_notifications.Local.Monitor.{Monitor, beat, step as monitor_step}
use wan_router_notifications.Remote.Sentinel.LastHeartbeat.{Tells, heartbeat-Knows}
use wan_router_notifications.Remote.Sentinel.Outage.{NoHeartbeat}
use wan_router_notifications.Remote.Sentinel.{sleeping, Sentinel, Event, heartbeat, run}

-- the first of the payloads, or another one
abbrev first_or : HeartbeatPayload → List HeartbeatPayload → HeartbeatPayload
first_or other [] = other
first_or other (payload ∷ payloads) = payload

-- Where a heartbeat of the monitor posts a payload, this arrives at a sentinel that sleeps, and no
-- other comes after it: whatever else happens, a lost alert that the sentinel then sends tells of
-- that heartbeat's time and of the WAN states that the monitor's alert engine had last processed.
pub lost_alert_states :
    (m : Monitor) (now t : Instant) (post : HeartbeatPayload → PostOutcome)
    (payload : HeartbeatPayload) (s : Sentinel) (es : List Event)
    → (monitor_step (beat now post) m).posted ≡ payload ∷ m.posted
    → s.phase ≡ sleeping
    → NoHeartbeat es
    → Tells t m.engine.previous_wan (run (heartbeat t payload ∷ es) s).phase
lost_alert_states m now t post payload s es posts q n =
    let (p, front, beats, states, rest, few) = beat_payload m now post in
    let same : payload ≡ p = ap (first_or p) (sym posts ∙ ap (λ (x : Monitor). x.posted) beats) in
    subst (λ d. Tells t d (run (heartbeat t payload ∷ es) s).phase)
      (ap (λ (x : HeartbeatPayload). x.wan_states) same ∙ states)
      (heartbeat-Knows t payload es s q n).tells
