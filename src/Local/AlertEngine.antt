-- ===== src/Local/AlertEngine.antt =====
-- local/alert_engine.py: the state that is kept for each WAN, and the alerts that polls and syslog
-- events raise. `Messages` has the texts; the proofs are in the modules below.
pub mod Messages
pub mod Edges
pub mod Independence
pub mod Invariant
pub mod Stability
pub mod Failover
pub mod Syslog
mod Tests
use wan_router_notifications.Common.{
  ℕ, ◌+◌, Bool, true, false, not, List, [], ◌∷◌, ◌++◌, Option, none, some, ltb, if◌then◌else◌,
}
use wan_router_notifications.Common.Text.{Text}
use wan_router_notifications.Common.Dict
use wan_router_notifications.Common.Dict.{Dict}
use wan_router_notifications.Shared.Clock.{Instant}
use wan_router_notifications.Shared.Models.{
  InterfaceStatus, up, down, unknown, status_eq, WanState, AlertEvent,
}
use Messages.{Router, down_alert, recovered_alert, previous_uptime, previous_downtime}

pub record AlertState : Type 0 where
  pub current_status : InterfaceStatus
  pub last_alert_time : Option Instant
  pub last_status_change : Option Instant
  pub consecutive_stable : ℕ

-- `AlertState()`
abbrev pub new_alert_state : AlertState
new_alert_state = record {
  current_status = unknown;
  last_alert_time = none;
  last_status_change = none;
  consecutive_stable = 0;
}

unfoldable pub should_alert : AlertState → InterfaceStatus → Bool
should_alert a new_status =
    if status_eq a.current_status unknown
    then status_eq new_status down
    else not (status_eq new_status a.current_status)

pub record AlertEngine : Type 0 where
  pub router : Router
  pub wan_states : Dict AlertState
  pub previous_wan : Dict WanState

unfoldable pub new_engine : Router → AlertEngine
new_engine router = record { router = router; wan_states = []; previous_wan = [] }

-- the state of an interface, made where there is none
unfoldable pub alert_state_of : AlertEngine → Text → AlertState
alert_state_of e interface = elim (Dict.get e.wan_states interface) [
  | none ↦ new_alert_state
  | some a ↦ a
]

-- the body of `if state_changed`, as far as it makes alerts
unfoldable pub change_alerts :
    Router → Instant → Option WanState → WanState → Option (Dict WanState) → List AlertEvent
change_alerts router now previous state all_states = elim state.status [
  | down ↦ down_alert router now (previous_uptime now previous) state all_states ∷ []
  | up ↦ recovered_alert router now (previous_downtime now previous) state ∷ []
  | unknown ↦ []
]

-- what becomes of the interface's `AlertState`
unfoldable pub next_alert_state : Bool → Instant → InterfaceStatus → AlertState → AlertState
next_alert_state true now status a = record {
  current_status = status;
  last_alert_time = some now;
  last_status_change = some now;
  consecutive_stable = 0;
}
next_alert_state false now status a = record a { consecutive_stable = a.consecutive_stable + 1 }

unfoldable pub process_wan_state :
    Instant → AlertEngine → WanState → Option (Dict WanState) → AlertEngine × List AlertEvent
process_wan_state now e state all_states =
    let alert_state = alert_state_of e state.interface in
    let previous = Dict.get e.previous_wan state.interface in
    let state_changed = should_alert alert_state state.status in
    (
      record e {
        wan_states =
            Dict.set e.wan_states state.interface
              (next_alert_state state_changed now state.status alert_state);
        previous_wan = Dict.set e.previous_wan state.interface state;
      },
      if state_changed then change_alerts e.router now previous state all_states else [],
    )

-- the loop of `should_use_alert_interval`
unfoldable pub any_unsettled : List AlertState → Bool
any_unsettled [] = false
any_unsettled (a ∷ as') =
    if status_eq a.current_status down
    then true
    else if ltb a.consecutive_stable 5
    then true
    else any_unsettled as'

unfoldable pub should_use_alert_interval : AlertEngine → Bool
unfolding any_unsettled
should_use_alert_interval e = any_unsettled (Dict.values e.wan_states)

-- a copy: `WANState` values are not changed after they are made
unfoldable pub get_current_wan_states : AlertEngine → Dict WanState
get_current_wan_states e = e.previous_wan
