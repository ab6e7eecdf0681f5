-- ===== src/Local/AlertEngine/Messages.antt =====
-- The alerts of local/alert_engine.py and their texts.
use wan_router_notifications.Common.{
  Bool, true, false, not, ◌&&◌, List, [], ◌∷◌, ◌++◌, Option, none, some, if◌then◌else◌,
}
use wan_router_notifications.Common.Text.{Text, codes, join, text_eq, is_truthy}
use wan_router_notifications.Common.Dict.{Dict}
use wan_router_notifications.Shared.Clock.{Instant, minus, strftime}
use wan_router_notifications.Shared.Models.{
  InterfaceStatus, up, down, status_eq, WanState, AlertEvent, critical,
}
use wan_router_notifications.Shared.Telegram.Duration.{format_duration}

pub record Router : Type 0 where
  pub ip : Text
  pub name : Text

pub router_line : Router → Text
router_line r = codes "Router: " ++ (r.name ++ (codes " (" ++ (r.ip ++ codes ")")))

pub time_line : Instant → Text
time_line now = codes "Time: " ++ strftime now

-- the duration since the previous state, where that had the status `status`
unfoldable pub duration_in : InterfaceStatus → Instant → Option WanState → Text
duration_in status now none = codes "unknown"
duration_in status now (some previous) =
    if status_eq previous.status status
    then format_duration (minus now previous.since)
    else codes "unknown"

abbrev pub previous_uptime : Instant → Option WanState → Text
previous_uptime = duration_in up

abbrev pub previous_downtime : Instant → Option WanState → Text
previous_downtime = duration_in down

-- the loop that looks for the first other WAN that is up
unfoldable pub first_other_up : Text → Dict WanState → Option Text
first_other_up interface [] = none
first_other_up interface ((name, s) ∷ rest) =
    if status_eq s.status up && not (text_eq name interface)
    then some name
    else first_other_up interface rest

unfoldable pub failover_target : Text → Option (Dict WanState) → Option Text
unfolding first_other_up
failover_target interface none = none
failover_target interface (some all_states) = first_other_up interface all_states

failover_none : Text
failover_none = codes "Failover: no active WAN detected"

-- an empty name is as false as `None`
unfoldable pub failover_line : Option Text → Text
unfolding failover_none is_truthy
failover_line none = failover_none
failover_line (some target) =
    if is_truthy target then codes "Failover: active on " ++ target else failover_none

unfoldable pub link_lines : Option Bool → List Text
link_lines (some false) = codes "Cause: physical link down" ∷ []
link_lines (some true) = codes "Cause: likely upstream/ISP issue (link up, no route)" ∷ []
link_lines none = []

unfoldable pub down_message : Router → Instant → Text → WanState → Option (Dict WanState) → Text
unfolding router_line time_line failover_target failover_line link_lines
down_message router now uptime state all_states = join (codes "\n") (
    router_line router
    ∷ time_line now
    ∷ (codes "Previous state: UP for " ++ uptime)
    ∷ failover_line (failover_target state.interface all_states)
    ∷ (link_lines state.link_up ++ codes "Action: Monitoring at 15s intervals" ∷ []))

unfoldable pub down_alert : Router → Instant → Text → WanState → Option (Dict WanState) → AlertEvent
down_alert router now uptime state all_states = record {
  severity = critical;
  category = codes "wan";
  title = state.interface ++ codes " DOWN";
  message = down_message router now uptime state all_states;
  timestamp = now;
  metadata = [];
}

unfoldable pub recovered_message : Router → Instant → Text → Text
unfolding router_line time_line
recovered_message router now downtime = join (codes "\n") (
    router_line router
    ∷ time_line now
    ∷ (codes "Downtime: " ++ downtime)
    ∷ codes "Restored as primary gateway"
    ∷ [])

unfoldable pub recovered_alert : Router → Instant → Text → WanState → AlertEvent
recovered_alert router now downtime state = record {
  severity = critical;
  category = codes "wan";
  title = state.interface ++ codes " RECOVERED";
  message = recovered_message router now downtime;
  timestamp = now;
  metadata = [];
}
