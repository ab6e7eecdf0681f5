-- ===== src/Shared/Telegram/Messages.antt =====
-- The message formats of shared/telegram.py.
use wan_router_notifications.Common.{
  Bool, true, false, List, [], ◌∷◌, ◌++◌, Option, none, some, map,
}
use wan_router_notifications.Common.Text.{Text, codes, join}
use wan_router_notifications.Common.Dict.{Dict}
use wan_router_notifications.Shared.Clock.{Instant, minus, strftime}
use wan_router_notifications.Shared.Models.{WanState, InterfaceStatus, up, down, unknown}
use wan_router_notifications.Shared.Telegram.Duration.{format_duration}

abbrev text_of : List Text → Text
text_of [] = []
text_of (t ∷ ts) = t ++ text_of ts

-- `status.value.upper()`
pub upper_status : InterfaceStatus → Text
upper_status up = codes "UP"
upper_status down = codes "DOWN"
upper_status unknown = codes "UNKNOWN"

unfoldable pub format_wan_down_message : WanState → Text → Text → Text → Text
format_wan_down_message state router_ip previous_uptime router_name = text_of (
    codes "🔴 "
    ∷ state.interface
    ∷ codes " DOWN\nRouter: "
    ∷ router_name
    ∷ codes " ("
    ∷ router_ip
    ∷ codes ")\nTime: "
    ∷ strftime state.since
    ∷ codes "\nPrevious state: UP for "
    ∷ previous_uptime
    ∷ codes "\nAction: Monitoring at 15s intervals"
    ∷ [])

unfoldable pub format_wan_up_message : WanState → Text → Text → Text → Text
format_wan_up_message state router_ip downtime router_name = text_of (
    codes "🟢 "
    ∷ state.interface
    ∷ codes " RECOVERED\nRouter: "
    ∷ router_name
    ∷ codes " ("
    ∷ router_ip
    ∷ codes ")\nTime: "
    ∷ strftime state.since
    ∷ codes "\nDowntime: "
    ∷ downtime
    ∷ [])

-- `f"{name}: {state.status.value.upper()}"`
pub wan_entry : Text × WanState → Text
unfolding upper_status
wan_entry (name, state) = name ++ (codes ": " ++ upper_status state.status)

unfoldable pub wan_summary : Dict WanState → Text
unfolding wan_entry
wan_summary wan_states = join (codes " | ") (map wan_entry wan_states)

probe_status : Option Bool → Text
probe_status (some false) = codes "FAILED"
probe_status (some true) = codes "SUCCESS"
probe_status none = codes "N/A"

diagnosis : Option Bool → Text
diagnosis (some false) = codes "Internet connection likely down"
diagnosis (some true) = codes "Local monitor may have crashed"
diagnosis none = codes "Unknown"

unfoldable pub format_monitor_lost_message : Instant → Instant → Dict WanState → Option Bool → Text
unfolding minus format_duration wan_summary probe_status diagnosis
format_monitor_lost_message now last_heartbeat wan_states probe_result = text_of (
    codes "🟠 CONNECTION LOST TO LOCAL MONITOR\nLast heartbeat: "
    ∷ format_duration (minus now last_heartbeat)
    ∷ codes " ago\nLast known state:\n  "
    ∷ wan_summary wan_states
    ∷ codes "\nExternal probe: "
    ∷ probe_status probe_result
    ∷ codes "\nDiagnosis: "
    ∷ diagnosis probe_result
    ∷ [])
