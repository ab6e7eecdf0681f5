-- ===== src/Remote/AlertEngine.antt =====
-- remote/alert_engine.py: the two alerts of the sentinel.
use wan_router_notifications.Common.{[], ◌∷◌, ◌++◌, if◌then◌else◌}
use wan_router_notifications.Common.Text.{Text, codes, join, is_truthy}
use wan_router_notifications.Common.Dict.{Dict}
use wan_router_notifications.Shared.Clock.{Instant, minus}
use wan_router_notifications.Shared.Models.{WanState, AlertEvent, critical, info}
use wan_router_notifications.Shared.Telegram.Duration.{format_duration}
use wan_router_notifications.Shared.Telegram.Messages.{wan_summary}
use wan_router_notifications.Remote.ExternalProbe.{ProbeResult, reachable, unreachable, disabled}

-- `… or "No data"`
or_no_data : Text → Text
unfolding is_truthy
or_no_data t = if is_truthy t then t else codes "No data"

probe_status : ProbeResult → Text
probe_status unreachable = codes "FAILED"
probe_status reachable = codes "SUCCESS"
probe_status disabled = codes "N/A"

diagnosis : ProbeResult → Text
diagnosis unreachable = codes "Internet connection likely down"
diagnosis reachable = codes "Local monitor may have crashed"
diagnosis disabled = codes "Unable to determine"

pub lost_message : Instant → Instant → Dict WanState → ProbeResult → Text
unfolding or_no_data probe_status diagnosis
lost_message now last_heartbeat wan_states probe = join (codes "\n") (
    (codes "Last heartbeat: " ++ (format_duration (minus now last_heartbeat) ++ codes " ago"))
    ∷ codes "Last known state:"
    ∷ (codes "  " ++ or_no_data (wan_summary wan_states))
    ∷ (codes "External probe: " ++ probe_status probe)
    ∷ (codes "Diagnosis: " ++ diagnosis probe)
    ∷ [])

unfoldable pub create_monitor_lost_alert :
    Instant → Instant → Dict WanState → ProbeResult → AlertEvent
create_monitor_lost_alert now last_heartbeat wan_states probe = record {
  severity = critical;
  category = codes "monitor";
  title = codes "CONNECTION LOST TO LOCAL MONITOR";
  message = lost_message now last_heartbeat wan_states probe;
  timestamp = now;
  metadata = [];
}

unfoldable pub create_monitor_recovered_alert : Instant → AlertEvent
create_monitor_recovered_alert now = record {
  severity = info;
  category = codes "monitor";
  title = codes "LOCAL MONITOR RECOVERED";
  message = codes "Heartbeat received. Local monitor is back online.";
  timestamp = now;
  metadata = [];
}
