-- ===== src/Local/AlertEngine/Syslog.antt =====
-- The syslog half of local/alert_engine.py.
use wan_router_notifications.Common.{List, [], ◌∷◌, ◌++◌, none, some, if◌then◌else◌}
use wan_router_notifications.Common.Text.{Text, codes, join, text_eq}
use wan_router_notifications.Common.Dict
use wan_router_notifications.Common.Dict.{Dict}
use wan_router_notifications.Shared.Clock.{Instant}
use wan_router_notifications.Shared.Models.{
  AlertEvent, AlertSeverity, critical, warning, SyslogEvent,
}
use wan_router_notifications.Local.AlertEngine.Messages.{Router, router_line, time_line}

-- `d.get(key, default)`
abbrev pub get_or : Dict Text → Text → Text → Text
get_or d key default = elim (Dict.get d key) [ none ↦ default | some v ↦ v ]

-- the alert that every branch makes, with its own severity, title and last line
pub wan_syslog_alert : AlertSeverity → Text → Text → Router → Instant → AlertEvent
wan_syslog_alert severity title last_line router now = record {
  severity = severity;
  category = codes "wan";
  title = title;
  message = join (codes "\n") (router_line router ∷ time_line now ∷ last_line ∷ []);
  timestamp = now;
  metadata = [];
}

unfoldable pub wan_event_alerts : Text → Text → Router → Instant → List AlertEvent
wan_event_alerts event_type interface router now =
    if text_eq event_type (codes "online_detection")
    then []
    else if text_eq event_type (codes "failover_activated")
    then wan_syslog_alert critical (codes "FAILOVER: " ++ (interface ++ codes " activated"))
        (codes "Backup link " ++ (interface ++ codes " has taken over")) router now
      ∷ []
    else if text_eq event_type (codes "failover_deactivated")
    then wan_syslog_alert critical (codes "FAILOVER ENDED: " ++ (interface ++ codes " deactivated"))
        (codes "Backup link " ++ (interface ++ codes " deactivated, primary restored")) router now
      ∷ []
    else if text_eq event_type (codes "link_down")
    then wan_syslog_alert warning (interface ++ codes " physical link DOWN")
        (codes "Physical connection lost on " ++ interface) router now
      ∷ []
    else []

unfoldable pub process_wan_syslog : Instant → Router → SyslogEvent → List AlertEvent
unfolding wan_event_alerts
process_wan_syslog now router event =
    wan_event_alerts (get_or event.metadata (codes "wan_event_type") [])
      (get_or event.metadata (codes "wan_interface") (codes "unknown")) router now

unfoldable pub process_syslog_event : Instant → Router → SyslogEvent → List AlertEvent
unfolding process_wan_syslog
process_syslog_event now router event =
    if text_eq event.category (codes "wan") then process_wan_syslog now router event else []
