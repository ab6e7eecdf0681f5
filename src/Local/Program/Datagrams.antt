-- ===== src/Local/Program/Datagrams.antt =====
-- From a datagram to the monitor's alert, through the receiver of local/syslog_receiver.py.
use wan_router_notifications.Common.{
  ℕ, ◌≤◌, ◌≡◌, ◌↔◌, ap, ◌∙◌, true, List, ◌++◌, Option, some, length,
}
use wan_router_notifications.Common.Result.{returned}
use wan_router_notifications.Shared.Clock.{Instant}
use wan_router_notifications.Shared.Models.{AlertEvent, SyslogEvent}
use wan_router_notifications.Local.AlertEngine.Syslog.{process_syslog_event}
use wan_router_notifications.Local.SyslogReceiver.Alerts.{Reported, alerted_iff}
use wan_router_notifications.Local.SyslogReceiver.Utf8.{decode}
use wan_router_notifications.Local.SyslogReceiver.Patterns.{Unicode}
use wan_router_notifications.Local.SyslogReceiver.{SyslogReceiver, parse_syslog_message}
use wan_router_notifications.Local.Monitor.Progress.{step-syslog}
use wan_router_notifications.Local.Monitor.{Monitor, on_syslog_event}
use wan_router_notifications.Local.Program.Wiring.{IsWired, told, datagram_received-told}
use wan_router_notifications.Local.Program.{World, Program, datagram, on_datagram, step_at, step}

-- `q` has these alerts more than `p`, recorded and on their way, and is else the same monitor.
abbrev pub Gains : Monitor → List AlertEvent → Monitor → Type 0
Gains p alerts q =
    q ≡ record p { recent_events = p.recent_events ++ alerts; spawned = p.spawned ++ alerts }

on_datagram-told :
    (u : Unicode) (now again t : Instant) (bytes : List ℕ) (o : Option (SyslogReceiver World))
    (r : SyslogReceiver World) (p : Program)
    → o ≡ some r
    → IsWired (some r)
    → (on_datagram u now again t bytes true o p).monitor
      ≡ told t (parse_syslog_message u now again (decode bytes)) p.monitor
on_datagram-told u now again t bytes o r p e w =
    ap (λ x. (on_datagram u now again t bytes true x p).monitor) e
    ∙ (datagram_received-told u now again t bytes r p.monitor w).0

-- Where the program listens, its receiver calls the monitor, and a datagram arrives that parses as an
-- event: the monitor gains at most one alert and is else unchanged, and it gains one exactly where
-- one of the three reported patterns stands somewhere in the event's message.
pub datagram_alert :
    (u : Unicode) (now again t : Instant) (bytes : List ℕ) (r : SyslogReceiver World)
    (event : SyslogEvent) (p : Program)
    → p.listening ≡ true
    → p.receiver ≡ some r
    → IsWired (some r)
    → parse_syslog_message u now again (decode bytes) ≡ returned (some event)
    → (alerts : List AlertEvent) × (Gains p.monitor alerts
          (step u (datagram now again t bytes) p).monitor
        × (length alerts ≤ 1)
        × ((length alerts ≡ 1) ↔ Reported event.message))
unfolding step step_at on_syslog_event
datagram_alert u now again t bytes r event p listens has w parses =
    let router = p.monitor.engine.router in
    let (few, iff) = alerted_iff u now again (decode bytes) event t router parses in
    (
      process_syslog_event t router event,
      (
        ap (λ l. (on_datagram u now again t bytes l p.receiver p).monitor) listens
            ∙ (on_datagram-told u now again t bytes p.receiver r p has w
                ∙ (ap (λ o. told t o p.monitor) parses ∙ step-syslog t event p.monitor)),
        few,
        iff,
      ),
    )
