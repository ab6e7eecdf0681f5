-- ===== src/Local/Program/Own.antt =====
-- Which of the events of the program of local/main.py are its monitor's own.
use wan_router_notifications.Common.{Bool, true, false, List, [], ◌∷◌, ◌++◌, Option, none, some}
use wan_router_notifications.Common.Result.{Result, returned, raised}
use wan_router_notifications.Shared.Clock.{Instant}
use wan_router_notifications.Shared.Models.{SyslogEvent, HeartbeatPayload}
use wan_router_notifications.Local.Heartbeat.{PostOutcome}
use wan_router_notifications.Local.SyslogReceiver.Utf8.{decode}
use wan_router_notifications.Local.SyslogReceiver.Patterns.{Unicode}
use wan_router_notifications.Local.SyslogReceiver.{SyslogReceiver, parse_syslog_message}
use wan_router_notifications.Local.Monitor.{
  Phase, ready, begun, polled, answered, woken, syslog, beat, Event as MonitorEvent,
}
use wan_router_notifications.Local.Program.{
  World, Stage, gathering, Place, at_head, Program, Event, poll_begun, poll_polled, poll_answered,
  poll_woken, heart_begun, datagram, signal, step,
}

-- the monitor's event of a parsed datagram
abbrev pub heard : Instant → Result (Option SyslogEvent) → List MonitorEvent
heard t raised = []
heard t (returned none) = []
heard t (returned (some event)) = syslog t event ∷ []

-- what a turn is to the monitor: the heads of two loops test `_running`
abbrev pub begins : Bool → Bool → Phase → List MonitorEvent
begins false true ready = begun ∷ []
begins _ _ _ = []

abbrev pub beats : Instant → (HeartbeatPayload → PostOutcome) → Place → Bool → List MonitorEvent
beats now post at_head true = beat now post ∷ []
beats now post _ _ = []

abbrev pub turned : Event → Program → List MonitorEvent
turned poll_begun p = begins p.poll_ended p.running p.monitor.phase
turned (poll_polled now route links clock) p = polled now route links clock ∷ []
turned (poll_answered bot clock) p = answered bot clock ∷ []
turned poll_woken p = woken ∷ []
turned (heart_begun now post) p = beats now post p.heart p.running
turned _ p = []

abbrev pub overheard :
    Instant → Bool → Option (SyslogReceiver World) → Result (Option SyslogEvent) → List MonitorEvent
overheard t true (some r) o = heard t o
overheard t _ _ o = []

-- what an event of the program is to the monitor, by where `start` is
abbrev pub own : Unicode → Stage → Event → Program → List MonitorEvent
own u stage signal p = []
own u stage (datagram now again t bytes) p =
    overheard t p.listening p.receiver (parse_syslog_message u now again (decode bytes))
own u gathering e p = turned e p
own u _ _ p = []

abbrev pub owns : Unicode → List Event → Program → List MonitorEvent
owns u [] p = []
owns u (e ∷ es) p = own u p.stage e p ++ owns u es (step u e p)
