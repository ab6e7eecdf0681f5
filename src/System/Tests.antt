-- ===== src/System/Tests.antt =====
-- A heartbeat of a monitor that has polled, and the outage after it.
use wan_router_notifications.Common.{◌≡◌, refl, false, true, List, [], ◌∷◌}
use wan_router_notifications.Shared.Models.{HeartbeatPayload}
use wan_router_notifications.Local.AlertEngine.{get_current_wan_states}
use wan_router_notifications.Local.Heartbeat.{PostOutcome, status_code, send}
use wan_router_notifications.Local.Monitor.Tests.{outage, started as monitor}
use wan_router_notifications.Local.Monitor.{
  Monitor, on_beat, step as monitor_step, run as monitor_run,
}
use wan_router_notifications.Local.SyslogReceiver.Tests.{ascii}
use wan_router_notifications.Local.Program.{
  Program as LocalProgram, launched, heart_begun, turn, step as local_step,
}
use wan_router_notifications.Remote.ExternalProbe.{response}
use wan_router_notifications.Remote.Sentinel.LastHeartbeat.{Tells}
use wan_router_notifications.Remote.Sentinel.{sleeping, new_sentinel}
use wan_router_notifications.Remote.Program.Tests.{sentinel_program, no_ports}
use wan_router_notifications.Remote.Program.{
  Event, launch, posted, monitor_woken, monitor_probed, run,
}
use wan_router_notifications.System.Programs.{programs_lost_alert}

abbrev after_outage : Monitor
after_outage = monitor_run outage monitor

abbrev accepts : HeartbeatPayload → PostOutcome
accepts payload = status_code 200

abbrev sent_payload : HeartbeatPayload
sent_payload =
    (send 20 accepts (get_current_wan_states after_outage.engine) after_outage.recent_events).0

-- the local program without a syslog receiver, and the remote one as it is launched
abbrev polling_program : LocalProgram
polling_program = launched false after_outage

posted_by_program :
    (local_step ascii (heart_begun 20 accepts) polling_program).monitor.posted
    ≡ sent_payload ∷ polling_program.monitor.posted
unfolding local_step turn monitor_step on_beat
posted_by_program = refl

-- silence for 1000 seconds
abbrev silence : List Event
silence =
    monitor_woken 1000000030 1000000030 1000000030
    ∷ monitor_probed response no_ports 1000000040 1000000040
    ∷ []

launched_serves : sentinel_program.serving ≡ true
unfolding launch
launched_serves = refl

launched_sleeps : sentinel_program.sentinel.phase ≡ sleeping
unfolding launch new_sentinel
launched_sleeps = refl

programs_lost_alert_example :
    Tells 30 after_outage.engine.previous_wan
      (run (posted 30 31 sent_payload ∷ silence) sentinel_program).sentinel.phase
programs_lost_alert_example =
    programs_lost_alert ascii polling_program 20 30 31 accepts sent_payload sentinel_program silence
      refl refl refl posted_by_program launched_serves launched_sleeps tt
