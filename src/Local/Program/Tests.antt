-- ===== src/Local/Program/Tests.antt =====
-- The program from its start to its end.
use wan_router_notifications.Common.{
  arith, ◌≡◌, ◌≤◌, ◌<◌, ◌↔◌, ◌⊎◌, refl, true, false, List, [], ◌∷◌, ◌++◌, some, length,
}
use wan_router_notifications.Common.Result.{returned}
use wan_router_notifications.Common.Text.{codes, text_eq}
use wan_router_notifications.Shared.Config.Tests.{ascii_upper}
use wan_router_notifications.Shared.Models.{AlertEvent}
use wan_router_notifications.Local.Heartbeat.{PostOutcome, status_code}
use wan_router_notifications.Local.SnmpPoller.Queries.{Answer}
use wan_router_notifications.Local.SnmpPoller.{new_poller, poll, wan_states}
use wan_router_notifications.Local.Poller.{snmp, poll_any}
use wan_router_notifications.Local.SyslogReceiver.Alerts.{Reported}
use wan_router_notifications.Local.SyslogReceiver.Tests.{
  ascii, raw_failover, failover_event, in_1970, failover_received,
}
use wan_router_notifications.Local.SyslogReceiver.{SyslogReceiver, new_receiver, add_callback}
use wan_router_notifications.Local.Monitor.Start.{new_monitor, monitor_with}
use wan_router_notifications.Local.AlertEngine.Edges.{Update, titles, edges}
use wan_router_notifications.Local.Monitor.Trace.{pending, unseen, sent, found, observed}
use wan_router_notifications.Shared.Config.{LocalConfig}
use wan_router_notifications.Shared.Clock.{Instant}
use wan_router_notifications.Local.Program.Sends.{launched_sends_edges}
use wan_router_notifications.Local.Monitor.Tests.{
  gateways, works, works_calmly, small_config, no_env, small_monitor, no_links, at,
}
use wan_router_notifications.Local.Monitor.{
  Monitor, on_beat, on_polled, step as monitor_step, run as monitor_run,
}
use wan_router_notifications.Local.Program.Datagrams.{Gains, datagram_alert}
use wan_router_notifications.Local.Program.Delay.{NapLasts, events, stop_waits_for_status}
use wan_router_notifications.Local.Program.Launch.{program_refines}
use wan_router_notifications.Local.Program.Progress.{GoesOn, shutdown_terminates}
use wan_router_notifications.Local.Program.Measure.{left}
use wan_router_notifications.Local.Program.Shutdown.{turns}
use wan_router_notifications.Local.Program.Own.{owns}
use wan_router_notifications.Local.Program.{
  World, gathering, done, to_test, Program, Event, opened, poll_begun, poll_polled, poll_answered,
  poll_woken, heart_begun, heart_posted, heart_woken, status_begun, status_woken, datagram, signal,
  monitor_callback, launched, launch, turn, stop, step, run,
}

abbrev small_program : Program
small_program = launched true small_monitor

small_launches : launch ascii_upper small_config no_env false true ≡ returned small_program
unfolding launch new_monitor text_eq
small_launches = refl

-- the socket is opened, the loops begin, and a heartbeat is under way
abbrev beginning : List Event
beginning =
    opened (returned tt)
    ∷ poll_begun
    ∷ heart_begun 5 (λ payload. status_code 200)
    ∷ status_begun
    ∷ []

-- all that is waited for after a signal
abbrev ending : List Event
ending =
    poll_polled 7 Answer.failed no_links (at 8)
    ∷ heart_posted
    ∷ status_woken
    ∷ poll_woken
    ∷ poll_begun
    ∷ heart_woken
    ∷ status_begun
    ∷ heart_begun 9 (λ payload. PostOutcome.failed)
    ∷ []

ends : (run ascii (beginning ++ signal ∷ ending) small_program).stage ≡ done
unfolding run step turn stop monitor_step new_receiver add_callback on_beat on_polled poll_any poll
    wan_states new_poller
ends = refl

program_refines_example :
    (m : Monitor) × ((new_monitor ascii_upper small_config no_env false true ≡ returned m)
      × ((run ascii beginning small_program).monitor
          ≡ monitor_run (owns ascii beginning small_program) m))
program_refines_example =
    program_refines ascii ascii_upper small_config no_env false true small_program beginning
      small_launches

-- the same with two WANs, of which the poll finds one down
abbrev dual_config : LocalConfig
dual_config = record small_config {
  router = record small_config.router { wan_gateways = gateways };
}

abbrev dual_program : Program
dual_program = launched true (monitor_with dual_config no_env true (snmp (new_poller gateways [])))

dual_launches : launch ascii_upper dual_config no_env false true ≡ returned dual_program
unfolding launch new_monitor text_eq
dual_launches = refl

abbrev failing : List Event
failing =
    opened (returned tt)
    ∷ poll_begun
    ∷ poll_polled 7 (Answer.bound (codes "10.0.0.2" ∷ [])) no_links (at 8)
    ∷ datagram in_1970 in_1970 1 raw_failover
    ∷ poll_answered works (at 9)
    ∷ []

launched_sends_edges_example :
    (let phase = (run ascii failing dual_program).monitor.phase in
      (us : List Update) × ((titles
            (sent (owns ascii failing dual_program) dual_program.monitor ++ pending phase)
          ≡ edges (λ j. false) us)
        × (observed us ++ unseen phase
            ≡ found (owns ascii failing dual_program) dual_program.monitor)))
launched_sends_edges_example =
    launched_sends_edges ascii ascii_upper dual_config no_env false true dual_program failing
      dual_launches (works_calmly, tt)

shutdown_terminates_example :
    (let told = run ascii (beginning ++ signal ∷ []) small_program in
      ((run ascii ending told).stage ≡ done)
      ⊎ (GoesOn (run ascii ending told) × (turns ascii ending told < left told)))
shutdown_terminates_example =
    shutdown_terminates ascii ascii_upper small_config no_env false true small_program beginning
      ending small_launches

abbrev begun_program : Program
begun_program = run ascii beginning small_program

begun_gathers : begun_program.stage ≡ gathering
unfolding run step turn
begun_gathers = refl

-- the status loop has not begun
abbrev early_program : Program
early_program = run ascii (opened (returned tt) ∷ poll_begun ∷ []) small_program

early_gathers : early_program.stage ≡ gathering
unfolding run step turn
early_gathers = refl

early_tests : early_program.status ≡ to_test
unfolding run step turn
early_tests = refl

early_runs : early_program.running ≡ true
unfolding run step turn
early_runs = refl

-- a signal after a second, and the end of the poll
abbrev soon : List (Instant × Event)
soon = (1000000, signal) ∷ (2000000, poll_polled 7 Answer.failed no_links (at 8)) ∷ []

nap_lasts : NapLasts 0 (step ascii status_begun early_program).status soon
unfolding run step turn
nap_lasts = tt

stop_waits_for_status_example :
    (run ascii (status_begun ∷ events soon) early_program).stage ≡ gathering
stop_waits_for_status_example =
    stop_waits_for_status ascii 0 soon early_program early_gathers early_tests early_runs nap_lasts
      (omega arith, (omega arith, tt))

abbrev wired_receiver : SyslogReceiver World
wired_receiver = add_callback monitor_callback new_receiver

begun_listens : begun_program.listening ≡ true
unfolding run step turn
begun_listens = refl

begun_receives : begun_program.receiver ≡ some wired_receiver
unfolding run step turn
begun_receives = refl

calls_monitor : wired_receiver.callbacks ≡ monitor_callback ∷ []
unfolding add_callback new_receiver
calls_monitor = refl

datagram_alert_example :
    (alerts : List AlertEvent) × (Gains begun_program.monitor alerts
        (step ascii (datagram in_1970 in_1970 1 raw_failover) begun_program).monitor
      × (length alerts ≤ 1)
      × ((length alerts ≡ 1) ↔ Reported failover_event.message))
datagram_alert_example =
    datagram_alert ascii in_1970 in_1970 1 raw_failover wired_receiver failover_event begun_program
      begun_listens begun_receives calls_monitor failover_received
