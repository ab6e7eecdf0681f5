-- ===== src/Remote/Program/Tests.antt =====
-- The remote program with its three loops.
use wan_router_notifications.Common.{
  ℕ, Bool, ◌≡◌, refl, List, [], ◌∷◌, ◌++◌, true, false, some, none, arith,
}
use wan_router_notifications.Common.Int.{ℤ, pos, ◌*ℤ◌}
use wan_router_notifications.Common.Text.{codes}
use wan_router_notifications.Shared.Models.{AlertEvent}
use wan_router_notifications.Shared.Config.{EnvConfig}
use wan_router_notifications.Shared.Config.Remote.{RemoteConfig, remote_config}
use wan_router_notifications.Remote.DnsLoop.Tests.{home, breaks}
use wan_router_notifications.Remote.DnsMonitor.{addresses, check as dns_check}
use wan_router_notifications.Remote.ExternalProbe.{response}
use wan_router_notifications.Remote.Sentinel.Alternation.{IsOrdered}
use wan_router_notifications.Remote.Sentinel.{
  run as sentinel_run, new_sentinel, step as sentinel_step,
}
use wan_router_notifications.Remote.Sentinel.Tests.{payload, works}
use wan_router_notifications.Remote.Program.Monitoring.{owns, sentinel_refined}
use wan_router_notifications.Remote.Sentinel.OnTime.{IsCalm}
use wan_router_notifications.Remote.HeartbeatStore.{
  new_store, record_heartbeat, should_alert_missing, is_missing, threshold, receive_heartbeat,
}
use wan_router_notifications.Shared.Clock.{minus}
use wan_router_notifications.Shared.Telegram.{send_alert}
use wan_router_notifications.Remote.Program.OnTime.{no_false_alarm}
use wan_router_notifications.Remote.Program.Alternates.{program_alternates}
use wan_router_notifications.Remote.Program.Dns.{
  answers, dns_at, alert_count, dns_loop_sends, Delivers,
}
use wan_router_notifications.Remote.Program.{
  probe_ended, dns_head, dns_asleep, Program, launch, Event, posted, monitor_woken, monitor_probed,
  monitor_answered, dns_checked, stop_called, served, run, step,
}

abbrev pub quiet_config : RemoteConfig
quiet_config =
    remote_config
      (record {
        expected_interval = none;
        missed_threshold = none;
        listen_host = none;
        listen_port = none;
      })
      (record { enabled = none; target_ip = none; interval = none; timeout = none })
      (record {
        enabled = some true;
        hostname = some (codes "home");
        expected_ip = none;
        interval = none;
      })

abbrev pub token : EnvConfig
token = record {
  telegram_bot_token = codes "t";
  telegram_chat_id = codes "42";
  snmp_auth_key = none;
}

abbrev pub sentinel_program : Program
sentinel_program = launch quiet_config token false

abbrev pub no_ports : ℕ → Bool
no_ports port = false

-- the defaults: no probe, but the DNS loop is there
launched_places :
    (sentinel_program.probe_place ≡ probe_ended)
    × (sentinel_program.dns_place ≡ dns_head)
    × (sentinel_program.dns_interval ≡ pos 300)
unfolding launch remote_config
launched_places = (refl, refl, refl)

-- an outage from the start, with a heartbeat while the alert is being sent
abbrev night_watch : List Event
night_watch =
    monitor_woken 10 10 10
    ∷ dns_checked 11 (addresses (codes "1.1.1.1" ∷ []))
    ∷ monitor_probed response no_ports 12 12
    ∷ posted 13 13 payload
    ∷ monitor_answered works
    ∷ monitor_woken 20 20 20
    ∷ monitor_answered works
    ∷ []

abbrev night : List Event
night = night_watch ++ stop_called ∷ served ∷ []

sentinel_refined_example :
    (run night sentinel_program).sentinel
    ≡ sentinel_run (owns night sentinel_program) sentinel_program.sentinel
sentinel_refined_example = sentinel_refined night sentinel_program

-- after the outage, with the defaults of 60 seconds and 3 as the threshold
abbrev recovered_program : Program
recovered_program = run night_watch sentinel_program

recovered_program-IsCalm : IsCalm 60 3 13 recovered_program.sentinel
unfolding remote_config launch new_sentinel new_store run step sentinel_step should_alert_missing
    is_missing send_alert receive_heartbeat record_heartbeat threshold minus ◌*ℤ◌
recovered_program-IsCalm = record {
  every = refl;
  times = refl;
  newest = refl;
  sleeps = refl;
  calm = refl;
}

abbrev in_time : List Event
in_time =
    monitor_woken 150000000 150000000 150000000
    ∷ posted 180000000 180000001 payload
    ∷ monitor_woken 360000000 360000000 360000000
    ∷ []

no_false_alarm_example :
    (run in_time recovered_program).sentinel
    ≡ record recovered_program.sentinel { store = (run in_time recovered_program).sentinel.store }
no_false_alarm_example =
    no_false_alarm 60 3 13 in_time recovered_program recovered_program-IsCalm
      (omega arith, (omega arith, tt))

program_alternates_example : IsOrdered (run night sentinel_program).sentinel
program_alternates_example = program_alternates quiet_config token false night

dns_loop_sends_example :
    (let (after, o) = dns_check 5 (addresses (codes "2.2.2.2" ∷ [])) home in
      (sent : List AlertEvent) × ((d : ℤ) × (Delivers sentinel_program breaks o sent d
          × (run
                (dns_checked 5 (addresses (codes "2.2.2.2" ∷ [])) ∷ answers breaks (alert_count o))
                (dns_at sentinel_program home dns_head [])
              ≡ dns_at sentinel_program after (dns_asleep d) ([] ++ sent)))))
dns_loop_sends_example =
    dns_loop_sends breaks sentinel_program home [] 5 (addresses (codes "2.2.2.2" ∷ []))
