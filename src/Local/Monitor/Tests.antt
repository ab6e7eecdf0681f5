-- ===== src/Local/Monitor/Tests.antt =====
-- The monitor through an outage.
use wan_router_notifications.Common.{
  ℕ, ◌≡◌, ◌≢◌, refl, map, true, false, none, List, [], ◌∷◌, last_items,
}
use wan_router_notifications.Common.Int.{ℤ, pos}
use wan_router_notifications.Common.Text.{Text, codes, text_eq, is_truthy}
use wan_router_notifications.Common.Dict
use wan_router_notifications.Common.Dict.{Dict}
use wan_router_notifications.Common.Result.{returned}
use wan_router_notifications.Shared.Clock.{Instant}
use wan_router_notifications.Shared.Config.Tests.{ascii_upper, small_file}
use wan_router_notifications.Shared.Config.{
  LocalConfig, EnvConfig, syslog_config, local_heartbeat_config, local_config,
}
use wan_router_notifications.Shared.Models.{down}
use wan_router_notifications.Local.Poller.{snmp, poll_any}
use wan_router_notifications.Local.Monitor.NoAnswer.{
  updates, downs, outages, names, no_answer_alarms,
}
use wan_router_notifications.Local.Monitor.Pace.{IsSlow, sleeps_ten_seconds}
use wan_router_notifications.Local.Monitor.Start.{monitor_with, new_monitor}
use wan_router_notifications.Shared.Telegram.{
  Bot, delivered, telegram_error, other_error, send_alert,
}
use wan_router_notifications.Local.AlertEngine.Invariant.{IsConsistent, new_engine-IsConsistent}
use wan_router_notifications.Local.AlertEngine.{
  new_engine, alert_state_of, should_alert, change_alerts, next_alert_state, process_wan_state,
  should_use_alert_interval,
}
use wan_router_notifications.Local.SnmpPoller.Queries.{Answer, next_hop, LinkAnswer, if_oper_status}
use wan_router_notifications.Local.SnmpPoller.{
  new_poller, active_wan, is_active, since_of, wan_states, reverse, poll,
}
use wan_router_notifications.Local.Monitor.Interval.{IsFor, interval_by_stability, Keeps}
use wan_router_notifications.Local.AlertEngine.Messages.{Router, down_alert}
use wan_router_notifications.Local.AlertEngine.Edges.{Update, titles, run as run_engine}
use wan_router_notifications.Local.Monitor.Trace.{sent}
use wan_router_notifications.Local.Monitor.FailedSends.{with_bot, failed_sends_unseen}
use wan_router_notifications.Local.Monitor.Consistency.{run-engine}
use wan_router_notifications.Local.Monitor.{
  ready, polling, sleeping, Monitor, Event, begun, polled, answered, poll_interval, on_answered,
  on_polled, step, run,
}

abbrev pub gateways : Dict Text
gateways = (codes "WAN1", codes "10.0.0.1") ∷ (codes "WAN2", codes "10.0.0.2") ∷ []

abbrev pub started : Monitor
started = record {
  poller = snmp (new_poller gateways []);
  engine = new_engine (record { ip = codes "192.168.0.1"; name = codes "router" });
  telegram = record { chat_id = codes "42"; mock_mode = false; has_bot = true };
  normal_interval = pos 60;
  alert_interval = pos 15;
  recent_events = [];
  phase = ready;
  spawned = [];
  posted = [];
}

abbrev pub works : Bot
works chat text = delivered

abbrev pub no_links : Text → LinkAnswer
no_links name = LinkAnswer.failed

abbrev pub at : ℕ → ℕ → Instant
at t k = t

-- One iteration that finds WAN1 down.
abbrev pub outage : List Event
outage =
    begun
    ∷ polled 7 (Answer.bound (codes "10.0.0.2" ∷ [])) no_links (at 8)
    ∷ answered works (at 9)
    ∷ []

-- It alerts, and sleeps for the normal interval.
outage_sleeps : (run outage started).phase ≡ sleeping (pos 60)
unfolding run step on_polled poll_any on_answered poll_interval should_use_alert_interval new_engine
    new_poller reverse poll next_hop active_wan is_truthy if_oper_status wan_states is_active
    since_of process_wan_state should_alert change_alerts next_alert_state alert_state_of send_alert
    Dict.get Dict.set text_eq last_items
outage_sleeps = refl

interval_by_stability_example :
    (d : ℤ) × (IsFor started (Dict.values started.engine.wan_states) d
      × Keeps d (run (begun ∷ answered works (at 9) ∷ []) started).phase)
interval_by_stability_example = interval_by_stability (answered works (at 9) ∷ []) started refl tt

-- WAN1 was down before the query that has no answer
abbrev before_loss : List Update
before_loss =
    record {
      now = 5;
      state = record { interface = codes "WAN1"; status = down; since = 5; link_up = none };
      all_states = none;
    }
    ∷ []

abbrev here : Router
here = record { ip = codes "192.168.0.1"; name = codes "router" }

no_answer_alarms_example :
    titles
      (run_engine
        (run_engine (new_engine here) before_loss).0
        (updates (λ s. 8) (poll 7 Answer.error no_links (new_poller gateways [])).1)).1
    ≡ outages (downs (λ j. false) before_loss) (names gateways)
unfolding new_poller
no_answer_alarms_example =
    no_answer_alarms here before_loss 7 (λ s. 8) Answer.error no_links (new_poller gateways []) tt

second_alarms : outages (downs (λ j. false) before_loss) (names gateways) ≡ codes "WAN2 DOWN" ∷ []
unfolding text_eq
second_alarms = refl

run-engine_example : IsConsistent (run outage started).engine
unfolding new_engine
run-engine_example = run-engine outage started (new_engine-IsConsistent started.engine.router)

pub works_calmly : (chat text : Text) → works chat text ≢ other_error
works_calmly chat text e = cc

-- both states are seen, and the one alert is sent
outage_sends : titles (sent outage started) ≡ codes "WAN1 DOWN" ∷ []
unfolding run step on_polled poll_any on_answered poll_interval should_use_alert_interval new_engine
    new_poller reverse poll next_hop active_wan is_truthy if_oper_status wan_states is_active
    since_of process_wan_state should_alert change_alerts next_alert_state alert_state_of send_alert
    Dict.get Dict.set text_eq last_items down_alert
outage_sends = refl

-- Telegram cannot be reached
abbrev unreachable : Bot
unreachable chat text = telegram_error

unreachable_calmly : (chat text : Text) → unreachable chat text ≢ other_error
unreachable_calmly chat text e = cc

failed_sends_unseen_example : run (map (with_bot unreachable) outage) started ≡ run outage started
failed_sends_unseen_example =
    failed_sends_unseen unreachable outage started unreachable_calmly (works_calmly, tt)

abbrev polling_now : Monitor
polling_now = record started { phase = polling (pos 60); poller = snmp (new_poller [] []) }

quiet_poll : (step (polled 7 Answer.failed no_links (at 8)) polling_now).phase ≡ sleeping (pos 60)
unfolding step on_polled poll_any new_poller reverse poll wan_states last_items
quiet_poll = refl

abbrev pub small_config : LocalConfig
small_config = record {
  router = record {
    host = codes "192.168.0.1";
    name = codes "router";
    snmp_username = codes "monitor";
    snmp_auth_key = codes "key";
    snmp_auth_protocol = codes "SHA";
    snmp_port = pos 161;
    snmp_timeout = pos 5;
    wan_gateways = [];
    wan_interfaces = [];
  };
  polling = record {
    normal_interval = pos 30;
    alert_interval = pos 15;
    recovery_threshold = pos 5;
  };
  syslog = syslog_config none none none;
  heartbeat = local_heartbeat_config none none none;
}

abbrev pub no_env : EnvConfig
no_env = record { telegram_bot_token = []; telegram_chat_id = []; snmp_auth_key = none }

pub small_accepted : local_config ascii_upper small_file ≡ returned small_config
unfolding local_config text_eq
small_accepted = refl

abbrev pub small_monitor : Monitor
small_monitor = monitor_with small_config no_env true (snmp (new_poller [] []))

pub small_starts : new_monitor ascii_upper small_config no_env false true ≡ returned small_monitor
unfolding new_monitor text_eq
small_starts = refl

sleeps_ten_seconds_example : IsSlow (run outage small_monitor).phase
sleeps_ten_seconds_example =
    sleeps_ten_seconds ascii_upper small_file small_config no_env false true small_monitor outage
      small_accepted small_starts
