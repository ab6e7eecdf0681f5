-- ===== src/Local/Monitor/Start.antt =====
-- The constructor of `LocalMonitor` in local/main.py, less the syslog receiver.
use wan_router_notifications.Common.{Bool, []}
use wan_router_notifications.Common.Result.{Result, returned, ◌>>=◌}
use wan_router_notifications.Common.Text.{Text}
use wan_router_notifications.Shared.Config.{LocalConfig, EnvConfig}
use wan_router_notifications.Shared.Telegram.{new_notifier}
use wan_router_notifications.Local.AlertEngine.{new_engine}
use wan_router_notifications.Local.Poller.{Poller, choose_poller}
use wan_router_notifications.Local.Monitor.{Monitor, ready}

abbrev pub monitor_with : LocalConfig → EnvConfig → Bool → Poller → Monitor
monitor_with config env mock_telegram poller' = record {
  poller = poller';
  engine = new_engine (record { ip = config.router.host; name = config.router.name });
  telegram = new_notifier env.telegram_bot_token env.telegram_chat_id mock_telegram;
  normal_interval = config.polling.normal_interval;
  alert_interval = config.polling.alert_interval;
  recent_events = [];
  phase = ready;
  spawned = [];
  posted = [];
}

-- `upper` is Python's `str.upper`; an unknown protocol raises.
unfoldable pub new_monitor : (Text → Text) → LocalConfig → EnvConfig → Bool → Bool → Result Monitor
unfolding choose_poller new_engine new_notifier
new_monitor upper config env mock_snmp mock_telegram =
    choose_poller upper mock_snmp config.router.snmp_auth_protocol config.router.wan_gateways
      config.router.wan_interfaces
    >>= λ poller'. returned (monitor_with config env mock_telegram poller')
