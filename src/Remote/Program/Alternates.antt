-- ===== src/Remote/Program/Alternates.antt =====
-- The alerts of the monitor loop in the whole program of remote/main.py.
use mathlib.Core.Path.{subst}
use wan_router_notifications.Common.{sym, Bool, List}
use wan_router_notifications.Shared.Config.{EnvConfig}
use wan_router_notifications.Shared.Config.Remote.{RemoteConfig}
use wan_router_notifications.Shared.Telegram.{new_notifier}
use wan_router_notifications.Remote.Sentinel.Alternation.{IsOrdered, sentinel_alternates}
use wan_router_notifications.Remote.Program.Monitoring.{owns, sentinel_refined}
use wan_router_notifications.Remote.Program.{Program, launch, Event, run}

-- From the launch of the program, whatever happens in whatever order, with heartbeats posted, the probe
-- and DNS loops between, `stop`, and the server's end: every recovered alert of the monitor loop comes
-- directly after a lost one, and `_was_missing` says whether the newest of them is a lost one.
pub program_alternates :
    (config : RemoteConfig) (env : EnvConfig) (mock_telegram : Bool) (es : List Event)
    → IsOrdered (run es (launch config env mock_telegram)).sentinel
unfolding launch
program_alternates config env mock_telegram es =
    let p : Program = launch config env mock_telegram in
    subst IsOrdered (sym (sentinel_refined es p)) (
      sentinel_alternates config.heartbeat.expected_interval config.heartbeat.missed_threshold
        (new_notifier env.telegram_bot_token env.telegram_chat_id mock_telegram) (owns es p))
