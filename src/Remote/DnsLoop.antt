-- ===== src/Remote/DnsLoop.antt =====
-- `_dns_monitor_loop` of remote/main.py. Nothing else works on the DNS monitor, so an iteration is one
-- function, whose sends are answered one by one.
pub mod Sends
pub mod Tests
use wan_router_notifications.Common.{
  ℕ, Bool, true, false, ◌&&◌, List, [], ◌∷◌, Option, none, some, length, if◌then◌else◌,
}
use wan_router_notifications.Common.Int.{ℤ, pos}
use wan_router_notifications.Common.Result.{Result, returned, raised}
use wan_router_notifications.Common.Text.{Text, is_truthy}
use wan_router_notifications.Shared.Clock.{Instant}
use wan_router_notifications.Shared.Models.{AlertEvent}
use wan_router_notifications.Shared.Telegram.{TelegramNotifier, Bot, send_alert}
use wan_router_notifications.Remote.DnsMonitor.{DnsMonitor, DnsAnswer, new_monitor, check}

-- the monitor of `RemoteSentinel.__init__`
unfoldable pub configured : Bool → Text → Text → Option DnsMonitor
unfolding is_truthy new_monitor
configured enabled hostname expected_ip =
    if enabled && is_truthy hostname then some (new_monitor hostname expected_ip) else none

-- one turn of the `for` loop, by the result of the send: an exception ends the loop
abbrev pub turn : AlertEvent → List AlertEvent × Bool → Result Bool → List AlertEvent × Bool
turn alert later raised = ([], false)
turn alert (sent, all) (returned ok) = (alert ∷ sent, all)

-- The alerts whose sending returned, and whether all did. The bot answers by the number of alerts
-- that are left after the one it is sent.
unfoldable pub send_all : TelegramNotifier → (ℕ → Bot) → List AlertEvent → List AlertEvent × Bool
send_all telegram bot [] = ([], true)
send_all telegram bot (alert ∷ rest) =
    turn alert (send_all telegram bot rest) (send_alert telegram (bot (length rest)) alert)

-- what an iteration leaves: the monitor, the alerts whose sending returned, and the sleep
pub record Iteration : Type 0 where
  pub monitor : DnsMonitor
  pub sent : List AlertEvent
  pub sleep : ℤ

-- after the check
abbrev pub after_check :
    TelegramNotifier → ℤ → (ℕ → Bot) → DnsMonitor × Result (List AlertEvent) → Iteration
after_check telegram interval bot (m, raised) = record { monitor = m; sent = []; sleep = pos 60 }
after_check telegram interval bot (m, returned alerts) =
    let (sent, all) = send_all telegram bot alerts in
    record { monitor = m; sent = sent; sleep = if all then interval else pos 60 }

unfoldable pub iterate :
    TelegramNotifier → ℤ → (ℕ → Bot) → Instant → DnsAnswer → DnsMonitor → Iteration
unfolding check send_all
iterate telegram interval bot now answer m = after_check telegram interval bot (check now answer m)
