-- ===== src/Remote/DnsLoop/Tests.antt =====
-- The DNS loop with a bot that fails.
use wan_router_notifications.Common.{ℕ, ◌≡◌, ◌≢◌, refl, false, true, [], ◌∷◌, none, Bool, ap}
use wan_router_notifications.Common.Int.{pos}
use wan_router_notifications.Common.Result.{raised}
use wan_router_notifications.Common.Text.{codes, text_eq}
use wan_router_notifications.Shared.Models.{AlertEvent}
use wan_router_notifications.Shared.Telegram.{
  TelegramNotifier, Bot, other_error, delivered, send_alert,
}
use wan_router_notifications.Remote.DnsMonitor.{addresses, change_alert, DnsMonitor}
use wan_router_notifications.Remote.DnsLoop.Sends.{watching, change_not_retried}
use wan_router_notifications.Remote.DnsLoop.{configured, iterate}

abbrev telegram : TelegramNotifier
telegram = record { chat_id = codes "42"; mock_mode = false; has_bot = true }

abbrev pub breaks : ℕ → Bot
breaks n chat text = other_error

abbrev pub works : ℕ → Bot
works n chat text = delivered

abbrev pub home : DnsMonitor
home = watching (codes "home") (codes "1.1.1.1") 0

abbrev moved : AlertEvent
moved = change_alert 5 (codes "1.1.1.1") (codes "2.2.2.2") home

abbrev home_moved : DnsMonitor
home_moved = watching (codes "home") (codes "2.2.2.2") 0

breaks_raises : send_alert telegram (breaks 0) moved ≡ raised
unfolding send_alert
breaks_raises = refl

other_text : codes "2.2.2.2" ≢ codes "1.1.1.1"
unfolding text_eq
other_text e = differ (ap (λ t. text_eq t (codes "1.1.1.1")) e)
  where
    differ : ◌≡◌ {A = Bool} false true → ⊥
    differ h = cc

change_not_retried_example :
    (let i = iterate telegram (pos 300) breaks 5 (addresses (codes "2.2.2.2" ∷ [])) home in
      (i.sent ≡ [])
      × ((iterate telegram (pos 300) works 6 (addresses (codes "2.2.2.2" ∷ [])) i.monitor).sent
          ≡ []))
change_not_retried_example =
    change_not_retried telegram breaks (pos 300) 5 6 (codes "home") (codes "1.1.1.1")
      (codes "2.2.2.2") [] 0 works other_text breaks_raises

not_enabled : configured false (codes "home") [] ≡ none
unfolding configured
not_enabled = refl
