-- ===== src/Remote/DnsLoop/Sends.antt =====
-- What `_dns_monitor_loop` of remote/main.py sends of the alerts of a check.
use wan_router_notifications.Common.{
  ℕ, ◌≡◌, ◌≢◌, refl, ap, Bool, true, false, List, [], ◌∷◌, ◌++◌, some, length,
}
use wan_router_notifications.Common.Int.{ℤ}
use wan_router_notifications.Common.Result.{Result, returned, raised}
use wan_router_notifications.Common.Text.{Text, text_eq_refl, text_eq_ne, is_truthy}
use wan_router_notifications.Shared.Clock.{Instant}
use wan_router_notifications.Shared.Models.{AlertEvent}
use wan_router_notifications.Shared.Telegram.{TelegramNotifier, Bot, send_alert}
use wan_router_notifications.Remote.DnsMonitor.{
  DnsMonitor, addresses, check, change_alert, change_alerts, mismatch_alerts, judge,
  resolve_hostname,
}
use wan_router_notifications.Remote.DnsLoop.{turn, send_all, iterate}

-- a monitor that expects no address and has seen one
abbrev pub watching : Text → Text → ℕ → DnsMonitor
watching hostname old failures = record {
  hostname = hostname;
  expected_ip = [];
  last_seen_ip = some old;
  consecutive_failures = failures;
}

module _ (telegram : TelegramNotifier) (bot : ℕ → Bot) where
  -- nothing is left, or the send of the first alert that is left raises
  abbrev pub IsStopped : List AlertEvent → Type 0
  IsStopped [] = Unit {0}
  IsStopped (alert ∷ rest) = send_alert telegram (bot (length rest)) alert ≡ raised

  abbrev pub none_left : List AlertEvent → Bool
  none_left [] = true
  none_left (alert ∷ rest) = false

  abbrev pub SendsOf : List AlertEvent → List AlertEvent × Bool → Type 0
  SendsOf alerts (sent, all) =
      (rest : List AlertEvent) × ((sent ++ rest ≡ alerts) × IsStopped rest × (all ≡ none_left rest))

  pub send_all-SendsOf : (alerts : List AlertEvent) → SendsOf alerts (send_all telegram bot alerts)
  unfolding send_all
  send_all-SendsOf [] = ([], (refl, tt, refl))
  send_all-SendsOf (alert ∷ rest) =
      by_result (send_alert telegram (bot (length rest)) alert) refl (send_all-SendsOf rest)
    where
      by_result :
          (r : Result Bool)
          → send_alert telegram (bot (length rest)) alert ≡ r
          → SendsOf rest (send_all telegram bot rest)
          → SendsOf (alert ∷ rest) (turn alert (send_all telegram bot rest) r)
      by_result (returned ok) e (left, (parts, stop, all)) =
          (left, (ap (◌∷◌ alert) parts, stop, all))
      by_result raised e h = (alert ∷ rest, (refl, e, refl))

  -- Where no address is expected and the last address is known: if the name has another one and the
  -- send of that alert raises, nothing is sent, and neither does the next iteration send anything if
  -- the name has the new address still, whatever the bot then does.
  pub change_not_retried :
      (interval : ℤ) (now later : Instant) (hostname old current : Text) (others : List Text)
      (failures : ℕ) (next_bot : ℕ → Bot)
      → current ≢ old
      → send_alert telegram (bot 0) (change_alert now old current (watching hostname old 0))
        ≡ raised
      → (let i =
            iterate telegram interval bot now
              (addresses (current ∷ others))
              (watching hostname old failures) in
          (i.sent ≡ [])
          × ((iterate telegram interval next_bot later
                (addresses (current ∷ others))
                i.monitor).sent
              ≡ []))
  unfolding iterate check judge resolve_hostname change_alerts mismatch_alerts is_truthy send_all
  change_not_retried interval now later hostname old current others failures next_bot ne fails =
      let alert = change_alert now old current (watching hostname old 0) in
      rw (text_eq_ne current old ne, text_eq_refl current)
        (ap (λ r. (turn alert (send_all telegram bot []) r).0) fails, refl)
