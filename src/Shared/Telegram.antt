-- ===== src/Shared/Telegram.antt =====
-- shared/telegram.py: durations (`Duration`), messages, and the notifier. The `Bot` of the package
-- telegram is a parameter: what its `send_message` does with a chat and a text.
pub mod Duration
pub mod Messages
use wan_router_notifications.Common.{
  ◌≢◌, arith, Bool, true, false, List, [], ◌∷◌, ◌++◌, if◌then◌else◌, not, ◌&&◌,
}
use wan_router_notifications.Common.Result.{Result, returned, raised}
use wan_router_notifications.Common.Text.{Text, codes, is_truthy}
use wan_router_notifications.Shared.Models.{AlertSeverity, info, warning, critical, AlertEvent}

-- how `Bot.send_message` ends
pub data BotOutcome : Type 0 where
  delivered telegram_error other_error : BotOutcome

abbrev pub Bot : Type 0
Bot = Text → Text → BotOutcome

pub record TelegramNotifier : Type 0 where
  pub chat_id : Text
  pub mock_mode : Bool
  pub has_bot : Bool

unfoldable pub new_notifier : Text → Text → Bool → TelegramNotifier
unfolding is_truthy
new_notifier bot_token chat_id mock_mode = record {
  chat_id = chat_id;
  mock_mode = mock_mode;
  has_bot = not mock_mode && is_truthy bot_token;
}

-- the `try` of `send_message`: only a `TelegramError` is caught
unfoldable pub caught : BotOutcome → Result Bool
caught delivered = returned true
caught telegram_error = returned false
caught other_error = raised

unfoldable pub send_message : TelegramNotifier → Bot → Text → Result Bool
unfolding caught
send_message n bot text =
    if n.mock_mode
    then returned true
    else if not n.has_bot
    then returned false
    else caught (bot n.chat_id text)

pub severity_emoji : AlertSeverity → Text
severity_emoji critical = codes "🔴"
severity_emoji warning = codes "🟠"
severity_emoji info = codes "🔵"

pub alert_text : AlertEvent → Text
unfolding severity_emoji
alert_text event =
    severity_emoji event.severity ++ (codes " " ++ (event.title ++ (codes "\n\n" ++ event.message)))

unfoldable pub send_alert : TelegramNotifier → Bot → AlertEvent → Result Bool
unfolding send_message alert_text
send_alert n bot event = send_message n bot (alert_text event)

pub send_alert-ne-raised :
    (n : TelegramNotifier) (bot : Bot) (a : AlertEvent)
    → ((chat text : Text) → bot chat text ≢ other_error)
    → send_alert n bot a ≢ raised
unfolding send_alert send_message caught
send_alert-ne-raised n bot a h = ground (arith, h n.chat_id (alert_text a))
