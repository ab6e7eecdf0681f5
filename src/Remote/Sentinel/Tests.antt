-- ===== src/Remote/Sentinel/Tests.antt =====
-- The sentinel through an outage.
use wan_router_notifications.Common.{
  ◌≡◌, ◌≢◌, ◌+◌, ◌*◌, ◌++◌, arith, ltb, refl, map, true, false, List, [], ◌∷◌,
}
use wan_router_notifications.Common.Int.{pos, ◌*ℤ◌}
use wan_router_notifications.Common.Text.{Text, codes}
use wan_router_notifications.Shared.Clock.{minus}
use wan_router_notifications.Shared.Models.{HeartbeatPayload}
use wan_router_notifications.Shared.Telegram.{
  TelegramNotifier, Bot, delivered, telegram_error, other_error, send_alert,
}
use wan_router_notifications.Remote.ExternalProbe.{unreachable}
use wan_router_notifications.Remote.HeartbeatStore.{
  new_store, record_heartbeat, threshold, is_missing, should_alert_missing,
}
use wan_router_notifications.Remote.Sentinel.FailedSends.{with_bot, unrecorded, undelivered_unseen}
use wan_router_notifications.Remote.Sentinel.OnTime.{IsCalm}
use wan_router_notifications.Remote.Sentinel.Silence.{Forward}
use wan_router_notifications.Remote.Sentinel.Detection.{
  is_detected, one_if, notices, one_lost_alert, start_alarms,
}
use wan_router_notifications.Remote.Sentinel.Outage.{lost_alert_not_retried}
use wan_router_notifications.Remote.Sentinel.{
  lost, recovered, Sentinel, new_sentinel, Event, heartbeat, woken, probed, answered, step, run,
}

abbrev pub notifier : TelegramNotifier
notifier = record { chat_id = codes "42"; mock_mode = false; has_bot = true }

abbrev pub works : Bot
works chat text = delivered

abbrev pub breaks : Bot
breaks chat text = other_error

abbrev pub payload : HeartbeatPayload
payload = record {
  timestamp = 0;
  wan_states = [];
  recent_events = [];
  monitor_version = codes "0.1.0";
}

abbrev pub started : Sentinel
started = new_sentinel (pos 60) (pos 3) notifier

-- A heartbeat arrives while the lost alert is being sent.
abbrev interleaved : List Event
interleaved =
    woken 10 10 10
    ∷ probed unreachable 11 11
    ∷ heartbeat 12 payload
    ∷ answered works
    ∷ woken 20 20 20
    ∷ answered works
    ∷ []

interleaved_sent : (run interleaved started).sent ≡ (recovered, true) ∷ (lost, true) ∷ []
unfolding run step new_sentinel new_store record_heartbeat should_alert_missing is_missing threshold
    minus send_alert ◌*ℤ◌
interleaved_sent = refl

lost_alert_not_retried_example :
    (run
      (woken 10 10 10 ∷ probed unreachable 11 11 ∷ answered breaks ∷ woken 21 21 21 ∷ [])
      started).sent
    ≡ started.sent
unfolding new_sentinel new_store is_missing send_alert
lost_alert_not_retried_example =
    lost_alert_not_retried started 10 10 10 11 11 unreachable breaks (woken 21 21 21 ∷ []) refl refl
      refl refl refl tt

abbrev loses : Bot
loses chat text = telegram_error

loses-calm : (chat text : Text) → loses chat text ≢ other_error
loses-calm chat text = cc

works-calm : (chat text : Text) → works chat text ≢ other_error
works-calm chat text = cc

undelivered_unseen_example :
    unrecorded (run (map (with_bot loses) interleaved) started)
    ≡ unrecorded (run interleaved started)
undelivered_unseen_example =
    undelivered_unseen loses interleaved started loses-calm (works-calm, (works-calm, tt))

-- The heartbeats stop at 12: two wake-ups in time, one that is late, and two after the alert.
abbrev stopped : Sentinel
stopped = record started { store = record_heartbeat 12 payload started.store }

stopped-IsCalm : IsCalm 60 3 12 stopped
unfolding new_sentinel new_store record_heartbeat
stopped-IsCalm = record { every = refl; times = refl; newest = refl; sleeps = refl; calm = refl }

abbrev silence : List Event
silence =
    woken 10000000 10000000 10000000
    ∷ woken 180000012 180000012 180000012
    ∷ woken 190000012 190000012 190000012
    ∷ probed unreachable 190000013 190000013
    ∷ answered works
    ∷ woken 200000013 200000013 200000013
    ∷ answered works
    ∷ []

silence-Forward : Forward 12 silence
silence-Forward = (
  omega arith,
  omega arith,
  (omega arith, omega arith, (omega arith, omega arith, (omega arith, omega arith, tt))),
)

one_lost_alert_example :
    notices (run silence stopped)
    ≡ one_if (is_detected (ltb (12 + 60 * 3 * 1000000)) silence) ++ notices stopped
unfolding new_sentinel new_store record_heartbeat
one_lost_alert_example =
    one_lost_alert 60 3 12 silence stopped stopped-IsCalm refl tt silence-Forward
      (works-calm, (works-calm, tt))

-- it is one
silence_detected : is_detected (ltb (12 + 60 * 3 * 1000000)) silence ≡ true
silence_detected = refl

silence_from_zero : Forward 0 silence
silence_from_zero = let (first, second, rest) = silence-Forward in (omega arith, second, rest)

start_alarms_example :
    notices (run silence (new_sentinel (pos 60) (pos 3) notifier))
    ≡ one_if (is_detected (λ now. true) silence)
start_alarms_example =
    start_alarms (pos 60) (pos 3) notifier 0 silence tt silence_from_zero
      (works-calm, (works-calm, tt))
