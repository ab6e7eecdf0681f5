-- ===== src/Local/Monitor.antt =====
-- local/main.py: the loops of `LocalMonitor`, cut at their `await` points, between which syslog events
-- may arrive and heartbeats may be sent.
pub mod Start
pub mod Pace
pub mod Progress
pub mod Bounds
pub mod Interval
pub mod Consistency
pub mod Trace
mod Updates
pub mod Delivery
pub mod FailedSends
pub mod NoAnswer
pub mod Tests
use wan_router_notifications.Common.{
  ℕ, Bool, true, false, List, [], ◌∷◌, ◌++◌, Option, none, some, length, last_items, if◌then◌else◌,
}
use wan_router_notifications.Common.Int.{ℤ, pos}
use wan_router_notifications.Common.Result.{Result, returned, raised}
use wan_router_notifications.Common.Text.{Text}
use wan_router_notifications.Common.Dict
use wan_router_notifications.Common.Dict.{Dict}
use wan_router_notifications.Shared.Clock.{Instant}
use wan_router_notifications.Shared.Models.{WanState, AlertEvent, SyslogEvent, HeartbeatPayload}
use wan_router_notifications.Shared.Telegram.{TelegramNotifier, Bot, send_alert}
use wan_router_notifications.Local.AlertEngine.{
  AlertEngine, process_wan_state, should_use_alert_interval, get_current_wan_states,
}
use wan_router_notifications.Local.AlertEngine.Syslog.{process_syslog_event}
use wan_router_notifications.Local.SnmpPoller.Queries.{Answer, LinkAnswer}
use wan_router_notifications.Local.Poller.{Poller, poll_any}
use wan_router_notifications.Local.Heartbeat.{PostOutcome, send}

-- Where the poll loop waits: before an iteration, in `poller.poll()`, in `send_alert(alert)` with the
-- alerts and the states that are left of the two `for` loops, in the sleep after an iteration, or in
-- that of the exception handler.
pub data Phase : Type 0 where
  ready : Phase
  polling : ℤ → Phase
  sending : ℤ → Dict WanState → AlertEvent → List AlertEvent → List WanState → Phase
  sleeping : ℤ → Phase
  backing_off : ℤ → Phase

-- `spawned` and `posted` are not part of the program: they record the alerts that syslog events hand
-- to tasks of their own, in order, and the payloads that were posted, the newest first.
pub record Monitor : Type 0 where
  pub poller : Poller
  pub engine : AlertEngine
  pub telegram : TelegramNotifier
  pub normal_interval : ℤ
  pub alert_interval : ℤ
  pub recent_events : List AlertEvent
  pub phase : Phase
  pub spawned : List AlertEvent
  pub posted : List HeartbeatPayload

-- What can happen next. Between two `await`s the clock is read once for each state that is
-- processed: `ℕ → Instant` gives its value by the number of states left after that one.
pub data Event : Type 0 where
  begun : Event
  polled : Instant → Answer → (Text → LinkAnswer) → (ℕ → Instant) → Event
  answered : Bot → (ℕ → Instant) → Event
  woken : Event
  syslog : Instant → SyslogEvent → Event
  beat : Instant → (HeartbeatPayload → PostOutcome) → Event

unfoldable pub poll_interval : Monitor → ℤ
poll_interval m = if should_use_alert_interval m.engine then m.alert_interval else m.normal_interval

-- the alerts of one state that are left: the next is recorded and sent, or the loop goes on
unfoldable pub send_next :
    ℤ → Dict WanState → List AlertEvent → List WanState → Monitor → Monitor → Monitor
send_next interval all_states [] states m next = next
send_next interval all_states (alert ∷ rest) states m next = record m {
  recent_events = m.recent_events ++ alert ∷ [];
  phase = sending interval all_states alert rest states;
}

-- the two `for` loops from the next state up to the next `send_alert`, or to the end of the iteration
unfoldable pub process_states :
    (ℕ → Instant) → ℤ → Dict WanState → List WanState → Monitor → Monitor
unfolding send_next
process_states clock interval all_states [] m = record m {
  recent_events = last_items 100 m.recent_events;
  phase = sleeping interval;
}
process_states clock interval all_states (state ∷ states) m =
    let (engine', alerts) =
      process_wan_state (clock (length states)) m.engine state (some all_states) in
    let m' = record m { engine = engine' } in
    send_next interval all_states alerts states m'
      (process_states clock interval all_states states m')

-- after `send_alert`, whose result is not looked at; an exception ends the iteration
unfoldable pub on_answered :
    (ℕ → Instant)
    → ℤ
    → Dict WanState
    → List AlertEvent
    → List WanState
    → Result Bool
    → Monitor
    → Monitor
unfolding process_states
on_answered clock interval all_states rest states raised m = record m {
  phase = backing_off (pos 10);
}
on_answered clock interval all_states rest states (returned ok) m =
    send_next interval all_states rest states m (process_states clock interval all_states states m)

unfoldable pub on_polled :
    ℤ → Instant → Answer → (Text → LinkAnswer) → (ℕ → Instant) → Monitor → Monitor
unfolding process_states
on_polled interval now route links clock m =
    let (poller', states) = poll_any now route links m.poller in
    process_states clock interval states (Dict.values states) (record m { poller = poller' })

unfoldable pub on_syslog_event : Instant → SyslogEvent → Monitor → Monitor
on_syslog_event now event m =
    let alerts = process_syslog_event now m.engine.router event in
    record m { recent_events = m.recent_events ++ alerts; spawned = m.spawned ++ alerts }

-- the body of `_heartbeat_loop` up to the request, whose result is not looked at
unfoldable pub on_beat : Instant → (HeartbeatPayload → PostOutcome) → Monitor → Monitor
on_beat now post m = record m {
  posted = (send now post (get_current_wan_states m.engine) m.recent_events).0 ∷ m.posted;
}

-- An event that the phase does not wait for changes nothing.
pub step_in : Phase → Event → Monitor → Monitor
step_in phase (syslog now event) m = on_syslog_event now event m
step_in phase (beat now post) m = on_beat now post m
step_in ready begun m = record m { phase = polling (poll_interval m) }
step_in (polling interval) (polled now route links clock) m =
    on_polled interval now route links clock m
step_in (sending interval all_states alert rest states) (answered bot clock) m =
    on_answered clock interval all_states rest states (send_alert m.telegram bot alert) m
step_in (sleeping interval) woken m = record m { phase = ready }
step_in (backing_off d) woken m = record m { phase = ready }
step_in _ _ m = m

unfoldable pub step : Event → Monitor → Monitor
unfolding step_in
step e m = step_in m.phase e m

unfoldable pub run : List Event → Monitor → Monitor
run [] m = m
run (e ∷ es) m = run es (step e m)
