-- ===== src/Remote/Sentinel.antt =====
-- remote/main.py: the loop `_monitor_loop` of the sentinel, cut at its `await` points, between which
-- the server of remote/heartbeat_receiver.py may take a heartbeat.
pub mod Alternation
pub mod Outage
pub mod FailedSends
pub mod OnTime
pub mod Silence
pub mod Detection
pub mod LastHeartbeat
pub mod Tests
use wan_router_notifications.Common.{
  Bool, true, false, not, ◌&&◌, List, [], ◌∷◌, Option, none, some, if◌then◌else◌,
}
use wan_router_notifications.Common.Int.{ℤ}
use wan_router_notifications.Common.Result.{Result, returned, raised}
use wan_router_notifications.Shared.Clock.{Instant}
use wan_router_notifications.Shared.Models.{HeartbeatPayload, AlertEvent}
use wan_router_notifications.Shared.Telegram.{TelegramNotifier, Bot, send_alert}
use wan_router_notifications.Remote.ExternalProbe.{ProbeResult}
use wan_router_notifications.Remote.AlertEngine.{
  create_monitor_lost_alert, create_monitor_recovered_alert,
}
use wan_router_notifications.Remote.HeartbeatStore.{
  HeartbeatStore, new_store, record_heartbeat, is_missing, should_alert_missing,
  get_last_wan_states,
}

-- which of the two alerts of the loop
pub data Notice : Type 0 where
  lost recovered : Notice

-- Where the loop waits: in `asyncio.sleep(10)`, in `probe.check()`, or in `send_alert(alert)`.
pub data Phase : Type 0 where
  sleeping : Phase
  probing : Phase
  sending : Notice → AlertEvent → Phase

-- `sent` is not part of the program: it records the calls of `send_alert` that returned, with what
-- they returned, the newest first.
pub record Sentinel : Type 0 where
  pub store : HeartbeatStore
  pub telegram : TelegramNotifier
  pub was_missing : Bool
  pub phase : Phase
  pub sent : List (Notice × Bool)

unfoldable pub new_sentinel : ℤ → ℤ → TelegramNotifier → Sentinel
new_sentinel expected_interval missed_threshold telegram = record {
  store = new_store expected_interval missed_threshold;
  telegram = telegram;
  was_missing = false;
  phase = sleeping;
  sent = [];
}

-- What can happen next: a heartbeat arrives; the sleep ends, with the clock's values at the two tests
-- and at the making of an alert; the probe ends, with those at its two calls; the bot answers.
pub data Event : Type 0 where
  heartbeat : Instant → HeartbeatPayload → Event
  woken : Instant → Instant → Instant → Event
  probed : ProbeResult → Instant → Instant → Event
  answered : Bot → Event

-- from the top of the loop to its first `await`
unfoldable pub on_woken : Instant → Instant → Instant → Sentinel → Sentinel
on_woken check recheck now s =
    let (store', due) = should_alert_missing check s.store in
    if due
    then record s { store = store'; phase = probing }
    else if s.was_missing && not (is_missing recheck s.store)
    then record s { phase = sending recovered (create_monitor_recovered_alert now) }
    else s

-- `self.store.last_heartbeat or datetime.now(UTC)`
abbrev or_now : Option Instant → Instant → Instant
or_now none now = now
or_now (some t) now = t

unfoldable pub on_probed : ProbeResult → Instant → Instant → Sentinel → Sentinel
on_probed result fallback now s = record s {
  phase = sending lost (
      create_monitor_lost_alert now (or_now s.store.last_heartbeat fallback)
        (get_last_wan_states s.store) result);
}

abbrev pub is_lost : Notice → Bool
is_lost lost = true
is_lost recovered = false

-- after `send_alert`: an exception goes to the handler, which changes nothing and sleeps
unfoldable pub on_answered : Notice → Result Bool → Sentinel → Sentinel
on_answered n (returned delivered) s = record s {
  was_missing = is_lost n;
  phase = sleeping;
  sent = (n, delivered) ∷ s.sent;
}
on_answered n raised s = record s { phase = sleeping }

-- An event that the phase does not wait for changes nothing.
pub step_in : Phase → Event → Sentinel → Sentinel
step_in phase (heartbeat now payload) s = record s { store = record_heartbeat now payload s.store }
step_in sleeping (woken check recheck now) s = on_woken check recheck now s
step_in probing (probed result fallback now) s = on_probed result fallback now s
step_in (sending n alert) (answered bot) s = on_answered n (send_alert s.telegram bot alert) s
step_in _ _ s = s

unfoldable pub step : Event → Sentinel → Sentinel
unfolding step_in on_woken on_probed on_answered
step e s = step_in s.phase e s

unfoldable pub run : List Event → Sentinel → Sentinel
run [] s = s
run (e ∷ es) s = run es (step e s)
