-- ===== src/Local/Program.antt =====
-- `LocalMonitor` of local/main.py as the event loop runs it: the three loops that `start` gathers, the
-- syslog receiver with the monitor's callback, and `stop`. The poll loop is that of `Monitor`; a loop
-- tests `_running` at its head.
pub mod Own
pub mod Wiring
pub mod Launch
pub mod Sends
pub mod Accepted
pub mod Measure
mod Turns
pub mod Shutdown
pub mod Progress
pub mod Delay
pub mod Datagrams
mod Tests
use wan_router_notifications.Common.{
  ℕ, Bool, true, false, ◌&&◌, List, [], ◌∷◌, Option, none, some, if◌then◌else◌,
}
use wan_router_notifications.Common.Result.{Result, returned, raised, ◌>>=◌}
use wan_router_notifications.Common.Text.{Text}
use wan_router_notifications.Shared.Clock.{Instant}
use wan_router_notifications.Shared.Config.{LocalConfig, EnvConfig}
use wan_router_notifications.Shared.Models.{HeartbeatPayload, SyslogEvent}
use wan_router_notifications.Shared.Telegram.{Bot}
use wan_router_notifications.Local.Heartbeat.{PostOutcome}
use wan_router_notifications.Local.SnmpPoller.Queries.{Answer, LinkAnswer}
use wan_router_notifications.Local.SyslogReceiver.Patterns.{Unicode}
use wan_router_notifications.Local.SyslogReceiver.{
  Callback, SyslogReceiver, new_receiver, add_callback, reset_count, datagram_received,
}
use wan_router_notifications.Local.Monitor.Start.{new_monitor}
use wan_router_notifications.Local.Monitor.{
  Phase, ready, Monitor, begun, polled, answered, woken, syslog, beat, step as monitor_step,
}

-- Where `start` is: in `self.syslog.start()`, in `asyncio.gather`, or at its end, by an exception too.
pub data Stage : Type 0 where
  opening gathering done : Stage

-- Where the heartbeat loop waits: nowhere, at its head; in its request; in its sleep; or it has ended.
pub data Place : Type 0 where
  at_head requesting asleep ended : Place

-- The same of the status loop, which makes no request and sleeps for a number of seconds.
pub data Pause : Type 0 where
  to_test : Pause
  napping : ℕ → Pause
  over : Pause

-- The clock's value stands beside the monitor for the callback, which reads it.
abbrev pub World : Type 0
World = Instant × Monitor

-- `listening` is whether the receiver's transport is there; `logged` records the counts that the
-- status loop logs, the newest first.
pub record Program : Type 0 where
  pub running : Bool
  pub stage : Stage
  pub monitor : Monitor
  pub poll_ended : Bool
  pub heart : Place
  pub status : Pause
  pub receiver : Option (SyslogReceiver World)
  pub listening : Bool
  pub logged : List ℕ

-- `_on_syslog_event` as a callback, which raises nothing
abbrev pub monitor_callback : Callback World
monitor_callback event (now, m) = ((now, monitor_step (syslog now event) m), returned tt)

abbrev pub receiver_for : Bool → Option (SyslogReceiver World)
receiver_for false = none
receiver_for true = some (add_callback monitor_callback new_receiver)

-- where `start` goes first: to the receiver's socket, or where there is none to the loops
abbrev pub first_stage : Bool → Stage
first_stage false = gathering
first_stage true = opening

-- `start` up to its first `await`, with or without a receiver
abbrev pub launched : Bool → Monitor → Program
launched syslog_enabled m = record {
  running = true;
  stage = first_stage syslog_enabled;
  monitor = m;
  poll_ended = false;
  heart = at_head;
  status = to_test;
  receiver = receiver_for syslog_enabled;
  listening = false;
  logged = [];
}

-- `LocalMonitor(...)`, and `start` as far
unfoldable pub launch : (Text → Text) → LocalConfig → EnvConfig → Bool → Bool → Result Program
unfolding new_monitor
launch upper config env mock_snmp mock_telegram =
    new_monitor upper config env mock_snmp mock_telegram >>= λ m.
    returned (launched config.syslog.enabled m)

-- What can happen next: the socket is opened, or cannot be; a loop goes on from where it waits; a
-- datagram arrives, with the clock's values for the parser and for the callback; a signal.
pub data Event : Type 0 where
  opened : Result (Unit {0}) → Event
  poll_begun : Event
  poll_polled : Instant → Answer → (Text → LinkAnswer) → (ℕ → Instant) → Event
  poll_answered : Bot → (ℕ → Instant) → Event
  poll_woken : Event
  heart_begun : Instant → (HeartbeatPayload → PostOutcome) → Event
  heart_posted : Event
  heart_woken : Event
  status_begun : Event
  status_woken : Event
  datagram : Instant → Instant → Instant → List ℕ → Event
  signal : Event

unfoldable pub stop : Program → Program
stop p = record p { running = false; listening = false }

-- `while self._running` of the poll loop, where it is at its head
abbrev pub poll_head : Bool → Bool → Phase → Program → Program
poll_head false true ready p = record p { monitor = monitor_step begun p.monitor }
poll_head false false ready p = record p { poll_ended = true }
poll_head _ _ _ p = p

-- The heartbeat loop up to its request, from that to its sleep, and to its head. Nothing in its `try`
-- raises: `send` catches what the request raises.
abbrev pub heart_head :
    Instant → (HeartbeatPayload → PostOutcome) → Place → Bool → Program → Program
heart_head now post at_head true p = record p {
  monitor = monitor_step (beat now post) p.monitor;
  heart = requesting;
}
heart_head now post at_head false p = record p { heart = ended }
heart_head now post _ _ p = p

abbrev pub heart_sleeps : Place → Place
heart_sleeps requesting = asleep
heart_sleeps place = place

abbrev pub heart_wakes : Place → Place
heart_wakes asleep = at_head
heart_wakes place = place

-- the status loop from its head to its sleep
abbrev pub status_head : Pause → Bool → Pause
status_head to_test true = napping 300
status_head to_test false = over
status_head pause running = pause

-- `if self.syslog: count = self.syslog.reset_count()`, and back to the head
abbrev pub status_wakes : Pause → Option (SyslogReceiver World) → Program → Program
status_wakes (napping d) none p = record p { status = to_test }
status_wakes (napping d) (some r) p =
    let (count, r') = reset_count r in
    record p { status = to_test; receiver = some r'; logged = count ∷ p.logged }
status_wakes _ _ p = p

-- one turn of one of the three loops
unfoldable pub turn : Event → Program → Program
unfolding reset_count
turn poll_begun p = poll_head p.poll_ended p.running p.monitor.phase p
turn (poll_polled now route links clock) p = record p {
  monitor = monitor_step (polled now route links clock) p.monitor;
}
turn (poll_answered bot clock) p = record p {
  monitor = monitor_step (answered bot clock) p.monitor;
}
turn poll_woken p = record p { monitor = monitor_step woken p.monitor }
turn (heart_begun now post) p = heart_head now post p.heart p.running p
turn heart_posted p = record p { heart = heart_sleeps p.heart }
turn heart_woken p = record p { heart = heart_wakes p.heart }
turn status_begun p = record p { status = status_head p.status p.running }
turn status_woken p = status_wakes p.status p.receiver p
turn _ p = p

abbrev pub is_ended : Place → Bool
is_ended ended = true
is_ended _ = false

abbrev pub is_over : Pause → Bool
is_over over = true
is_over _ = false

abbrev pub all_ended : Program → Bool
all_ended p = p.poll_ended && (is_ended p.heart && is_over p.status)

-- where all loops have ended, `gather` returns, and `main` stops the monitor once more
abbrev pub close_if : Bool → Program → Program
close_if true p = record p { running = false; listening = false; stage = done }
close_if false p = p

module _ (u : Unicode) where
  -- `datagram_received`, where the transport is there
  abbrev pub on_datagram :
      Instant
      → Instant
      → Instant
      → List ℕ
      → Bool
      → Option (SyslogReceiver World)
      → Program
      → Program
  on_datagram now again alert_time bytes true (some r) p =
      let (r', (t, m)) = datagram_received u now again bytes r (alert_time, p.monitor) in
      record p { receiver = some r'; monitor = m }
  on_datagram now again alert_time bytes _ _ p = p

  -- An event that nothing waits for changes nothing.
  step_at : Stage → Event → Program → Program
  unfolding datagram_received
  step_at stage signal p = stop p
  step_at stage (datagram now again alert_time bytes) p =
      on_datagram now again alert_time bytes p.listening p.receiver p
  step_at opening (opened (returned o)) p = record p { stage = gathering; listening = true }
  step_at opening (opened raised) p = record p { running = false; listening = false; stage = done }
  step_at gathering e p = let q = turn e p in close_if (all_ended q) q
  step_at _ _ p = p

  unfoldable pub step : Event → Program → Program
  unfolding step_at stop turn
  step e p = step_at p.stage e p

  unfoldable pub run : List Event → Program → Program
  run [] p = p
  run (e ∷ es) p = run es (step e p)
