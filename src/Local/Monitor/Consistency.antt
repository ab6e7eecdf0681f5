-- ===== src/Local/Monitor/Consistency.antt =====
-- The alert engine stays consistent whatever happens to the monitor.
use wan_router_notifications.Common.{ℕ, List, [], ◌∷◌, some, length}
use wan_router_notifications.Common.Int.{ℤ}
use wan_router_notifications.Common.Result.{Result, returned, raised}
use wan_router_notifications.Common.Dict
use wan_router_notifications.Common.Dict.{Dict}
use wan_router_notifications.Shared.Clock.{Instant}
use wan_router_notifications.Shared.Models.{WanState, AlertEvent}
use wan_router_notifications.Shared.Telegram.{send_alert}
use wan_router_notifications.Local.AlertEngine.{process_wan_state}
use wan_router_notifications.Local.AlertEngine.Invariant.{
  IsConsistent, process_wan_state-IsConsistent,
}
use wan_router_notifications.Local.Poller.{poll_any}
use wan_router_notifications.Local.Monitor.{
  Phase, ready, polling, sending, sleeping, backing_off, Monitor, Event, begun, polled, answered,
  woken, syslog, beat, send_next, process_states, on_answered, on_polled, on_syslog_event, on_beat,
  step_in, step, run,
}

send_next-engine :
    (interval : ℤ) (all_states : Dict WanState) (alerts : List AlertEvent) (states : List WanState)
    (m next : Monitor)
    → IsConsistent m.engine
    → IsConsistent next.engine
    → IsConsistent (send_next interval all_states alerts states m next).engine
unfolding send_next
send_next-engine interval all_states [] states m next h k = k
send_next-engine interval all_states (alert ∷ rest) states m next h k = h

process_states-engine :
    (clock : ℕ → Instant) (interval : ℤ) (all_states : Dict WanState) (states : List WanState)
    (m : Monitor)
    → IsConsistent m.engine
    → IsConsistent (process_states clock interval all_states states m).engine
unfolding process_states
process_states-engine clock interval all_states [] m h = h
process_states-engine clock interval all_states (state ∷ states) m h =
    let (engine', alerts) =
      process_wan_state (clock (length states)) m.engine state (some all_states) in
    let m' = record m { engine = engine' } in
    let h' =
      process_wan_state-IsConsistent (clock (length states)) m.engine state (some all_states) h in
    send_next-engine interval all_states alerts states m'
      (process_states clock interval all_states states m') h'
      (process_states-engine clock interval all_states states m' h')

on_answered-engine :
    (clock : ℕ → Instant) (interval : ℤ) (all_states : Dict WanState) (rest : List AlertEvent)
    (states : List WanState) (r : Result _) (m : Monitor)
    → IsConsistent m.engine
    → IsConsistent (on_answered clock interval all_states rest states r m).engine
unfolding on_answered
on_answered-engine clock interval all_states rest states raised m h = h
on_answered-engine clock interval all_states rest states (returned ok) m h =
    send_next-engine interval all_states rest states m
      (process_states clock interval all_states states m) h
      (process_states-engine clock interval all_states states m h)

step_in-engine :
    (p : Phase) (e : Event) (m : Monitor)
    → IsConsistent m.engine
    → IsConsistent (step_in p e m).engine
unfolding step_in on_syslog_event on_beat on_polled
step_in-engine (polling interval) (polled now route links clock) m h =
    let (poller', states) = poll_any now route links m.poller in
    process_states-engine clock interval states (Dict.values states) (record m { poller = poller' })
      h
step_in-engine (sending interval all_states alert rest states) (answered bot clock) m h =
    on_answered-engine clock interval all_states rest states (send_alert m.telegram bot alert) m h
step_in-engine ready begun m h = h
step_in-engine (sleeping interval) woken m h = h
step_in-engine (backing_off d) woken m h = h
step_in-engine p (syslog now event) m h = h
step_in-engine p (beat now post) m h = h
step_in-engine _ _ m h = h

-- Under any sequence of events, with sends that fail or raise in the middle of an iteration, the
-- monitor's alert engine stays consistent; so what is proved of a consistent engine holds at every
-- poll.
pub run-engine :
    (es : List Event) (m : Monitor) → IsConsistent m.engine → IsConsistent (run es m).engine
unfolding run step
run-engine [] m h = h
run-engine (e ∷ es) m h = run-engine es (step_in m.phase e m) (step_in-engine m.phase e m h)
