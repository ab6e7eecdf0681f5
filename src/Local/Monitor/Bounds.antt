-- ===== src/Local/Monitor/Bounds.antt =====
-- How many events the monitor keeps and sends on.
use Prim.Native.Nat.{min}
use mathlib.Core.Path.{subst}
use wan_router_notifications.Common.{
  ℕ, ◌≤◌, ◌≡◌, refl, sym, ◌∙◌, ◌⊎◌, inl, inr, List, [], ◌∷◌, ◌++◌, some, arith, length,
  length-last_items, last_items_suffix,
}
use wan_router_notifications.Common.Int.{ℤ}
use wan_router_notifications.Common.Result.{Result, returned, raised}
use wan_router_notifications.Common.Dict
use wan_router_notifications.Common.Dict.{Dict}
use wan_router_notifications.Shared.Clock.{Instant}
use wan_router_notifications.Shared.Models.{WanState, AlertEvent, HeartbeatPayload}
use wan_router_notifications.Shared.Telegram.{send_alert}
use wan_router_notifications.Local.AlertEngine.{process_wan_state, get_current_wan_states}
use wan_router_notifications.Local.Poller.{poll_any}
use wan_router_notifications.Local.Heartbeat.{PostOutcome, send}
use wan_router_notifications.Local.Monitor.{
  Phase, ready, polling, sending, sleeping, backing_off, Monitor, Event, begun, polled, answered,
  woken, syslog, beat, send_next, process_states, on_answered, on_polled, on_syslog_event, on_beat,
  step_in, step,
}

-- At the sleep after an iteration at most 100 events are kept.
abbrev pub IsTrimmed : Phase → List AlertEvent → Type 0
IsTrimmed (sleeping d) events = length events ≤ 100
IsTrimmed _ events = Unit {0}

send_next-IsTrimmed :
    (interval : ℤ) (all_states : Dict WanState) (alerts : List AlertEvent) (states : List WanState)
    (m next : Monitor)
    → IsTrimmed next.phase next.recent_events
    → (let n = send_next interval all_states alerts states m next in
        IsTrimmed n.phase n.recent_events)
unfolding send_next
send_next-IsTrimmed interval all_states [] states m next h = h
send_next-IsTrimmed interval all_states (alert ∷ rest) states m next h = tt

process_states-IsTrimmed :
    (clock : ℕ → Instant) (interval : ℤ) (all_states : Dict WanState) (states : List WanState)
    (m : Monitor)
    → (let n = process_states clock interval all_states states m in
        IsTrimmed n.phase n.recent_events)
unfolding process_states
process_states-IsTrimmed clock interval all_states [] m =
    omega (arith, length-last_items {0} 100 m.recent_events)
process_states-IsTrimmed clock interval all_states (state ∷ states) m =
    let (engine', alerts) =
      process_wan_state (clock (length states)) m.engine state (some all_states) in
    let m' = record m { engine = engine' } in
    send_next-IsTrimmed interval all_states alerts states m'
      (process_states clock interval all_states states m')
      (process_states-IsTrimmed clock interval all_states states m')

on_answered-IsTrimmed :
    (clock : ℕ → Instant) (interval : ℤ) (all_states : Dict WanState) (rest : List AlertEvent)
    (states : List WanState) (r : Result _) (m : Monitor)
    → (let n = on_answered clock interval all_states rest states r m in
        IsTrimmed n.phase n.recent_events)
unfolding on_answered
on_answered-IsTrimmed clock interval all_states rest states raised m = tt
on_answered-IsTrimmed clock interval all_states rest states (returned ok) m =
    send_next-IsTrimmed interval all_states rest states m
      (process_states clock interval all_states states m)
      (process_states-IsTrimmed clock interval all_states states m)

at_sleep :
    (m : Monitor) (d : ℤ)
    → IsTrimmed m.phase m.recent_events
    → m.phase ≡ sleeping d
    → length m.recent_events ≤ 100
at_sleep m d h e = subst (λ p. IsTrimmed p m.recent_events) e h

step_in-IsTrimmed :
    (p : Phase) (e : Event) (m : Monitor) (d : ℤ)
    → m.phase ≡ p
    → (step_in p e m).phase ≡ sleeping d
    → (p ≡ sleeping d) ⊎ (length (step_in p e m).recent_events ≤ 100)
unfolding step_in on_syslog_event on_beat
step_in-IsTrimmed p (syslog now event) m d q h = inl (sym q ∙ h)
step_in-IsTrimmed p (beat now post) m d q h = inl (sym q ∙ h)
step_in-IsTrimmed ready begun m d q h = cc
step_in-IsTrimmed (polling interval) (polled now route links clock) m d q h =
    let (poller', states) = poll_any now route links m.poller in
    inr (
      at_sleep (on_polled interval now route links clock m) d
        (unfold on_polled in
          process_states-IsTrimmed clock interval states (Dict.values states)
            (record m { poller = poller' }))
        h)
step_in-IsTrimmed (sending interval all_states alert rest states) (answered bot clock) m d q h =
    let r = send_alert m.telegram bot alert in
    inr (
      at_sleep (on_answered clock interval all_states rest states r m) d
        (on_answered-IsTrimmed clock interval all_states rest states r m) h)
step_in-IsTrimmed (sleeping interval) woken m d q h = cc
step_in-IsTrimmed (backing_off i) woken m d q h = cc
step_in-IsTrimmed _ _ m d q h = inl (sym q ∙ h)

-- A step that brings the poll loop to the sleep after an iteration leaves at most 100 recent events.
iteration_trims :
    (e : Event) (m : Monitor) (d : ℤ)
    → (step e m).phase ≡ sleeping d
    → (m.phase ≡ sleeping d) ⊎ (length (step e m).recent_events ≤ 100)
unfolding step
iteration_trims e m d h = step_in-IsTrimmed m.phase e m d refl h

-- A heartbeat posts one payload: the engine's last WAN states, and the last 10 recent events, or all
-- where there are fewer. Nothing else of the monitor changes.
pub beat_payload :
    (m : Monitor) (now : Instant) (post : HeartbeatPayload → PostOutcome)
    → (p : HeartbeatPayload) × (front : List AlertEvent) × (step (beat now post) m
        ≡ record m { posted = p ∷ m.posted })
      × (p.wan_states ≡ m.engine.previous_wan)
      × (front ++ p.recent_events ≡ m.recent_events)
      × (length p.recent_events ≡ min 10 (length m.recent_events))
unfolding step step_in on_beat send get_current_wan_states
beat_payload m now post =
    let (front, e) = last_items_suffix 10 m.recent_events in
    (_, front, refl, refl, e, length-last_items 10 m.recent_events)
