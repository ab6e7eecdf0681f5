-- ===== src/Local/Monitor/Progress.antt =====
-- How far an iteration of the poll loop is from its end.
use wan_router_notifications.Common.{
  ℕ, ◌+◌, ◌≤◌, ◌≡◌, refl, Bool, List, [], ◌∷◌, Option, some, arith, length, inl, inr, Bool-cases,
}
use wan_router_notifications.Common.Int.{ℤ}
use wan_router_notifications.Common.Result.{Result, returned, raised}
use wan_router_notifications.Common.Text.{Text}
use wan_router_notifications.Common.Dict
use wan_router_notifications.Common.Dict.{Dict}
use wan_router_notifications.Shared.Clock.{Instant}
use wan_router_notifications.Shared.Models.{
  InterfaceStatus, up, down, unknown, WanState, AlertEvent, SyslogEvent,
}
use wan_router_notifications.Shared.Telegram.{send_alert}
use wan_router_notifications.Local.AlertEngine.{
  AlertEngine, alert_state_of, should_alert, change_alerts, process_wan_state,
}
use wan_router_notifications.Local.AlertEngine.Messages.{Router}
use wan_router_notifications.Local.SnmpPoller.Queries.{Answer, LinkAnswer}
use wan_router_notifications.Local.SnmpPoller.{
  MockSnmpPoller, wan_states, mock_states, poll, mock_poll,
}
use wan_router_notifications.Local.Poller.{Poller, snmp, mock, gateways_of, poll_any}
use wan_router_notifications.Local.Monitor.{
  Phase, ready, polling, sending, sleeping, backing_off, Monitor, Event, begun, polled, answered,
  woken, syslog, beat, send_next, process_states, on_answered, on_polled, on_syslog_event, on_beat,
  step_in, step,
}

-- How many turns the loop has left before it ends at its head, at most, for `n` gateways.
abbrev pub turns_left : ℕ → Phase → ℕ
turns_left n ready = 1
turns_left n (polling d) = n + 3
turns_left n (sending d all_states alert rest states) = length rest + length states + 3
turns_left n (sleeping d) = 2
turns_left n (backing_off d) = 2

-- 1 where the loop waits for the event, within its iteration
abbrev pub awaited : Phase → Event → ℕ
awaited phase (syslog now event) = 0
awaited phase (beat now post) = 0
awaited (polling d) (polled now route links clock) = 1
awaited (sending d all_states alert rest states) (answered bot clock) = 1
awaited (sleeping d) woken = 1
awaited (backing_off d) woken = 1
awaited _ _ = 0

change_alerts-le :
    (router : Router) (now : Instant) (previous : Option WanState) (state : WanState)
    (all_states : Option (Dict WanState))
    → length (change_alerts router now previous state all_states) ≤ 1
unfolding change_alerts
change_alerts-le router now previous state all_states = by_status state.status refl
  where
    by_status :
        (s : InterfaceStatus)
        → state.status ≡ s
        → length (change_alerts router now previous state all_states) ≤ 1
    by_status up e = rw (e, change_alerts) (omega arith)
    by_status down e = rw (e, change_alerts) (omega arith)
    by_status unknown e = rw (e, change_alerts) (omega arith)

-- a state raises at most one alert
process_wan_state-le :
    (now : Instant) (e : AlertEngine) (state : WanState) (all_states : Option (Dict WanState))
    → length (process_wan_state now e state all_states).1 ≤ 1
unfolding process_wan_state
process_wan_state-le now e state all_states =
    elim (Bool-cases (should_alert (alert_state_of e state.interface) state.status)) [
      | inl changed ↦
          rw changed (
            change_alerts-le e.router now (Dict.get e.previous_wan state.interface) state
              all_states)
      | inr same ↦ rw same (omega arith)
    ]

module _ (n : ℕ) where
  send_next-left :
      (interval : ℤ) (all_states : Dict WanState) (alerts : List AlertEvent)
      (states : List WanState) (m next : Monitor)
      → turns_left n next.phase ≤ length states + 2
      → turns_left n (send_next interval all_states alerts states m next).phase
        ≤ length alerts + length states + 2
  unfolding send_next
  send_next-left interval all_states [] states m next h = omega arith
  send_next-left interval all_states (alert ∷ rest) states m next h = omega arith

  process_states-left :
      (clock : ℕ → Instant) (interval : ℤ) (all_states : Dict WanState) (states : List WanState)
      (m : Monitor)
      → turns_left n (process_states clock interval all_states states m).phase ≤ length states + 2
  unfolding process_states
  process_states-left clock interval all_states [] m = omega arith
  process_states-left clock interval all_states (state ∷ states) m =
      let now = clock (length states) in
      let (engine', alerts) = process_wan_state now m.engine state (some all_states) in
      let m' = record m { engine = engine' } in
      let next = process_states clock interval all_states states m' in
      omega (
        arith,
        process_wan_state-le now m.engine state (some all_states),
        send_next-left interval all_states alerts states m' next
            (process_states-left clock interval all_states states m'),
      )

  on_answered-left :
      (clock : ℕ → Instant) (interval : ℤ) (all_states : Dict WanState) (rest : List AlertEvent)
      (states : List WanState) (r : Result Bool) (m : Monitor)
      → turns_left n (on_answered clock interval all_states rest states r m).phase
        ≤ length rest + length states + 2
  unfolding on_answered
  on_answered-left clock interval all_states rest states raised m = omega arith
  on_answered-left clock interval all_states rest states (returned ok) m =
      send_next-left interval all_states rest states m
        (process_states clock interval all_states states m)
        (process_states-left clock interval all_states states m)

length-wan_states :
    (now : Instant) (last : Dict WanState) (active : Option Text) (link : Text → Option Bool)
    (d : Dict Text)
    → length (Dict.values (wan_states now last active link d)) ≡ length d
unfolding wan_states
length-wan_states now last active link [] = refl
length-wan_states now last active link ((name, gw) ∷ d) =
    omega (arith, length-wan_states now last active link d)

length-mock_states :
    (now : Instant) (m : MockSnmpPoller) (d : Dict Text)
    → length (Dict.values (mock_states now m d)) ≡ length d
unfolding mock_states
length-mock_states now m [] = refl
length-mock_states now m ((name, gw) ∷ d) = omega (arith, length-mock_states now m d)

length-poll_any :
    (now : Instant) (route : Answer) (links : Text → LinkAnswer) (p : Poller)
    → length (Dict.values (poll_any now route links p).1) ≡ length (gateways_of p)
unfolding poll_any poll mock_poll
length-poll_any now route links (snmp p) = length-wan_states now p.last_states _ _ p.wan_gateways
length-poll_any now route links (mock m) = length-mock_states now m m.wan_gateways

-- the number of gateways, which bounds the alerts of an iteration
abbrev pub width : Monitor → ℕ
width m = length (gateways_of m.poller)

abbrev pub NotBegun : Event → Type 0
NotBegun begun = ⊥
NotBegun _ = Unit {0}

step_in-left :
    (p : Phase) (e : Event) (m : Monitor)
    → m.phase ≡ p
    → NotBegun e
    → turns_left (width (step_in p e m)) (step_in p e m).phase + awaited p e
      ≤ turns_left (width m) p
unfolding step_in on_polled on_syslog_event on_beat
step_in-left p (syslog now event) m q n = rw q (omega arith)
step_in-left p (beat now post) m q n = rw q (omega arith)
step_in-left (polling d) (polled now route links clock) m q n =
    let (poller', states) = poll_any now route links m.poller in
    let m' = record m { poller = poller' } in
    let next = process_states clock d states (Dict.values states) m' in
    omega (
      arith,
      length-poll_any now route links m.poller,
      process_states-left (width next) clock d states (Dict.values states) m',
    )
step_in-left (sending d all_states alert rest states) (answered bot clock) m q n =
    let r = send_alert m.telegram bot alert in
    let next = on_answered clock d all_states rest states r m in
    omega (arith, on_answered-left (width next) clock d all_states rest states r m)
step_in-left (sleeping d) woken m q n = omega arith
step_in-left (backing_off d) woken m q n = omega arith
step_in-left p begun m q n = elim n [ ]
step_in-left _ _ m q n = rw q (omega arith)

-- A turn that the loop waits for brings it nearer to the head, and no other event takes it back.
pub step-left :
    (e : Event) (m : Monitor)
    → NotBegun e
    → turns_left (width (step e m)) (step e m).phase + awaited m.phase e
      ≤ turns_left (width m) m.phase
unfolding step
step-left e m n = step_in-left m.phase e m refl n

-- a syslog event between two turns
pub step-syslog :
    (t : Instant) (event : SyslogEvent) (m : Monitor)
    → step (syslog t event) m ≡ on_syslog_event t event m
unfolding step step_in
step-syslog t event m = refl
