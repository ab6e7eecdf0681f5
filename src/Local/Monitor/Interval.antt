-- ===== src/Local/Monitor/Interval.antt =====
-- The interval that the poll loop sleeps for is chosen before the poll.
use mathlib.Core.Path.{subst}
use wan_router_notifications.Common.{
  ℕ, ◌≡◌, ◌⊎◌, inl, inr, Bool-cases, arith, refl, sym, ap, List, [], ◌∷◌, some, length,
}
use wan_router_notifications.Common.Int.{ℤ, pos}
use wan_router_notifications.Common.Result.{Result, returned, raised}
use wan_router_notifications.Common.Dict
use wan_router_notifications.Common.Dict.{Dict}
use wan_router_notifications.Shared.Clock.{Instant}
use wan_router_notifications.Shared.Models.{WanState, AlertEvent}
use wan_router_notifications.Shared.Telegram.{send_alert}
use wan_router_notifications.Local.AlertEngine.{
  AlertState, process_wan_state, should_use_alert_interval,
}
use wan_router_notifications.Local.AlertEngine.Stability.{AllSettled, should_use_alert_interval_lem}
use wan_router_notifications.Local.Poller.{poll_any}
use wan_router_notifications.Local.Monitor.{
  Phase, ready, polling, sending, sleeping, backing_off, Monitor, Event, begun, polled, answered,
  woken, syslog, beat, poll_interval, send_next, process_states, on_answered, on_polled,
  on_syslog_event, on_beat, step_in, step, run,
}

-- An iteration with the interval `d` is under way, or sleeps after its end or its exception.
abbrev pub Keeps : ℤ → Phase → Type 0
Keeps d ready = ⊥
Keeps d (polling i) = i ≡ d
Keeps d (sending i all_states alert rest states) = i ≡ d
Keeps d (sleeping i) = i ≡ d
Keeps d (backing_off i) = i ≡ pos 10

-- the sleep has not ended
abbrev pub NotWoken : List Event → Type 0
NotWoken [] = Unit {0}
NotWoken (woken ∷ es) = ⊥
NotWoken (_ ∷ es) = NotWoken es

module _ (d : ℤ) where
  send_next-Keeps :
      (interval : ℤ) (all_states : Dict WanState) (alerts : List AlertEvent)
      (states : List WanState) (m next : Monitor)
      → interval ≡ d
      → Keeps d next.phase
      → Keeps d (send_next interval all_states alerts states m next).phase
  unfolding send_next
  send_next-Keeps interval all_states [] states m next e h = h
  send_next-Keeps interval all_states (alert ∷ rest) states m next e h = e

  process_states-Keeps :
      (clock : ℕ → Instant) (interval : ℤ) (all_states : Dict WanState) (states : List WanState)
      (m : Monitor)
      → interval ≡ d
      → Keeps d (process_states clock interval all_states states m).phase
  unfolding process_states
  process_states-Keeps clock interval all_states [] m e = e
  process_states-Keeps clock interval all_states (state ∷ states) m e =
      let (engine', alerts) =
        process_wan_state (clock (length states)) m.engine state (some all_states) in
      let m' = record m { engine = engine' } in
      send_next-Keeps interval all_states alerts states m'
        (process_states clock interval all_states states m') e
        (process_states-Keeps clock interval all_states states m' e)

  on_answered-Keeps :
      (clock : ℕ → Instant) (interval : ℤ) (all_states : Dict WanState) (rest : List AlertEvent)
      (states : List WanState) (r : Result _) (m : Monitor)
      → interval ≡ d
      → Keeps d (on_answered clock interval all_states rest states r m).phase
  unfolding on_answered
  on_answered-Keeps clock interval all_states rest states raised m e = refl
  on_answered-Keeps clock interval all_states rest states (returned ok) m e =
      send_next-Keeps interval all_states rest states m
        (process_states clock interval all_states states m) e
        (process_states-Keeps clock interval all_states states m e)

  step_in-Keeps :
      (p : Phase) (e : Event) (m : Monitor)
      → m.phase ≡ p
      → NotWoken (e ∷ [])
      → Keeps d p
      → Keeps d (step_in p e m).phase
  unfolding step_in on_syslog_event on_beat on_polled
  step_in-Keeps p (syslog now event) m q n h = rw q h
  step_in-Keeps p (beat now post) m q n h = rw q h
  step_in-Keeps p woken m q n h = elim n [ ]
  step_in-Keeps (polling interval) (polled now route links clock) m q n h =
      let (poller', states) = poll_any now route links m.poller in
      process_states-Keeps clock interval states (Dict.values states)
        (record m { poller = poller' }) h
  step_in-Keeps (sending interval all_states alert rest states) (answered bot clock) m q n h =
      on_answered-Keeps clock interval all_states rest states (send_alert m.telegram bot alert) m h
  step_in-Keeps ready begun m q n h = elim h [ ]
  step_in-Keeps _ _ m q n h = rw q h

  NotWoken-head :
      (e : Event) (es : List Event) → NotWoken (e ∷ es) → NotWoken (e ∷ []) × NotWoken es
  NotWoken-head woken es h = elim h [ ]
  NotWoken-head begun es h = (tt, h)
  NotWoken-head (polled now route links clock) es h = (tt, h)
  NotWoken-head (answered bot clock) es h = (tt, h)
  NotWoken-head (syslog now event) es h = (tt, h)
  NotWoken-head (beat now post) es h = (tt, h)

  run-Keeps :
      (es : List Event) (m : Monitor) → NotWoken es → Keeps d m.phase → Keeps d (run es m).phase
  unfolding run step
  run-Keeps [] m n h = h
  run-Keeps (e ∷ es) m n h =
      let (first, rest) = NotWoken-head e es n in
      run-Keeps es (step_in m.phase e m) rest (step_in-Keeps m.phase e m refl first h)

pub interval_chosen_before_poll :
    (es : List Event) (m : Monitor)
    → m.phase ≡ ready
    → NotWoken es
    → Keeps (poll_interval m) (run (begun ∷ es) m).phase
unfolding run step step_in
interval_chosen_before_poll es m r n =
    let begins : step_in m.phase begun m ≡ record m { phase = polling (poll_interval m) } =
      ap (λ p. step_in p begun m) r in
    subst (λ t. Keeps (poll_interval m) (run es t).phase) (sym begins)
      (run-Keeps (poll_interval m) es (record m { phase = polling (poll_interval m) }) n refl)

-- The interval `d` is the monitor's for an engine with these alert states.
abbrev pub IsFor : Monitor → List AlertState → ℤ → Type 0
IsFor m states d =
    (AllSettled states × (d ≡ m.normal_interval)) ⊎ ((¬ AllSettled states) × (d ≡ m.alert_interval))

poll_interval-IsFor : (m : Monitor) → IsFor m (Dict.values m.engine.wan_states) (poll_interval m)
unfolding poll_interval
poll_interval-IsFor m =
    let (there, back) = should_use_alert_interval_lem m.engine in
    elim (Bool-cases (should_use_alert_interval m.engine)) [
      | inl uses ↦ inr ((λ h. ground (arith, uses, back h)), rw uses refl)
      | inr normal ↦ inl (there normal, rw normal refl)
    ]

-- From the top of an iteration to the end of the sleep after it, whatever the poll finds and whatever
-- happens in between: one interval is kept, and it is the monitor's normal interval where before the
-- poll every tracked interface was not down and had been stable for at least 5 polls, and the alert
-- interval where one was down or less stable; the only other sleep is the 10 seconds of the handler.
pub interval_by_stability :
    (es : List Event) (m : Monitor)
    → m.phase ≡ ready
    → NotWoken es
    → (d : ℤ) × (IsFor m (Dict.values m.engine.wan_states) d × Keeps d (run (begun ∷ es) m).phase)
interval_by_stability es m r n =
    (poll_interval m, (poll_interval-IsFor m, interval_chosen_before_poll es m r n))
