-- ===== src/Local/Monitor/Updates.antt =====
-- The updates of the alert engine that a step of the poll loop of local/main.py makes.
use mathlib.Core.Path.{subst}
use mathlib.Core.List.{append-nil}
use wan_router_notifications.Common.{
  ℕ, ◌≡◌, ◌≢◌, refl, sym, ap, ◌∙◌, Bool, List, [], ◌∷◌, ◌++◌, some, arith, length,
}
use wan_router_notifications.Common.Int.{ℤ}
use wan_router_notifications.Common.Result.{Result, returned, raised}
use wan_router_notifications.Common.Dict
use wan_router_notifications.Common.Dict.{Dict}
use wan_router_notifications.Shared.Clock.{Instant}
use wan_router_notifications.Shared.Models.{WanState, AlertEvent}
use wan_router_notifications.Shared.Telegram.{send_alert-ne-raised, send_alert}
use wan_router_notifications.Local.AlertEngine.{AlertEngine, process_wan_state, change_alerts}
use wan_router_notifications.Local.AlertEngine.Edges.{Update, run as run_engine}
use wan_router_notifications.Local.Poller.{poll_any}
use wan_router_notifications.Local.Monitor.{
  Phase, ready, polling, sending, sleeping, backing_off, Monitor, Event, begun, polled, answered,
  woken, syslog, beat, send_next, process_states, on_answered, on_polled, on_syslog_event, on_beat,
  step_in,
}
use wan_router_notifications.Local.Monitor.Trace.{
  pending, unseen, sent_at, found_at, NoneRaise, observed,
}

-- A state makes one alert at most.
abbrev AtMostOne : List AlertEvent → Type 0
AtMostOne [] = Unit {0}
AtMostOne (a ∷ as') = as' ≡ []

abbrev pub SendsOne : Phase → Type 0
SendsOne (sending interval all_states alert rest states) = rest ≡ []
SendsOne _ = Unit {0}

process_wan_state-AtMostOne :
    (now : Instant) (e : AlertEngine) (s : WanState) (all_states : _)
    → AtMostOne (process_wan_state now e s all_states).1
unfolding process_wan_state change_alerts
process_wan_state-AtMostOne now e s all_states = ground arith

-- The engine of `m'` and its phase come of some updates, whose states are `states` up to the unseen.
abbrev Explains : AlertEngine → List WanState → Monitor → List Update → Type 0
Explains e states m' us =
    (m'.engine ≡ (run_engine e us).0)
    × (pending m'.phase ≡ (run_engine e us).1)
    × (observed us ++ unseen m'.phase ≡ states)
    × SendsOne m'.phase

module _ (clock : ℕ → Instant) (interval : ℤ) (all_states : Dict WanState) where
  next_update : WanState → List WanState → Update
  next_update state states = record {
    now = clock (length states);
    state = state;
    all_states = some all_states;
  }

  process_states-Explains :
      (states : List WanState) (m : Monitor)
      → (us : List Update) × Explains m.engine states
          (process_states clock interval all_states states m)
          us
  unfolding process_states run_engine next_update
  process_states-Explains [] m = ([], (refl, refl, refl, tt))
  process_states-Explains (state ∷ states) m =
      let (engine', alerts) =
        process_wan_state (clock (length states)) m.engine state (some all_states) in
      let m' = record m { engine = engine' } in
      let (us, later) = process_states-Explains states m' in
      by_alerts engine' alerts (process_states clock interval all_states states m') us refl
        (process_wan_state-AtMostOne (clock (length states)) m.engine state (some all_states)) later
    where
      by_alerts :
          (engine' : AlertEngine) (alerts : List AlertEvent) (next : Monitor) (us : List Update)
          → process_wan_state (clock (length states)) m.engine state (some all_states)
            ≡ (engine', alerts)
          → AtMostOne alerts
          → Explains engine' states next us
          → (vs : List Update) × Explains m.engine
              (state ∷ states)
              (send_next interval all_states alerts states (record m { engine = engine' }) next)
              vs
      by_alerts engine' [] next us e one (h1, h2, h3, h4) = (
        next_update state states ∷ us,
        (rw (e, run_engine) h1, rw (e, run_engine) h2, ap (λ l. state ∷ l) h3, h4),
      )
      by_alerts engine' (a ∷ as') next us e one h = (
        next_update state states ∷ [],
        (rw (e, run_engine) refl, rw (e, run_engine) (sym (append-nil (a ∷ as'))), refl, one),
      )

-- What a step does: its updates, what it sends and finds, and what is pending and unseen after it.
abbrev pub StepExplains : Phase → Event → Monitor → Monitor → List Update → Type 0
StepExplains p e m m' us =
    (m'.engine ≡ (run_engine m.engine us).0)
    × (sent_at p e ++ pending m'.phase ≡ pending p ++ (run_engine m.engine us).1)
    × (observed us ++ unseen m'.phase ≡ unseen p ++ found_at p e m)
    × SendsOne m'.phase

on_answered-Explains :
    (clock : ℕ → Instant) (interval : ℤ) (all_states : Dict WanState) (rest : List AlertEvent)
    (states : List WanState) (r : Result Bool) (m : Monitor)
    → r ≢ raised
    → rest ≡ []
    → (us : List Update) × Explains m.engine states
        (on_answered clock interval all_states rest states r m)
        us
unfolding on_answered send_next
on_answered-Explains clock interval all_states rest states raised m h one = absurd (h refl)
on_answered-Explains clock interval all_states [] states (returned ok) m h one =
    process_states-Explains clock interval all_states states m
on_answered-Explains clock interval all_states (a ∷ rest) states (returned ok) m h one = cc

-- an event that makes no update
quiet :
    (p : Phase) (e : Event) (m m' : Monitor)
    → m'.phase ≡ p
    → m'.engine ≡ m.engine
    → sent_at p e ≡ []
    → found_at p e m ≡ []
    → SendsOne p
    → (us : List Update) × StepExplains p e m m' us
unfolding run_engine
quiet p e m m' hp he hs hf one = (
  [],
  (
    he,
    rw (hs, hp) (sym (append-nil (pending p))),
    rw (hf, hp) (sym (append-nil (unseen p))),
    subst SendsOne (sym hp) one,
  ),
)

pub step_in-Explains :
    (p : Phase) (e : Event) (m : Monitor)
    → m.phase ≡ p
    → NoneRaise (e ∷ [])
    → SendsOne p
    → (us : List Update) × StepExplains p e m (step_in p e m) us
unfolding step_in on_syslog_event on_beat on_polled run_engine
step_in-Explains (polling interval) (polled now route links clock) m q n one =
    let (poller', states) = poll_any now route links m.poller in
    process_states-Explains clock interval states (Dict.values states)
      (record m { poller = poller' })
step_in-Explains (sending interval all_states alert rest states) (answered bot clock) m q n one =
    let r = send_alert m.telegram bot alert in
    let (us, (h1, h2, h3, h4)) =
      on_answered-Explains clock interval all_states rest states r m
        (send_alert-ne-raised m.telegram bot alert n.0) one in
    (
      us,
      (
        h1,
        ap (λ l. alert ∷ l) (h2 ∙ ap (λ l. l ++ (run_engine m.engine us).1) (sym one)),
        h3 ∙ sym (append-nil states),
        h4,
      ),
    )
step_in-Explains p (syslog now event) m q n one =
    quiet p (syslog now event) m (on_syslog_event now event m) q refl refl refl one
step_in-Explains p (beat now post) m q n one =
    quiet p (beat now post) m (on_beat now post m) q refl refl refl one
step_in-Explains ready begun m q n one = ([], (refl, refl, refl, tt))
step_in-Explains (sleeping interval) woken m q n one = ([], (refl, refl, refl, tt))
step_in-Explains (backing_off d) woken m q n one = ([], (refl, refl, refl, tt))
step_in-Explains p e m q n one = quiet p e m m q refl refl refl one
