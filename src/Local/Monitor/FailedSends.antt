-- ===== src/Local/Monitor/FailedSends.antt =====
-- What becomes of a send that fails in the poll loop of local/main.py.
use wan_router_notifications.Common.{ℕ, ◌≡◌, ◌≢◌, refl, ap, ◌∙◌, Bool, List, [], ◌∷◌, map}
use wan_router_notifications.Common.Int.{ℤ}
use wan_router_notifications.Common.Result.{Result, returned, raised}
use wan_router_notifications.Common.Text.{Text}
use wan_router_notifications.Common.Dict.{Dict}
use wan_router_notifications.Shared.Clock.{Instant}
use wan_router_notifications.Shared.Models.{WanState, AlertEvent}
use wan_router_notifications.Shared.Telegram.{send_alert-ne-raised, Bot, other_error, send_alert}
use wan_router_notifications.Local.Monitor.{
  Phase, sending, Monitor, Event, begun, polled, answered, woken, syslog, beat, on_answered,
  step_in, step, run,
}
use wan_router_notifications.Local.Monitor.Trace.{NoneRaise, NoneRaise-head}

-- the event with another bot
abbrev pub with_bot : Bot → Event → Event
with_bot bot (answered other clock) = answered bot clock
with_bot bot e = e

on_answered-same :
    (clock : ℕ → Instant) (interval : ℤ) (all_states : Dict WanState) (rest : List AlertEvent)
    (states : List WanState) (r q : Result Bool) (m : Monitor)
    → r ≢ raised
    → q ≢ raised
    → on_answered clock interval all_states rest states r m
      ≡ on_answered clock interval all_states rest states q m
unfolding on_answered
on_answered-same clock interval all_states rest states (returned a) (returned b) m h k = refl
on_answered-same clock interval all_states rest states raised q m h k = absurd (h refl)
on_answered-same clock interval all_states rest states (returned a) raised m h k = absurd (k refl)

module _ (bot : Bot) (calm : (chat text : Text) → bot chat text ≢ other_error) where
  step_in-with_bot :
      (p : Phase) (e : Event) (m : Monitor)
      → NoneRaise (e ∷ [])
      → step_in p (with_bot bot e) m ≡ step_in p e m
  unfolding step_in
  step_in-with_bot (sending interval all_states alert rest states) (answered other clock) m n =
      on_answered-same clock interval all_states rest states (send_alert m.telegram bot alert)
        (send_alert m.telegram other alert) m (send_alert-ne-raised m.telegram bot alert calm)
        (send_alert-ne-raised m.telegram other alert n.0)
  step_in-with_bot p (syslog now event) m n = refl
  step_in-with_bot p (beat now post) m n = refl
  step_in-with_bot p begun m n = refl
  step_in-with_bot p woken m n = refl
  step_in-with_bot p (polled now route links clock) m n = refl
  step_in-with_bot _ _ m n = refl

-- Where no send raises anything but a `TelegramError`, with the bots of a run and with another one:
-- the run with that bot in the place of all of them brings the monitor to the same state. So a send
-- that fails leaves the monitor as one that is delivered does.
pub failed_sends_unseen :
    (bot : Bot) (es : List Event) (m : Monitor)
    → ((chat text : Text) → bot chat text ≢ other_error)
    → NoneRaise es
    → run (map (with_bot bot) es) m ≡ run es m
unfolding run step
failed_sends_unseen bot [] m calm n = refl
failed_sends_unseen bot (e ∷ es) m calm n =
    let (first, later) = NoneRaise-head e es n in
    ap (λ q. run (map (with_bot bot) es) q) (step_in-with_bot bot calm m.phase e m first)
    ∙ failed_sends_unseen bot es (step_in m.phase e m) calm later
