-- ===== src/Remote/Sentinel/FailedSends.antt =====
-- What becomes of a send that fails in the monitor loop of remote/main.py.
use wan_router_notifications.Common.{◌≡◌, ◌≢◌, arith, refl, sym, ap, ◌∙◌, Bool, List, [], ◌∷◌, map}
use wan_router_notifications.Common.Result.{Result, returned, raised}
use wan_router_notifications.Common.Text.{Text}
use wan_router_notifications.Shared.Telegram.{Bot, other_error, send_alert, send_alert-ne-raised}
use wan_router_notifications.Remote.Sentinel.{
  Notice, Phase, sleeping, probing, sending, Sentinel, Event, heartbeat, woken, probed, answered,
  on_woken, on_probed, on_answered, step_in, step, run,
}

-- No send raises anything but a `TelegramError`.
abbrev pub NoneRaise : List Event → Type 0
NoneRaise [] = Unit {0}
NoneRaise (answered bot ∷ es) = ((chat text : Text) → bot chat text ≢ other_error) × NoneRaise es
NoneRaise (_ ∷ es) = NoneRaise es

NoneRaise-head :
    (e : Event) (es : List Event) → NoneRaise (e ∷ es) → NoneRaise (e ∷ []) × NoneRaise es
NoneRaise-head (answered bot) es (h, t) = ((h, tt), t)
NoneRaise-head (heartbeat now payload) es h = (tt, h)
NoneRaise-head (woken check recheck now) es h = (tt, h)
NoneRaise-head (probed result fallback now) es h = (tt, h)

-- the event with another bot
abbrev pub with_bot : Bot → Event → Event
with_bot bot (answered other) = answered bot
with_bot bot e = e

-- the state of the program, without the record of what was sent
abbrev pub unrecorded : Sentinel → Sentinel
unrecorded s = record s { sent = [] }

-- What an answer changes but for the record is the same whatever was returned.
on_answered-unrecorded :
    (n : Notice) (r q : Result Bool) (s : Sentinel)
    → r ≢ raised
    → q ≢ raised
    → unrecorded (on_answered n r s) ≡ unrecorded (on_answered n q s)
unfolding on_answered
on_answered-unrecorded n (returned a) (returned b) s h k = refl
on_answered-unrecorded n raised q s h k = absurd (h refl)
on_answered-unrecorded n (returned a) raised s h k = absurd (k refl)

module _ (bot : Bot) (calm : (chat text : Text) → bot chat text ≢ other_error) where
  step_in-unrecorded :
      (p : Phase) (e : Event) (s : Sentinel)
      → NoneRaise (e ∷ [])
      → unrecorded (step_in p (with_bot bot e) s) ≡ unrecorded (step_in p e s)
  unfolding step_in
  step_in-unrecorded (sending notice alert) (answered other) s n =
      on_answered-unrecorded notice (send_alert s.telegram bot alert)
        (send_alert s.telegram other alert) s (send_alert-ne-raised s.telegram bot alert calm)
        (send_alert-ne-raised s.telegram other alert n.0)
  step_in-unrecorded sleeping (answered other) s n = refl
  step_in-unrecorded probing (answered other) s n = refl
  step_in-unrecorded p (heartbeat now payload) s n = refl
  step_in-unrecorded p (woken check recheck now) s n = refl
  step_in-unrecorded p (probed result fallback now) s n = refl

-- What an answer changes but for the record does not depend on the record.
on_answered-own :
    (n : Notice) (r : Result Bool) (s : Sentinel)
    → unrecorded (on_answered n r s) ≡ unrecorded (on_answered n r (unrecorded s))
unfolding on_answered
on_answered-own n (returned a) s = refl
on_answered-own n raised s = refl

step_in-own :
    (p : Phase) (e : Event) (s : Sentinel)
    → unrecorded (step_in p e s) ≡ unrecorded (step_in p e (unrecorded s))
unfolding step_in on_woken on_probed
step_in-own p (heartbeat now payload) s = refl
step_in-own sleeping (woken check recheck now) s = ground arith
step_in-own probing (probed result fallback now) s = refl
step_in-own (sending notice alert) (answered bot) s =
    on_answered-own notice (send_alert s.telegram bot alert) s
step_in-own sleeping (answered bot) s = refl
step_in-own probing (answered bot) s = refl
step_in-own _ _ s = refl

run-own :
    (es : List Event) (s : Sentinel) → unrecorded (run es s) ≡ unrecorded (run es (unrecorded s))
unfolding run step
run-own [] s = refl
run-own (e ∷ es) s =
    run-own es (step_in s.phase e s)
    ∙ (ap (λ t. unrecorded (run es t)) (step_in-own s.phase e s)
        ∙ sym (run-own es (step_in s.phase e (unrecorded s))))

-- Where no send raises anything but a `TelegramError`, with the bots of a run and with another one:
-- the run with that bot in the place of all of them brings the sentinel to the same state, but for the
-- record of what the sends returned. So an alert that Telegram does not take counts as sent.
pub undelivered_unseen :
    (bot : Bot) (es : List Event) (s : Sentinel)
    → ((chat text : Text) → bot chat text ≢ other_error)
    → NoneRaise es
    → unrecorded (run (map (with_bot bot) es) s) ≡ unrecorded (run es s)
unfolding run step
undelivered_unseen bot [] s calm n = refl
undelivered_unseen bot (e ∷ es) s calm n =
    let (first, later) = NoneRaise-head e es n in
    let next = step_in s.phase (with_bot bot e) s in
    undelivered_unseen bot es next calm later
    ∙ (run-own es next
        ∙ (ap (λ t. unrecorded (run es t)) (step_in-unrecorded bot calm s.phase e s first)
            ∙ sym (run-own es (step_in s.phase e s))))
