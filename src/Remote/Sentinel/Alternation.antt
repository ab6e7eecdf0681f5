-- ===== src/Remote/Sentinel/Alternation.antt =====
-- The alerts of the sentinel under any interleaving.
use mathlib.Core.Path.{subst}
use wan_router_notifications.Common.{
  ◌≡◌, refl, sym, ◌∙◌, not, ◌&&◌, inl, inr, Bool-cases, Bool, true, false, List, [], ◌∷◌, arith,
}
use wan_router_notifications.Common.Int.{ℤ}
use wan_router_notifications.Common.Result.{Result, returned, raised}
use wan_router_notifications.Shared.Clock.{Instant}
use wan_router_notifications.Shared.Models.{AlertEvent}
use wan_router_notifications.Shared.Telegram.{TelegramNotifier, send_alert}
use wan_router_notifications.Remote.HeartbeatStore.{should_alert_missing, is_missing}
use wan_router_notifications.Remote.Sentinel.{
  Notice, lost, recovered, Phase, sleeping, probing, sending, Sentinel, new_sentinel, Event,
  heartbeat, woken, probed, answered, is_lost, on_woken, on_probed, on_answered, step_in, step, run,
}

-- Whether the newest alert is a lost one.
abbrev pub newest_is_lost : List (Notice × Bool) → Bool
newest_is_lost [] = false
newest_is_lost ((n, delivered) ∷ sent) = is_lost n

-- Each recovered alert comes directly after a lost one.
abbrev pub RecoveredAfterLost : List (Notice × Bool) → Type 0
RecoveredAfterLost [] = Unit {0}
RecoveredAfterLost ((lost, delivered) ∷ sent) = RecoveredAfterLost sent
RecoveredAfterLost ((recovered, delivered) ∷ sent) =
    (newest_is_lost sent ≡ true) × RecoveredAfterLost sent

-- While a recovered alert is being sent, the newest alert is a lost one.
abbrev pub PhaseFits : Phase → List (Notice × Bool) → Type 0
PhaseFits (sending recovered alert) sent = newest_is_lost sent ≡ true
PhaseFits _ sent = Unit {0}

pub record IsOrdered (s : Sentinel) : Type 0 where
  pub flag : s.was_missing ≡ newest_is_lost s.sent
  pub order : RecoveredAfterLost s.sent
  pub fits : PhaseFits s.phase s.sent

on_woken-IsOrdered :
    (check recheck now : Instant) (s : Sentinel)
    → IsOrdered s
    → IsOrdered (on_woken check recheck now s)
unfolding on_woken
on_woken-IsOrdered check recheck now s h =
    elim (Bool-cases (should_alert_missing check s.store).1) [
      | inl due ↦ rw due (record { flag = h.flag; order = h.order; fits = tt })
      | inr fine ↦ elim (Bool-cases (s.was_missing && not (is_missing recheck s.store))) [
        | inl back ↦
            rw (fine, back)
              (record { flag = h.flag; order = h.order; fits = sym h.flag ∙ ground arith })
        | inr same ↦ rw (fine, same) h
      ]
    ]

on_answered-IsOrdered :
    (n : Notice) (r : Result Bool) (s : Sentinel)
    → s.was_missing ≡ newest_is_lost s.sent
    → RecoveredAfterLost s.sent
    → (n ≡ recovered → newest_is_lost s.sent ≡ true)
    → IsOrdered (on_answered n r s)
unfolding on_answered
on_answered-IsOrdered lost (returned b) s f o h = record { flag = refl; order = o; fits = tt }
on_answered-IsOrdered recovered (returned b) s f o h = record {
  flag = refl;
  order = (h refl, o);
  fits = tt;
}
on_answered-IsOrdered lost raised s f o h = record { flag = f; order = o; fits = tt }
on_answered-IsOrdered recovered raised s f o h = record { flag = f; order = o; fits = tt }

sending_fits :
    (n : Notice) (alert : AlertEvent) (sent : List (Notice × Bool))
    → PhaseFits (sending n alert) sent
    → n ≡ recovered
    → newest_is_lost sent ≡ true
sending_fits lost alert sent f e = cc
sending_fits recovered alert sent f e = f

step_in-IsOrdered :
    (p : Phase) (e : Event) (s : Sentinel) → s.phase ≡ p → IsOrdered s → IsOrdered (step_in p e s)
unfolding step_in on_probed
step_in-IsOrdered p (heartbeat now payload) s q h = record {
  flag = h.flag;
  order = h.order;
  fits = h.fits;
}
step_in-IsOrdered sleeping (woken check recheck now) s q h =
    on_woken-IsOrdered check recheck now s h
step_in-IsOrdered probing (probed result fallback now) s q h = record {
  flag = h.flag;
  order = h.order;
  fits = tt;
}
step_in-IsOrdered (sending n alert) (answered bot) s q h =
    on_answered-IsOrdered n (send_alert s.telegram bot alert) s h.flag h.order
      (sending_fits n alert s.sent (subst (λ p. PhaseFits p s.sent) q h.fits))
step_in-IsOrdered _ _ s q h = h

pub step-IsOrdered : (e : Event) (s : Sentinel) → IsOrdered s → IsOrdered (step e s)
unfolding step
step-IsOrdered e s h = step_in-IsOrdered s.phase e s refl h

run-IsOrdered : (es : List Event) (s : Sentinel) → IsOrdered s → IsOrdered (run es s)
unfolding run
run-IsOrdered [] s h = h
run-IsOrdered (e ∷ es) s h = run-IsOrdered es (step e s) (step-IsOrdered e s h)

-- From a new sentinel, whatever happens in whatever order, heartbeats during probes and sends
-- included: every recovered alert comes directly after a lost one, and the flag `_was_missing` says
-- whether the newest alert is a lost one.
pub sentinel_alternates :
    (expected_interval missed_threshold : ℤ) (telegram : TelegramNotifier) (es : List Event)
    → IsOrdered (run es (new_sentinel expected_interval missed_threshold telegram))
sentinel_alternates expected_interval missed_threshold telegram es =
    run-IsOrdered es (new_sentinel expected_interval missed_threshold telegram)
      (unfold new_sentinel in record { flag = refl; order = tt; fits = tt })
