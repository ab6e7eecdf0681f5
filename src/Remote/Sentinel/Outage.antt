-- ===== src/Remote/Sentinel/Outage.antt =====
-- One outage: what is sent, and what an exception of `send_alert` does.
use wan_router_notifications.Common.{
  ◌≡◌, refl, ◌∙◌, ap, true, false, List, [], ◌∷◌, inl, inr, Bool-cases,
}
use wan_router_notifications.Common.Result.{raised}
use wan_router_notifications.Shared.Clock.{Instant}
use wan_router_notifications.Shared.Telegram.{Bot, send_alert}
use wan_router_notifications.Remote.ExternalProbe.{ProbeResult}
use wan_router_notifications.Remote.AlertEngine.{create_monitor_lost_alert}
use wan_router_notifications.Remote.HeartbeatStore.{
  is_missing, should_alert_missing, get_last_wan_states,
}
use wan_router_notifications.Remote.Sentinel.{
  sleeping, Sentinel, Event, heartbeat, woken, probed, answered, on_woken, or_now, step_in, step,
  run,
}

-- The lost alert is flagged in the store, and neither sent nor remembered: the state after an
-- exception of `send_alert`.
pub record IsDropped (s : Sentinel) : Type 0 where
  pub sleeps : s.phase ≡ sleeping
  pub flagged : s.store.alerted_missing ≡ true
  pub forgotten : s.was_missing ≡ false

abbrev pub NoHeartbeat : List Event → Type 0
NoHeartbeat [] = Unit {0}
NoHeartbeat (heartbeat now payload ∷ es) = ⊥
NoHeartbeat (_ ∷ es) = NoHeartbeat es

dropped_woken :
    (check recheck now : Instant) (s : Sentinel) → IsDropped s → on_woken check recheck now s ≡ s
unfolding on_woken should_alert_missing
dropped_woken check recheck now s d = elim (Bool-cases (is_missing check s.store)) [
  | inl missing ↦ rw (missing, d.flagged, d.forgotten) refl
  | inr there ↦ rw (there, d.forgotten) refl
]

dropped_step :
    (e : Event) (s : Sentinel) → IsDropped s → NoHeartbeat (e ∷ []) → step_in sleeping e s ≡ s
unfolding step_in
dropped_step (heartbeat now payload) s d h = elim h [ ]
dropped_step (woken check recheck now) s d h = dropped_woken check recheck now s d
dropped_step _ s d h = refl

NoHeartbeat-head :
    (e : Event) (es : List Event) → NoHeartbeat (e ∷ es) → NoHeartbeat (e ∷ []) × NoHeartbeat es
NoHeartbeat-head (heartbeat now payload) es h = elim h [ ]
NoHeartbeat-head (woken check recheck now) es h = (tt, h)
NoHeartbeat-head (probed result fallback now) es h = (tt, h)
NoHeartbeat-head (answered bot) es h = (tt, h)

dropped_run : (es : List Event) (s : Sentinel) → IsDropped s → NoHeartbeat es → run es s ≡ s
unfolding run step
dropped_run [] s d h = refl
dropped_run (e ∷ es) s d h =
    let (first, rest) = NoHeartbeat-head e es h in
    let still : step e s ≡ s = ap (λ p. step_in p e s) d.sleeps ∙ dropped_step e s d first in
    ap (run es) still ∙ dropped_run es s d rest

-- an exception of `send_alert` leaves the outage flagged in the store only
lost_alert_dropped :
    (s : Sentinel) (check recheck now fallback made : Instant) (result : ProbeResult) (bot : Bot)
    → s.phase ≡ sleeping
    → is_missing check s.store ≡ true
    → s.store.alerted_missing ≡ false
    → send_alert s.telegram bot (
        create_monitor_lost_alert made
          (or_now s.store.last_heartbeat fallback)
          (get_last_wan_states s.store)
          result)
      ≡ raised
    → run (woken check recheck now ∷ probed result fallback made ∷ answered bot ∷ []) s
      ≡ record s { store = record s.store { alerted_missing = true }; phase = sleeping }
unfolding run step should_alert_missing get_last_wan_states
lost_alert_dropped s check recheck now fallback made result bot p missing fresh fails =
    rw (p, missing, fresh) (rw fails refl)

-- Where `send_alert` raises while the lost alert of a new outage is sent, the sentinel never sends it
-- again, and says nothing of a recovery, before a heartbeat comes: whatever else happens, the record
-- of the sends that returned stays as it was.
pub lost_alert_not_retried :
    (s : Sentinel) (check recheck now fallback made : Instant) (result : ProbeResult) (bot : Bot)
    (es : List Event)
    → s.phase ≡ sleeping
    → s.was_missing ≡ false
    → is_missing check s.store ≡ true
    → s.store.alerted_missing ≡ false
    → send_alert s.telegram bot (
        create_monitor_lost_alert made
          (or_now s.store.last_heartbeat fallback)
          (get_last_wan_states s.store)
          result)
      ≡ raised
    → NoHeartbeat es
    → (run (woken check recheck now ∷ probed result fallback made ∷ answered bot ∷ es) s).sent
      ≡ s.sent
unfolding run
lost_alert_not_retried s check recheck now fallback made result bot es p calm missing fresh fails
      quiet =
    let dropped =
      lost_alert_dropped s check recheck now fallback made result bot p missing fresh fails in
    ap (λ t. (run es t).sent) dropped
    ∙ ap (λ t. t.sent)
        (dropped_run es
          (record s { store = record s.store { alerted_missing = true }; phase = sleeping })
          (record { sleeps = refl; flagged = refl; forgotten = calm }) quiet)
