-- ===== src/Local/AlertEngine/Invariant.antt =====
-- What ties the two dictionaries of the engine together, and what follows for the RECOVERED alert.
use wan_router_notifications.Common.{
  ◌≡◌, refl, ◌≢◌, ◌⊎◌, inl, inr, true, List, [], ◌∷◌, Option, none, some, arith, Bool-cases,
}
use wan_router_notifications.Common.Text.{Text, text_eq, text_eq_iff}
use wan_router_notifications.Common.Dict
use wan_router_notifications.Common.Dict.{Dict}
use wan_router_notifications.Shared.Clock.{Instant, minus}
use wan_router_notifications.Shared.Models.{InterfaceStatus, up, down, unknown, WanState}
use wan_router_notifications.Shared.Telegram.Duration.{format_duration}
use wan_router_notifications.Local.AlertEngine.Messages.{Router, recovered_alert, duration_in}
use wan_router_notifications.Local.AlertEngine.Edges.{Update, run}
use wan_router_notifications.Local.AlertEngine.{
  AlertState, AlertEngine, new_engine, new_alert_state, alert_state_of, should_alert, change_alerts,
  next_alert_state, process_wan_state,
}

-- The alert state follows the last processed state of the interface, but that an interface which
-- was never down may still count as unknown.
abbrev pub Follows : InterfaceStatus → InterfaceStatus → Type 0
Follows current status = (current ≡ status) ⊎ ((current ≡ unknown) × (status ≢ down))

abbrev pub Agrees : Text → Option AlertState → Option WanState → Type 0
Agrees i none none = Unit {0}
Agrees i (some a) (some p) = (p.interface ≡ i) × Follows a.current_status p.status
Agrees i _ _ = ⊥

pub record IsConsistent (e : AlertEngine) : Type 0 where
  pub at : (i : Text) → Agrees i (Dict.get e.wan_states i) (Dict.get e.previous_wan i)

next-Follows :
    (now : Instant) (a : AlertState) (s : InterfaceStatus)
    → Follows (next_alert_state (should_alert a s) now s a).current_status s
unfolding should_alert next_alert_state
next-Follows now a s = grind arith

pub process_wan_state-IsConsistent :
    (now : Instant) (e : AlertEngine) (s : WanState) (all_states : Option (Dict WanState))
    → IsConsistent e
    → IsConsistent (process_wan_state now e s all_states).0
unfolding process_wan_state
process_wan_state-IsConsistent now e s all_states h = record {
  at = λ j. elim (Bool-cases (text_eq s.interface j)) [
    | inl same ↦
        rw (Dict.get-set, Dict.get-set, same)
          (
            (text_eq_iff s.interface j).0 same,
            next-Follows now (alert_state_of e s.interface) s.status,
          )
    | inr other ↦ rw (Dict.get-set, Dict.get-set, other) (h.at j)
  ];
}

-- After any run from a new engine, the alert states and the last WAN states have the same
-- interfaces, each last WAN state is stored under its own name, and each alert state has the status
-- last processed, or is still unknown where that status is not down.
pub run-IsConsistent :
    (e : AlertEngine) (us : List Update) → IsConsistent e → IsConsistent (run e us).0
unfolding run
run-IsConsistent e [] h = h
run-IsConsistent e (u ∷ us) h =
    run-IsConsistent (process_wan_state u.now e u.state u.all_states).0 us
      (process_wan_state-IsConsistent u.now e u.state u.all_states h)

pub new_engine-IsConsistent : (router : Router) → IsConsistent (new_engine router)
unfolding new_engine Dict.get
new_engine-IsConsistent router = record { at = λ i. tt }

-- an alert on `up` presupposes that the last processed state was down
up_alert_after_down :
    (i : Text) (a : Option AlertState) (p : Option WanState)
    → Agrees i a p
    → should_alert (elim a [ none ↦ new_alert_state | some b ↦ b ]) up ≡ true
    → (q : WanState) × (p ≡ some q) × (q.status ≡ down)
unfolding should_alert
up_alert_after_down i none p h change = ground arith
up_alert_after_down i (some a) none h change = elim h [ ]
up_alert_after_down i (some a) (some p) h change = (p, refl, ground arith)

-- Where the engine is consistent and a state that is up raises an alert, the last state of the
-- interface is known and was down, the engine emits exactly the RECOVERED alert, and its downtime
-- is the time since that down state began, never "unknown".
pub recovered_downtime_known :
    (now : Instant) (e : AlertEngine) (s : WanState) (all_states : Option (Dict WanState))
    → IsConsistent e
    → s.status ≡ up
    → (process_wan_state now e s all_states).1 ≢ []
    → (p : WanState) × (Dict.get e.previous_wan s.interface ≡ some p)
      × (p.status ≡ down)
      × ((process_wan_state now e s all_states).1
          ≡ recovered_alert e.router now (format_duration (minus now p.since)) s ∷ [])
unfolding process_wan_state change_alerts alert_state_of duration_in
recovered_downtime_known now e s all_states h is_up alerts =
    elim (Bool-cases (
      should_alert
        (elim (Dict.get e.wan_states s.interface) [ none ↦ new_alert_state | some b ↦ b ])
        s.status)) [
          | inr same ↦ absurd (alerts (rw same refl))
          | inl change ↦
              let (p, before, was_down) =
                up_alert_after_down s.interface (Dict.get e.wan_states s.interface)
                  (Dict.get e.previous_wan s.interface) (h.at s.interface) (rw is_up at change) in
              (p, before, was_down, rw (change, before, is_up, was_down) refl)
        ]
