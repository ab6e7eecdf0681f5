-- ===== src/Local/AlertEngine/Edges.antt =====
-- The alerts of any run of `process_wan_state` against an independent description: an interface is
-- down or not, and an alert is an edge of that.
use mathlib.Core.Path.{fun_ext, ap₂}
use wan_router_notifications.Common.{
  ◌≡◌, refl, ap, ◌∙◌, Bool, true, false, List, [], ◌∷◌, ◌++◌, map, Option, arith, if◌then◌else◌,
}
use wan_router_notifications.Common.Text.{Text, codes, text_eq}
use wan_router_notifications.Common.Dict
use wan_router_notifications.Common.Dict.{Dict}
use wan_router_notifications.Shared.Clock.{Instant}
use wan_router_notifications.Shared.Models.{
  InterfaceStatus, up, down, status_eq, WanState, AlertEvent,
}
use wan_router_notifications.Local.AlertEngine.Messages.{Router, down_alert, recovered_alert}
use wan_router_notifications.Local.AlertEngine.{
  AlertState, AlertEngine, new_engine, alert_state_of, should_alert, change_alerts,
  next_alert_state, process_wan_state,
}

-- One call of `process_wan_state`.
pub record Update : Type 0 where
  pub now : Instant
  pub state : WanState
  pub all_states : Option (Dict WanState)

-- Calls one after the other, with their alerts in order.
unfoldable pub run : AlertEngine → List Update → AlertEngine × List AlertEvent
run e [] = (e, [])
run e (u ∷ us) =
    let (e', alerts) = process_wan_state u.now e u.state u.all_states in
    let (e'', more) = run e' us in (e'', alerts ++ more)

abbrev pub titles : List AlertEvent → List Text
titles = map (λ a. a.title)

-- The alert of one observation of an interface that was down, or was not.
abbrev pub edge : Bool → InterfaceStatus → Text → List Text
edge false down i = (i ++ codes " DOWN") ∷ []
edge true up i = (i ++ codes " RECOVERED") ∷ []
edge _ _ i = []

-- All interfaces together: `is_down` says which are down so far.
unfoldable pub edges : (Text → Bool) → List Update → List Text
edges is_down [] = []
edges is_down (u ∷ us) =
    edge (is_down u.state.interface) u.state.status u.state.interface
    ++ edges (λ j. if text_eq u.state.interface j then status_eq u.state.status down else is_down j)
        us

abbrev pub is_down_in : AlertEngine → Text → Bool
is_down_in e j = status_eq (alert_state_of e j).current_status down

step_titles :
    (now : Instant) (e : AlertEngine) (s : WanState) (all_states : Option (Dict WanState))
    → titles (process_wan_state now e s all_states).1
      ≡ edge (is_down_in e s.interface) s.status s.interface
unfolding process_wan_state change_alerts should_alert down_alert recovered_alert
step_titles now e s all_states = ground arith

-- whether the change is taken or not, the interface is down afterwards as the observation says
next_status :
    (now : Instant) (a : AlertState) (s : InterfaceStatus)
    → status_eq (next_alert_state (should_alert a s) now s a).current_status down ≡ status_eq s down
unfolding should_alert next_alert_state
next_status now a s = ground arith

pub step-is_down :
    (now : Instant) (e : AlertEngine) (s : WanState) (all_states : Option (Dict WanState))
    (j : Text)
    → is_down_in (process_wan_state now e s all_states).0 j
      ≡ (if text_eq s.interface j then status_eq s.status down else is_down_in e j)
unfolding process_wan_state alert_state_of
step-is_down now e s all_states j = ground (
  arith,
  Dict.get-set e.wan_states s.interface j (
      next_alert_state (should_alert (alert_state_of e s.interface) s.status) now s.status
        (alert_state_of e s.interface)),
  next_status now (alert_state_of e s.interface) s.status,
)

titles-append : (xs ys : List AlertEvent) → titles (xs ++ ys) ≡ titles xs ++ titles ys
titles-append [] ys = refl
titles-append (x ∷ xs) ys = ap (◌∷◌ x.title) (titles-append xs ys)

pub run-edges : (e : AlertEngine) (us : List Update) → titles (run e us).1 ≡ edges (is_down_in e) us
unfolding run edges
run-edges e [] = refl
run-edges e (u ∷ us) =
    let (e', alerts) = process_wan_state u.now e u.state u.all_states in
    titles-append alerts (run e' us).1
    ∙ ap₂ ◌++◌ (step_titles u.now e u.state u.all_states) (
        run-edges e' us
        ∙ ap (λ f. edges f us) (fun_ext (step-is_down u.now e u.state u.all_states)))

-- From a new engine, whatever WAN states are processed, of any interfaces in any order: the titles of
-- all alerts are exactly the edges of the independent description, in which each interface starts
-- as not down. An interface alerts DOWN when it is observed down and was not down, RECOVERED when it
-- is observed up and was down, and never otherwise.
pub run_alerts_edges :
    (router : Router) (us : List Update)
    → titles (run (new_engine router) us).1 ≡ edges (λ j. false) us
unfolding new_engine alert_state_of Dict.get
run_alerts_edges router us = run-edges (new_engine router) us
