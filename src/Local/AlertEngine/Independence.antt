-- ===== src/Local/AlertEngine/Independence.antt =====
-- The interfaces of local/alert_engine.py do not touch one another.
use mathlib.Core.Path.{ap₂}
use wan_router_notifications.Common.{
  ◌≡◌, ◌≢◌, refl, ap, ◌∙◌, List, [], ◌∷◌, ◌++◌, Option, none, some, if◌then◌else◌,
}
use wan_router_notifications.Common.Text.{Text, text_eq_ne}
use wan_router_notifications.Common.Dict
use wan_router_notifications.Common.Dict.{Dict}
use wan_router_notifications.Shared.Models.{WanState, AlertEvent}
use wan_router_notifications.Local.AlertEngine.Messages.{Router}
use wan_router_notifications.Local.AlertEngine.{
  AlertState, new_alert_state, AlertEngine, alert_state_of, should_alert, change_alerts,
  process_wan_state,
}
use wan_router_notifications.Local.AlertEngine.Edges.{Update, run}

-- No interface is updated twice.
abbrev Absent : Text → List Update → Type 0
Absent i [] = Unit {0}
Absent i (u ∷ us) = (i ≢ u.state.interface) × Absent i us

abbrev pub AllDistinct : List Update → Type 0
AllDistinct [] = Unit {0}
AllDistinct (u ∷ us) = Absent u.state.interface us × AllDistinct us

-- the alerts of an update that is the only one
abbrev pub alone : AlertEngine → Update → List AlertEvent
alone e u = (process_wan_state u.now e u.state u.all_states).1

abbrev pub each_alone : AlertEngine → List Update → List AlertEvent
each_alone e [] = []
each_alone e (u ∷ us) = alone e u ++ each_alone e us

-- Two engines agree on an interface.
abbrev AgreeOn : Text → AlertEngine → AlertEngine → Type 0
AgreeOn i e f =
    (e.router ≡ f.router)
    × (Dict.get e.wan_states i ≡ Dict.get f.wan_states i)
    × (Dict.get e.previous_wan i ≡ Dict.get f.previous_wan i)

-- these alerts by what they depend on
abbrev alone_from : Router → Option AlertState → Option WanState → Update → List AlertEvent
alone_from router w p u =
    let a = elim w as (λ o. AlertState) [ none ↦ new_alert_state | some a ↦ a ] in
    if should_alert a u.state.status then change_alerts router u.now p u.state u.all_states else []

alone-AgreeOn :
    (e f : AlertEngine) (u : Update) → AgreeOn u.state.interface e f → alone e u ≡ alone f u
unfolding process_wan_state alert_state_of
alone-AgreeOn e f u (r, w, p) = λ i. alone_from (r i) (w i) (p i) u

process-AgreeOn :
    (e : AlertEngine) (u : Update) (i : Text)
    → u.state.interface ≢ i
    → AgreeOn i (process_wan_state u.now e u.state u.all_states).0 e
unfolding process_wan_state
process-AgreeOn e u i h =
    let other = text_eq_ne u.state.interface i h in
    (
      refl,
      Dict.get-set e.wan_states u.state.interface i _ ∙ rw other refl,
      Dict.get-set e.previous_wan u.state.interface i u.state ∙ rw other refl,
    )

each_alone-after :
    (e : AlertEngine) (u : Update) (us : List Update)
    → Absent u.state.interface us
    → each_alone (process_wan_state u.now e u.state u.all_states).0 us ≡ each_alone e us
each_alone-after e u [] h = refl
each_alone-after e u (v ∷ us) (h, hs) =
    ap₂ ◌++◌
      (alone-AgreeOn (process_wan_state u.now e u.state u.all_states).0 e v
        (process-AgreeOn e u v.state.interface h))
      (each_alone-after e u us hs)

-- Where no interface is updated twice, as in a poll: the alerts of the updates one after the other are
-- those that each update gives alone, of the engine before the first of them.
pub alerts_independent :
    (e : AlertEngine) (us : List Update) → AllDistinct us → (run e us).1 ≡ each_alone e us
unfolding run
alerts_independent e [] h = refl
alerts_independent e (u ∷ us) (absent, distinct) =
    let (e', alerts) = process_wan_state u.now e u.state u.all_states in
    ap (λ l. alerts ++ l) (alerts_independent e' us distinct ∙ each_alone-after e u us absent)
