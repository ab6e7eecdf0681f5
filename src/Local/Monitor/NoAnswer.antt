-- ===== src/Local/Monitor/NoAnswer.antt =====
-- What a route query without an answer does, from local/snmp_poller.py to the alerts of
-- local/alert_engine.py, as the poll loop of local/main.py hands the states on.
use mathlib.Core.Path.{fun_ext, ap₂}
use wan_router_notifications.Common.{
  ◌≡◌, refl, ap, ◌∙◌, Bool, true, false, List, [], ◌∷◌, ◌++◌, map, Option, none, some,
  if◌then◌else◌,
}
use wan_router_notifications.Common.Text.{Text, codes, text_eq}
use wan_router_notifications.Common.Dict
use wan_router_notifications.Common.Dict.{Dict}
use wan_router_notifications.Shared.Clock.{Instant}
use wan_router_notifications.Shared.Models.{down, status_eq, WanState}
use wan_router_notifications.Local.SnmpPoller.Queries.{Answer, next_hop, LinkAnswer, if_oper_status}
use wan_router_notifications.Local.SnmpPoller.{SnmpPoller, active_wan, is_active, wan_states, poll}
use wan_router_notifications.Local.AlertEngine.{
  AlertEngine, new_engine, alert_state_of, process_wan_state,
}
use wan_router_notifications.Local.AlertEngine.Messages.{Router}
use wan_router_notifications.Local.AlertEngine.Edges.{
  Update, run, titles, edge, edges, is_down_in, step-is_down, run-edges,
}

-- The query raises, ends with an SNMP error, or has no value.
abbrev pub Unanswered : Answer → Type 0
Unanswered Answer.failed = Unit {0}
Unanswered Answer.error = Unit {0}
Unanswered (Answer.bound []) = Unit {0}
Unanswered (Answer.bound (value ∷ rest)) = ⊥

-- which interfaces were last observed down
abbrev pub downs : (Text → Bool) → List Update → Text → Bool
downs is_down [] = is_down
downs is_down (u ∷ us) =
    downs (λ j. if text_eq u.state.interface j then status_eq u.state.status down else is_down j) us

-- a DOWN alert for each of the names that is not down yet
abbrev pub outages : (Text → Bool) → List Text → List Text
outages is_down [] = []
outages is_down (name ∷ names) =
    (if is_down name then [] else (name ++ codes " DOWN") ∷ [])
    ++ outages (λ j. if text_eq name j then true else is_down j) names

-- the states of a poll as the poll loop processes them
abbrev pub updates : (WanState → Instant) → Dict WanState → List Update
updates clock states =
    map (λ s. record { now = clock s; state = s; all_states = some states }) (Dict.values states)

abbrev pub names : Dict Text → List Text
names = map (λ e. e.0)

next_hop-none : (route : Answer) → Unanswered route → next_hop route ≡ none
unfolding next_hop
next_hop-none Answer.failed h = refl
next_hop-none Answer.error h = refl
next_hop-none (Answer.bound []) h = refl
next_hop-none (Answer.bound (value ∷ rest)) h = elim h [ ]

run-downs : (e : AlertEngine) (us : List Update) → is_down_in (run e us).0 ≡ downs (is_down_in e) us
unfolding run
run-downs e [] = refl
run-downs e (u ∷ us) =
    run-downs (process_wan_state u.now e u.state u.all_states).0 us
    ∙ ap (λ f. downs f us) (fun_ext (step-is_down u.now e u.state u.all_states))

edge-down :
    (b : Bool) (name : Text) → edge b down name ≡ (if b then [] else (name ++ codes " DOWN") ∷ [])
edge-down true name = refl
edge-down false name = refl

all_down-edges :
    (clock : WanState → Instant) (all_states : Option (Dict WanState)) (now : Instant)
    (last : Dict WanState) (link : Text → Option Bool) (d : Dict Text) (is_down : Text → Bool)
    → edges is_down (
        map
          (λ s. record { now = clock s; state = s; all_states = all_states })
          (Dict.values (wan_states now last none link d)))
      ≡ outages is_down (names d)
unfolding edges wan_states is_active
all_down-edges clock all_states now last link [] is_down = refl
all_down-edges clock all_states now last link ((name, gw) ∷ d) is_down =
    ap₂ ◌++◌ (edge-down (is_down name) name) (
      all_down-edges clock all_states now last link d
        (λ j. if text_eq name j then true else is_down j))

-- Where the engine is one that was new and has processed any WAN states, and a poll whose route query
-- raises, ends with an SNMP error or has no value gives the states that it processes next: the titles
-- of the alerts are a DOWN for each configured WAN, in order, that was not last observed down.
pub no_answer_alarms :
    (router : Router) (us : List Update) (now : Instant) (clock : WanState → Instant)
    (route : Answer) (links : Text → LinkAnswer) (p : SnmpPoller)
    → Unanswered route
    → titles (run (run (new_engine router) us).0 (updates clock (poll now route links p).1)).1
      ≡ outages (downs (λ j. false) us) (names p.wan_gateways)
unfolding poll active_wan new_engine alert_state_of Dict.get
no_answer_alarms router us now clock route links p h =
    let states = (poll now route links p).1 in
    let e = (run (new_engine router) us).0 in
    run-edges e (updates clock states)
    ∙ (ap (λ f. edges f (updates clock states)) (run-downs (new_engine router) us)
        ∙ (ap
              (λ hop. edges (downs (λ j. false) us) (
                updates clock (
                  wan_states now p.last_states (active_wan p hop)
                    (Dict.get (if_oper_status links p.wan_interfaces)) p.wan_gateways)))
              (next_hop-none route h)
            ∙ all_down-edges clock _ now p.last_states
                (Dict.get (if_oper_status links p.wan_interfaces)) p.wan_gateways
                (downs (λ j. false) us)))
