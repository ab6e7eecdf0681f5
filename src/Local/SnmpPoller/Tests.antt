-- ===== src/Local/SnmpPoller/Tests.antt =====
-- The pollers at concrete inputs.
use wan_router_notifications.Common.{ℕ, ◌≡◌, refl, ◌↔◌, ◌⊎◌, List, [], ◌∷◌, none, some}
use wan_router_notifications.Common.Text.{Text, codes, text_eq, is_truthy}
use wan_router_notifications.Common.Dict
use wan_router_notifications.Common.Dict.{Dict}
use wan_router_notifications.Shared.Models.{up, down, WanState}
use wan_router_notifications.Local.SnmpPoller.Queries.{Answer, next_hop, LinkAnswer, if_oper_status}
use wan_router_notifications.Local.SnmpPoller.Status.{Routes, poll_status_exact}
use wan_router_notifications.Local.SnmpPoller.Since.{
  Round, after, history, RunBegan, since_is_run_start,
}
use wan_router_notifications.Local.SnmpPoller.{
  SnmpPoller, new_poller, active_wan, is_active, since_of, wan_states, reverse, poll,
  MockSnmpPoller, new_mock,
}

abbrev gateways : Dict Text
gateways = (codes "WAN1", codes "10.0.0.1") ∷ (codes "WAN2", codes "10.0.0.2") ∷ []

abbrev fresh : SnmpPoller
fresh = new_poller gateways []

abbrev first_gateway : Answer
first_gateway = Answer.bound (codes "10.0.0.1" ∷ [])

abbrev no_links : Text → LinkAnswer
no_links name = LinkAnswer.failed

first_up :
    (poll 7 first_gateway no_links fresh).1
    ≡ (codes "WAN1", record { interface = codes "WAN1"; status = up; since = 7; link_up = none })
      ∷ (
        codes "WAN2",
        record { interface = codes "WAN2"; status = down; since = 7; link_up = none },
      )
      ∷ []
unfolding poll new_poller reverse next_hop active_wan is_truthy if_oper_status wan_states is_active
    since_of Dict.get Dict.set text_eq
first_up = refl

first_configured : Dict.get gateways (codes "WAN1") ≡ some (codes "10.0.0.1")
unfolding Dict.get text_eq
first_configured = refl

poll_status_exact_example :
    (s : WanState) × (Dict.get (poll 7 first_gateway no_links fresh).1 (codes "WAN1") ≡ some s)
    × (s.interface ≡ codes "WAN1")
    × ((s.status ≡ up) ↔ Routes fresh.wan_gateways (next_hop first_gateway) (codes "WAN1"))
    × ((s.status ≡ up) ⊎ (s.status ≡ down))
unfolding new_poller
poll_status_exact_example =
    poll_status_exact 7 first_gateway no_links fresh (codes "WAN1") (codes "10.0.0.1") refl
      first_configured

abbrev round : ℕ → Answer → Round
round n route = record { now = n; route = route; links = no_links }

abbrev rounds : List Round
rounds = round 20 Answer.error ∷ round 10 first_gateway ∷ []

since_is_run_start_example :
    (s : WanState) × (Dict.get
        (after gateways [] (round 30 Answer.error ∷ rounds)).last_states
        (codes "WAN1")
      ≡ some s)
    × (s.interface ≡ codes "WAN1")
    × RunBegan s.since s.status
        (history gateways [] (codes "WAN1") (round 30 Answer.error ∷ rounds))
since_is_run_start_example =
    since_is_run_start gateways [] (codes "WAN1") (codes "10.0.0.1") (round 30 Answer.error) rounds
      first_configured

abbrev ports : Dict ℕ
ports = (codes "WAN1", 1) ∷ (codes "WAN2", 2) ∷ []

-- both links are up
abbrev links_up : Text → LinkAnswer
links_up name = LinkAnswer.bound (some 1 ∷ [])

abbrev mock : MockSnmpPoller
mock = new_mock gateways ports

abbrev asking : SnmpPoller
asking = new_poller gateways ports
