-- ===== src/Local/SnmpPoller.antt =====
-- local/snmp_poller.py: the poller and its mock. What pysnmp answers is an argument of the polls.
-- `Queries` has the two queries; the proofs are in the modules below.
pub mod Queries
pub mod Since
pub mod Status
pub mod MockRefines
mod Tests
use wan_router_notifications.Common.{
  ℕ, Bool, true, false, not, ◌&&◌, List, [], ◌∷◌, ◌++◌, map, Option, none, some, if◌then◌else◌,
}
use wan_router_notifications.Common.Result.{Result, returned, raised}
use wan_router_notifications.Common.Text.{Text, text_eq, codes, is_truthy}
use wan_router_notifications.Common.Dict
use wan_router_notifications.Common.Dict.{Dict}
use wan_router_notifications.Shared.Clock.{Instant}
use wan_router_notifications.Shared.Models.{InterfaceStatus, up, down, status_eq, WanState}
use Queries.{Answer, next_hop, LinkAnswer, if_oper_status}

pub record SnmpPoller : Type 0 where
  pub wan_gateways : Dict Text
  pub wan_interfaces : Dict ℕ
  pub last_states : Dict WanState
  pub last_unknown_gateway : Option Text
  pub gateway_to_wan : Dict Text

-- `{gw: name for name, gw in wan_gateways.items()}`: of two names with one gateway the last counts
reverse_from : Dict Text → Dict Text → Dict Text
reverse_from acc [] = acc
reverse_from acc ((name, gw) ∷ d) = reverse_from (Dict.set acc gw name) d

unfoldable pub reverse : Dict Text → Dict Text
unfolding reverse_from
reverse d = reverse_from [] d

-- the state that `__init__` makes; the connection's settings are constants
unfoldable pub new_poller : Dict Text → Dict ℕ → SnmpPoller
new_poller wan_gateways wan_interfaces = record {
  wan_gateways = wan_gateways;
  wan_interfaces = wan_interfaces;
  last_states = [];
  last_unknown_gateway = none;
  gateway_to_wan = reverse wan_gateways;
}

-- `self._gateway_to_wan.get(next_hop) if next_hop else None`
unfoldable pub active_wan : SnmpPoller → Option Text → Option Text
active_wan p none = none
active_wan p (some hop) = if is_truthy hop then Dict.get p.gateway_to_wan hop else none

-- `bool(o)` of an optional string
abbrev pub is_given : Option Text → Bool
is_given none = false
is_given (some t) = is_truthy t

-- the value of `_last_unknown_gateway` after the poll
unfoldable pub next_unknown_gateway : Option Text → Option Text → Option Text
next_unknown_gateway hop active = if is_given hop && not (is_given active) then hop else none

-- `name == active_wan`
unfoldable pub is_active : Text → Option Text → Bool
is_active name none = false
is_active name (some active) = text_eq name active

abbrev pub status_of : Text → Option Text → InterfaceStatus
status_of name active = if is_active name active then up else down

-- `since` is kept while the status stays the same
unfoldable pub since_of : Option WanState → InterfaceStatus → Instant → Instant
since_of none status now = now
since_of (some previous) status now =
    if status_eq previous.status status then previous.since else now

-- the loop over `wan_gateways`, with the link state of each name
unfoldable pub wan_states :
    Instant → Dict WanState → Option Text → (Text → Option Bool) → Dict Text → Dict WanState
wan_states now last active link [] = []
wan_states now last active link ((name, gw) ∷ d) =
    (
      name,
      record {
        interface = name;
        status = status_of name active;
        since = since_of (Dict.get last name) (status_of name active) now;
        link_up = link name;
      },
    )
    ∷ wan_states now last active link d

-- `poll`, given the clock, the answer to the route query and those to the link queries
unfoldable pub poll :
    Instant → Answer → (Text → LinkAnswer) → SnmpPoller → SnmpPoller × Dict WanState
poll now route links p =
    let hop = next_hop route in
    let active = active_wan p hop in
    let link_status = if_oper_status links p.wan_interfaces in
    let states = wan_states now p.last_states active (Dict.get link_status) p.wan_gateways in
    (
      record p { last_states = states; last_unknown_gateway = next_unknown_gateway hop active },
      states,
    )

-- `MockSNMPPoller`
pub record MockSnmpPoller : Type 0 where
  pub wan_gateways : Dict Text
  pub wan_interfaces : Dict ℕ
  pub active : Text
  pub last_states : Dict WanState
  pub links_down : List Text

abbrev default_gateways : Dict Text
default_gateways = (codes "WAN1", codes "192.168.1.254") ∷ (codes "WAN2", codes "192.168.1.1") ∷ []

abbrev or_default : Dict Text → Dict Text
or_default [] = default_gateways
or_default (entry ∷ d) = entry ∷ d

-- `None` and an empty dictionary are alike: `wan_gateways or {…}`
unfoldable pub new_mock : Dict Text → Dict ℕ → MockSnmpPoller
new_mock wan_gateways wan_interfaces = record {
  wan_gateways = or_default wan_gateways;
  wan_interfaces = wan_interfaces;
  active = codes "WAN1";
  last_states = [];
  links_down = [];
}

unfoldable pub set_active_wan : Text → MockSnmpPoller → Result MockSnmpPoller
set_active_wan name m =
    if not (Dict.contains m.wan_gateways name)
    then raised
    else returned (record m { active = name })

-- `x in s`, and the two updates of a set
unfoldable pub member : Text → List Text → Bool
member x [] = false
member x (y ∷ ys) = if text_eq x y then true else member x ys

pub add : Text → List Text → List Text
unfolding member
add x s = if member x s then s else x ∷ s

pub discard : Text → List Text → List Text
discard x [] = []
discard x (y ∷ ys) = let rest = discard x ys in if text_eq x y then rest else y ∷ rest

unfoldable pub set_link_down : Text → MockSnmpPoller → Result MockSnmpPoller
unfolding add
set_link_down name m =
    if not (Dict.contains m.wan_gateways name)
    then raised
    else returned (record m { links_down = add name m.links_down })

unfoldable pub set_link_up : Text → MockSnmpPoller → MockSnmpPoller
unfolding discard
set_link_up name m = record m { links_down = discard name m.links_down }

abbrev pub has_entries : Dict ℕ → Bool
has_entries [] = false
has_entries (entry ∷ d) = true

abbrev pub mock_link : MockSnmpPoller → Text → Option Bool
mock_link m name =
    if has_entries m.wan_interfaces then some (not (member name m.links_down)) else none

-- `since` in the mock's loop, which has its own copy of the code
unfoldable pub mock_since : Option WanState → InterfaceStatus → Instant → Instant
mock_since none status now = now
mock_since (some previous) status now =
    if status_eq previous.status status then previous.since else now

-- the mock's loop over `wan_gateways`
unfoldable pub mock_states : Instant → MockSnmpPoller → Dict Text → Dict WanState
mock_states now m [] = []
mock_states now m ((name, gw) ∷ d) =
    let status = if text_eq name m.active then up else down in
    (
      name,
      record {
        interface = name;
        status = status;
        since = mock_since (Dict.get m.last_states name) status now;
        link_up = mock_link m name;
      },
    )
    ∷ mock_states now m d

unfoldable pub mock_poll : Instant → MockSnmpPoller → MockSnmpPoller × Dict WanState
unfolding mock_states
mock_poll now m =
    let states = mock_states now m m.wan_gateways in (record m { last_states = states }, states)
