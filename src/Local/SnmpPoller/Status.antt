-- ===== src/Local/SnmpPoller/Status.antt =====
-- Which WAN a poll reports as up.
use mathlib.Core.Option
use wan_router_notifications.Common.{
  ◌≡◌, refl, sym, ap, ◌∙◌, ◌↔◌, ◌⊎◌, inl, inr, Bool, true, [], ◌∷◌, Option, none, some, arith,
  if◌then◌else◌, Bool-cases,
}
use wan_router_notifications.Common.Text.{Text, text_eq, text_eq_iff, is_truthy}
use wan_router_notifications.Common.Dict
use wan_router_notifications.Common.Dict.{Dict}
use wan_router_notifications.Shared.Clock.{Instant}
use wan_router_notifications.Shared.Models.{up, down, WanState}
use wan_router_notifications.Local.SnmpPoller.Queries.{Answer, next_hop, LinkAnswer, if_oper_status}
use wan_router_notifications.Local.SnmpPoller.{
  SnmpPoller, reverse_from, reverse, active_wan, is_active, status_of, since_of, wan_states, poll,
}

-- the state that the loop makes for a name
abbrev pub state_for :
    Instant → Dict WanState → Option Text → (Text → Option Bool) → Text → WanState
state_for now last active link name = record {
  interface = name;
  status = status_of name active;
  since = since_of (Dict.get last name) (status_of name active) now;
  link_up = link name;
}

pub get-wan_states :
    (now : Instant) (last : Dict WanState) (active : Option Text) (link : Text → Option Bool)
    (d : Dict Text) (name gw : Text)
    → Dict.get d name ≡ some gw
    → Dict.get (wan_states now last active link d) name ≡ some (state_for now last active link name)
unfolding wan_states Dict.get
get-wan_states now last active link [] name gw h = absurd (ground arith)
get-wan_states now last active link ((key, g) ∷ d) name gw h =
    elim (Bool-cases (text_eq key name)) [
      | inl same ↦
          rw same
            (ap (λ k. some (state_for now last active link k)) ((text_eq_iff key name).0 same))
      | inr other ↦ rw other (get-wan_states now last active link d name gw (ground arith))
    ]

-- The last name in the configuration with the gateway `gw`.
abbrev pub last_with : Text → Dict Text → Option Text
last_with gw [] = none
last_with gw ((name, g) ∷ d) = elim (last_with gw d) [
  | some n ↦ some n
  | none ↦ if text_eq g gw then some name else none
]

get-reverse_from :
    (gw : Text) (acc d : Dict Text)
    → Dict.get (reverse_from acc d) gw
      ≡ elim (last_with gw d) [ some n ↦ some n | none ↦ Dict.get acc gw ]
unfolding reverse_from
get-reverse_from gw acc [] = refl
get-reverse_from gw acc ((name, g) ∷ d) =
    ground (arith, get-reverse_from gw (Dict.set acc g name) d, Dict.get-set acc g gw name)

pub get-reverse : (gw : Text) (d : Dict Text) → Dict.get (reverse d) gw ≡ last_with gw d
unfolding reverse Dict.get
get-reverse gw d = ground (arith, get-reverse_from gw [] d)

-- The default route leads through the WAN `name`: the next hop is known and not empty, and `name` is
-- the last WAN that is configured with it as its gateway.
abbrev pub Routes : Dict Text → Option Text → Text → Type 0
Routes d hop name = (g : Text) × (hop ≡ some g) × (is_truthy g ≡ true) × (last_with g d ≡ some name)

abbrev pub IsConfigured : SnmpPoller → Type 0
IsConfigured p = p.gateway_to_wan ≡ reverse p.wan_gateways

active→Routes :
    (p : SnmpPoller) (hop : Option Text) (name : Text)
    → IsConfigured p
    → active_wan p hop ≡ some name
    → Routes p.wan_gateways hop name
unfolding active_wan
active→Routes p none name c h = absurd (ground arith)
active→Routes p (some g) name c h = elim (Bool-cases (is_truthy g)) [
  | inl given ↦ (g, refl, given, sym (get-reverse g p.wan_gateways) ∙ (rw (← c) (rw given at h)))
  | inr blank ↦ absurd (ground arith)
]

pub Routes→active :
    (p : SnmpPoller) (hop : Option Text) (name : Text)
    → IsConfigured p
    → Routes p.wan_gateways hop name
    → active_wan p hop ≡ some name
unfolding active_wan
Routes→active p hop name c (g, known, given, last) =
    rw (known, given, c) (get-reverse g p.wan_gateways ∙ last)

status-up_iff :
    (name : Text) (active : Option Text) → (status_of name active ≡ up) ↔ (active ≡ some name)
unfolding is_active
status-up_iff name none = (λ h. absurd (ground arith), λ h. absurd (ground arith))
status-up_iff name (some a) = (
  λ h. ap some (sym ((text_eq_iff name a).0 (ground arith))),
  λ h. ground (arith, text_eq_iff name a),
)

status_two :
    (name : Text) (active : Option Text)
    → (status_of name active ≡ up) ⊎ (status_of name active ≡ down)
status_two name active = elim (Bool-cases (is_active name active)) [
  | inl hit ↦ inl (rw hit refl)
  | inr miss ↦ inr (rw miss refl)
]

-- For a configured poller and each WAN of its configuration: the poll has a state under that name,
-- for that name; it is up exactly if the default route leads through the WAN, and otherwise down.
pub poll_status_exact :
    (now : Instant) (route : Answer) (links : Text → LinkAnswer) (p : SnmpPoller) (name gw : Text)
    → IsConfigured p
    → Dict.get p.wan_gateways name ≡ some gw
    → (s : WanState) × (Dict.get (poll now route links p).1 name ≡ some s)
      × (s.interface ≡ name)
      × ((s.status ≡ up) ↔ Routes p.wan_gateways (next_hop route) name)
      × ((s.status ≡ up) ⊎ (s.status ≡ down))
unfolding poll
poll_status_exact now route links p name gw c h =
    let active = active_wan p (next_hop route) in
    let (there, back) = status-up_iff name active in
    (
      _,
      get-wan_states now p.last_states active _ p.wan_gateways name gw h,
      refl,
      (
        λ is_up. active→Routes p (next_hop route) name c (there is_up),
        λ routes. back (Routes→active p (next_hop route) name c routes),
      ),
      status_two name active,
    )

abbrev pub IsUp : Option WanState → Type 0
IsUp none = ⊥
IsUp (some s) = s.status ≡ up

-- At most one WAN of a poll is up.
pub one_up :
    (now : Instant) (route : Answer) (links : Text → LinkAnswer) (p : SnmpPoller) (a b g h : Text)
    → Dict.get p.wan_gateways a ≡ some g
    → Dict.get p.wan_gateways b ≡ some h
    → IsUp (Dict.get (poll now route links p).1 a)
    → IsUp (Dict.get (poll now route links p).1 b)
    → a ≡ b
unfolding poll
one_up now route links p a b g h in_a in_b up_a up_b =
    let active = active_wan p (next_hop route) in
    let at_a =
      get-wan_states now p.last_states active (Dict.get (if_oper_status links p.wan_interfaces))
        p.wan_gateways a g in_a in
    let at_b =
      get-wan_states now p.last_states active (Dict.get (if_oper_status links p.wan_interfaces))
        p.wan_gateways b h in_b in
    Option.some-injective a b (
      sym ((status-up_iff a active).0 (rw at_a at up_a))
      ∙ (status-up_iff b active).0 (rw at_b at up_b))
