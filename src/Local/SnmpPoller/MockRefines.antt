-- ===== src/Local/SnmpPoller/MockRefines.antt =====
-- The mock poller against the real one.
use wan_router_notifications.Common.{◌≡◌, [], ◌∷◌, Option, Bool}
use wan_router_notifications.Common.Text.{Text}
use wan_router_notifications.Common.Dict
use wan_router_notifications.Common.Dict.{Dict}
use wan_router_notifications.Local.SnmpPoller.{SnmpPoller, MockSnmpPoller, mock_link}

-- The mock stands for the poller: the same WANs and the same last states.
pub record StandsFor (m : MockSnmpPoller) (p : SnmpPoller) : Type 0 where
  pub gateways : m.wan_gateways ≡ p.wan_gateways
  pub last : m.last_states ≡ p.last_states

-- The link of each of these WANs, or that it is not known, is what the mock takes it for.
abbrev pub LinksAgree : MockSnmpPoller → (Text → Option Bool) → Dict Text → Type 0
LinksAgree m link [] = Unit {0}
LinksAgree m link ((name, gw) ∷ d) = (mock_link m name ≡ link name) × LinksAgree m link d
