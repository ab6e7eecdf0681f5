-- ===== src/Local/Poller.antt =====
-- `SNMPPollerProtocol` of local/main.py: the poller that the monitor works with, the real one or its
-- mock, and the choice of pysnmp's protocol in the constructor of the real one.
use wan_router_notifications.Common.{ℕ, Bool, if◌then◌else◌}
use wan_router_notifications.Common.Result.{Result, returned, raised, ◌>>=◌}
use wan_router_notifications.Common.Text.{Text, codes, text_eq}
use wan_router_notifications.Common.Dict.{Dict}
use wan_router_notifications.Shared.Clock.{Instant}
use wan_router_notifications.Shared.Models.{WanState}
use wan_router_notifications.Local.SnmpPoller.Queries.{Answer, LinkAnswer}
use wan_router_notifications.Local.SnmpPoller.{
  SnmpPoller, new_poller, poll, MockSnmpPoller, new_mock, mock_poll,
}

pub data Poller : Type 0 where
  snmp : SnmpPoller → Poller
  mock : MockSnmpPoller → Poller

-- the names with a gateway
abbrev pub gateways_of : Poller → Dict Text
gateways_of (snmp p) = p.wan_gateways
gateways_of (mock m) = m.wan_gateways

-- `self.poller.poll()`; the mock looks at no answer
unfoldable pub poll_any : Instant → Answer → (Text → LinkAnswer) → Poller → Poller × Dict WanState
poll_any now route links (snmp p) = let (p', states) = poll now route links p in (snmp p', states)
poll_any now route links (mock m) = let (m', states) = mock_poll now m in (mock m', states)

-- pysnmp's two protocols
pub data AuthProtocol : Type 0 where
  hmac_md5 hmac_sha : AuthProtocol

-- `auth_protocols[auth_protocol.upper()]`: another name is a KeyError
unfoldable pub auth_protocol_of : (Text → Text) → Text → Result AuthProtocol
auth_protocol_of upper name =
    if text_eq (upper name) (codes "MD5")
    then returned hmac_md5
    else if text_eq (upper name) (codes "SHA")
    then returned hmac_sha
    else raised

-- `SNMPPoller(...)` and `MockSNMPPoller(...)` as `LocalMonitor` calls them
unfoldable pub choose_poller : (Text → Text) → Bool → Text → Dict Text → Dict ℕ → Result Poller
unfolding auth_protocol_of
choose_poller upper mock_snmp protocol wan_gateways wan_interfaces =
    if mock_snmp
    then returned (mock (new_mock wan_gateways wan_interfaces))
    else auth_protocol_of upper protocol >>= λ p.
        returned (snmp (new_poller wan_gateways wan_interfaces))
