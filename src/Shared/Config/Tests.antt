-- ===== src/Shared/Config/Tests.antt =====
-- Configurations of the local monitor.
use wan_router_notifications.Common.{
  ℕ, ◌-◌, ◌≡◌, refl, ◌↔◌, ◌&&◌, none, some, map, leb, if◌then◌else◌,
}
use wan_router_notifications.Common.Int.{pos}
use wan_router_notifications.Common.Result.{returned, raised}
use wan_router_notifications.Common.Text.{Text, codes, text_eq}
use wan_router_notifications.Shared.Config.Valid.{Returns, Accepted, local_config-Accepted}
use wan_router_notifications.Shared.Config.{
  validate_interval, validate_snmp_auth_protocol, LocalFile, local_config,
}

abbrev upper_letter : ℕ → ℕ
upper_letter c = if leb 97 c && leb c 122 then c - 32 else c

abbrev pub ascii_upper : Text → Text
ascii_upper = map upper_letter

abbrev pub small_file : LocalFile
small_file = record {
  host = codes "192.168.0.1";
  name = none;
  snmp_username = codes "monitor";
  snmp_auth_key = codes "key";
  snmp_auth_protocol = some (codes "sha");
  snmp_port = none;
  snmp_timeout = none;
  wan_gateways = none;
  wan_interfaces = none;
  normal_interval = some (pos 30);
  alert_interval = none;
  recovery_threshold = none;
  syslog_enabled = none;
  syslog_port = none;
  bind_address = none;
  remote_url = none;
  heartbeat_interval = none;
  heartbeat_timeout = none;
}

local_config-Accepted_example :
    Returns (local_config ascii_upper small_file) ↔ Accepted ascii_upper small_file
local_config-Accepted_example = local_config-Accepted ascii_upper small_file

sha_in_capitals : validate_snmp_auth_protocol ascii_upper (codes "sha") ≡ returned (codes "SHA")
unfolding validate_snmp_auth_protocol text_eq
sha_in_capitals = refl

nine_raises : validate_interval (pos 9) ≡ raised
unfolding validate_interval
nine_raises = refl
