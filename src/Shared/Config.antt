-- ===== src/Shared/Config.antt =====
-- shared/config.py: the sections of the configuration, their defaults and the two validators. What
-- YAML and pydantic make of a file is the argument: for each field a value of its type or none.
pub mod Valid
pub mod Remote
pub mod Tests
use wan_router_notifications.Common.{
  ℕ, Bool, true, false, not, ◌||◌, List, [], ◌∷◌, Option, none, some, if◌then◌else◌,
}
use wan_router_notifications.Common.Int.{ℤ, pos, ltb_ℤ}
use wan_router_notifications.Common.Result.{Result, returned, raised, ◌>>=◌}
use wan_router_notifications.Common.Text.{Text, codes, text_eq}
use wan_router_notifications.Common.Dict.{Dict}

-- a field's value, or its default
abbrev pub given_or {ℓ} : {A : Type ℓ} → Option A → A → A
given_or none default = default
given_or (some v) default = v

-- A validator is run on the value that is given, and not on the default.
abbrev pub validated {ℓ} : {A : Type ℓ} → (A → Result A) → Option A → A → Result A
validated validate none default = returned default
validated validate (some v) default = validate v

pub record RouterConfig : Type 0 where
  pub host : Text
  pub name : Text
  pub snmp_username : Text
  pub snmp_auth_key : Text
  pub snmp_auth_protocol : Text
  pub snmp_port : ℤ
  pub snmp_timeout : ℤ
  pub wan_gateways : Dict Text
  pub wan_interfaces : Dict ℕ

-- `upper` is Python's `str.upper`.
unfoldable pub validate_snmp_auth_protocol : (Text → Text) → Text → Result Text
validate_snmp_auth_protocol upper v =
    if not (text_eq (upper v) (codes "MD5") || text_eq (upper v) (codes "SHA"))
    then raised
    else returned (upper v)

pub record PollingConfig : Type 0 where
  pub normal_interval : ℤ
  pub alert_interval : ℤ
  pub recovery_threshold : ℤ

unfoldable pub validate_interval : ℤ → Result ℤ
validate_interval v = if ltb_ℤ v (pos 10) then raised else returned v

-- `PollingConfig(...)`
unfoldable pub polling_config : Option ℤ → Option ℤ → Option ℤ → Result PollingConfig
unfolding validate_interval
polling_config normal alert threshold = validated validate_interval normal (pos 60) >>= λ n.
    validated validate_interval alert (pos 15) >>= λ a. returned record {
      normal_interval = n;
      alert_interval = a;
      recovery_threshold = given_or threshold (pos 5);
    }

pub record SyslogConfig : Type 0 where
  pub enabled : Bool
  pub port : ℤ
  pub bind_address : Text

abbrev pub syslog_config : Option Bool → Option ℤ → Option Text → SyslogConfig
syslog_config enabled port bind_address = record {
  enabled = given_or enabled true;
  port = given_or port (pos 514);
  bind_address = given_or bind_address (codes "0.0.0.0");
}

pub record LocalHeartbeatConfig : Type 0 where
  pub remote_url : Text
  pub interval : ℤ
  pub timeout : ℤ

abbrev pub local_heartbeat_config : Option Text → Option ℤ → Option ℤ → LocalHeartbeatConfig
local_heartbeat_config remote_url interval timeout = record {
  remote_url = given_or remote_url (codes "http://100.64.0.1:8080/heartbeat");
  interval = given_or interval (pos 60);
  timeout = given_or timeout (pos 10);
}

pub record LocalConfig : Type 0 where
  pub router : RouterConfig
  pub polling : PollingConfig
  pub syslog : SyslogConfig
  pub heartbeat : LocalHeartbeatConfig

pub record EnvConfig : Type 0 where
  pub telegram_bot_token : Text
  pub telegram_chat_id : Text
  pub snmp_auth_key : Option Text

-- What the file gives for `LocalConfig`: the required fields of the router, and each other field where
-- it is there; a section that is left out gives none of its fields.
pub record LocalFile : Type 0 where
  pub host : Text
  pub name : Option Text
  pub snmp_username : Text
  pub snmp_auth_key : Text
  pub snmp_auth_protocol : Option Text
  pub snmp_port : Option ℤ
  pub snmp_timeout : Option ℤ
  pub wan_gateways : Option (Dict Text)
  pub wan_interfaces : Option (Dict ℕ)
  pub normal_interval : Option ℤ
  pub alert_interval : Option ℤ
  pub recovery_threshold : Option ℤ
  pub syslog_enabled : Option Bool
  pub syslog_port : Option ℤ
  pub bind_address : Option Text
  pub remote_url : Option Text
  pub heartbeat_interval : Option ℤ
  pub heartbeat_timeout : Option ℤ

unfoldable pub router_config : (Text → Text) → LocalFile → Result RouterConfig
unfolding validate_snmp_auth_protocol
router_config upper f =
    validated (validate_snmp_auth_protocol upper) f.snmp_auth_protocol (codes "MD5") >>= λ protocol.
    returned record {
      host = f.host;
      name = given_or f.name (codes "router");
      snmp_username = f.snmp_username;
      snmp_auth_key = f.snmp_auth_key;
      snmp_auth_protocol = protocol;
      snmp_port = given_or f.snmp_port (pos 161);
      snmp_timeout = given_or f.snmp_timeout (pos 5);
      wan_gateways = given_or f.wan_gateways [];
      wan_interfaces = given_or f.wan_interfaces [];
    }

-- `LocalConfig(**data)`
unfoldable pub local_config : (Text → Text) → LocalFile → Result LocalConfig
unfolding router_config polling_config
local_config upper f = router_config upper f >>= λ router'.
    polling_config f.normal_interval f.alert_interval f.recovery_threshold >>= λ polling'.
    returned record {
      router = router';
      polling = polling';
      syslog = syslog_config f.syslog_enabled f.syslog_port f.bind_address;
      heartbeat = local_heartbeat_config f.remote_url f.heartbeat_interval f.heartbeat_timeout;
    }
