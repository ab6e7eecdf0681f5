-- ===== src/Shared/Config/Remote.antt =====
-- The sections of shared/config.py for the remote sentinel, and their defaults. Nothing of them is
-- validated beyond its type.
use wan_router_notifications.Common.{Bool, false, [], Option}
use wan_router_notifications.Common.Int.{ℤ, pos}
use wan_router_notifications.Common.Text.{Text, codes}
use wan_router_notifications.Shared.Config.{given_or}

pub record RemoteHeartbeatConfig : Type 0 where
  pub expected_interval : ℤ
  pub missed_threshold : ℤ
  pub listen_host : Text
  pub listen_port : ℤ

pub record ExternalProbeConfig : Type 0 where
  pub enabled : Bool
  pub target_ip : Text
  pub interval : ℤ
  pub timeout : ℤ

pub record DnsMonitorConfig : Type 0 where
  pub enabled : Bool
  pub hostname : Text
  pub expected_ip : Text
  pub interval : ℤ

pub record RemoteConfig : Type 0 where
  pub heartbeat : RemoteHeartbeatConfig
  pub external_probe : ExternalProbeConfig
  pub dns_monitor : DnsMonitorConfig

-- What the file gives for each section; a section that is left out gives none of its fields.
pub record HeartbeatSection : Type 0 where
  pub expected_interval : Option ℤ
  pub missed_threshold : Option ℤ
  pub listen_host : Option Text
  pub listen_port : Option ℤ

pub record ProbeSection : Type 0 where
  pub enabled : Option Bool
  pub target_ip : Option Text
  pub interval : Option ℤ
  pub timeout : Option ℤ

pub record DnsSection : Type 0 where
  pub enabled : Option Bool
  pub hostname : Option Text
  pub expected_ip : Option Text
  pub interval : Option ℤ

abbrev pub heartbeat_config : HeartbeatSection → RemoteHeartbeatConfig
heartbeat_config f = record {
  expected_interval = given_or f.expected_interval (pos 60);
  missed_threshold = given_or f.missed_threshold (pos 3);
  listen_host = given_or f.listen_host (codes "100.64.0.1");
  listen_port = given_or f.listen_port (pos 8080);
}

abbrev pub probe_config : ProbeSection → ExternalProbeConfig
probe_config f = record {
  enabled = given_or f.enabled false;
  target_ip = given_or f.target_ip [];
  interval = given_or f.interval (pos 300);
  timeout = given_or f.timeout (pos 10);
}

abbrev pub dns_config : DnsSection → DnsMonitorConfig
dns_config f = record {
  enabled = given_or f.enabled false;
  hostname = given_or f.hostname [];
  expected_ip = given_or f.expected_ip [];
  interval = given_or f.interval (pos 300);
}

-- `RemoteConfig(**data)`
unfoldable pub remote_config : HeartbeatSection → ProbeSection → DnsSection → RemoteConfig
remote_config heartbeat' probe dns = record {
  heartbeat = heartbeat_config heartbeat';
  external_probe = probe_config probe;
  dns_monitor = dns_config dns;
}
