-- ===== src/Remote/DnsMonitor.antt =====
-- remote/dns_monitor.py. What `socket.getaddrinfo` gives is an argument.
pub mod History
mod Tests
use wan_router_notifications.Common.{
  ℕ, ◌+◌, Bool, true, false, not, ◌&&◌, List, [], ◌∷◌, ◌++◌, Option, none, some, leb, if◌then◌else◌,
}
use wan_router_notifications.Common.Result.{Result, returned, raised}
use wan_router_notifications.Common.Text.{Text, codes, decimal, join, text_eq, is_truthy}
use wan_router_notifications.Shared.Clock.{Instant, strftime}
use wan_router_notifications.Shared.Models.{AlertEvent, warning, critical}

-- The addresses found, a `socket.gaierror`, or another exception.
pub data DnsAnswer : Type 0 where
  addresses : List Text → DnsAnswer
  gaierror : DnsAnswer
  other_error : DnsAnswer

unfoldable pub resolve_hostname : DnsAnswer → Result (Option Text)
resolve_hostname (addresses []) = returned none
resolve_hostname (addresses (ip ∷ rest)) = returned (some ip)
resolve_hostname gaierror = returned none
resolve_hostname other_error = raised

pub record DnsMonitor : Type 0 where
  pub hostname : Text
  pub expected_ip : Text
  pub last_seen_ip : Option Text
  pub consecutive_failures : ℕ

unfoldable pub new_monitor : Text → Text → DnsMonitor
new_monitor hostname expected_ip = record {
  hostname = hostname;
  expected_ip = expected_ip;
  last_seen_ip = none;
  consecutive_failures = 0;
}

-- `self.last_seen_ip or 'none'`
abbrev or_none : Option Text → Text
or_none none = codes "none"
or_none (some ip) = if is_truthy ip then ip else codes "none"

pub failure_alert : Instant → DnsMonitor → AlertEvent
failure_alert now m = record {
  severity = warning;
  category = codes "dns";
  title = codes "DNS resolution failed for " ++ m.hostname;
  message = join (codes "\n") (
      (codes "Failed to resolve " ++ m.hostname)
      ∷ (codes "Consecutive failures: " ++ decimal m.consecutive_failures)
      ∷ (codes "Last known IP: " ++ or_none m.last_seen_ip)
      ∷ []);
  timestamp = now;
  metadata = [];
}

pub change_alert : Instant → Text → Text → DnsMonitor → AlertEvent
change_alert now old current m = record {
  severity = warning;
  category = codes "dns";
  title = codes "DNS record changed for " ++ m.hostname;
  message = join (codes "\n") (
      (codes "IP changed: " ++ (old ++ (codes " → " ++ current)))
      ∷ (codes "Time: " ++ strftime now)
      ∷ []);
  timestamp = now;
  metadata = [];
}

pub mismatch_alert : Instant → Text → DnsMonitor → AlertEvent
mismatch_alert now current m = record {
  severity = critical;
  category = codes "dns";
  title = codes "DNS mismatch for " ++ m.hostname;
  message = join (codes "\n") (
      (codes "Current IP: " ++ current)
      ∷ (codes "Expected IP: " ++ m.expected_ip)
      ∷ (codes "Time: " ++ strftime now)
      ∷ []);
  timestamp = now;
  metadata = [];
}

unfoldable pub change_alerts : Instant → Option Text → Text → DnsMonitor → List AlertEvent
change_alerts now none current m = []
change_alerts now (some old) current m =
    if not (text_eq current old) then change_alert now old current m ∷ [] else []

unfoldable pub mismatch_alerts : Instant → Text → DnsMonitor → List AlertEvent
mismatch_alerts now current m =
    if is_truthy m.expected_ip && not (text_eq current m.expected_ip)
    then mismatch_alert now current m ∷ []
    else []

-- the rest of `check` once the name is resolved, or is not
unfoldable pub judge :
    Instant → DnsMonitor → Result (Option Text) → DnsMonitor × Result (List AlertEvent)
unfolding change_alerts mismatch_alerts
judge now m raised = (m, raised)
judge now m (returned none) =
    let m' = record m { consecutive_failures = m.consecutive_failures + 1 } in
    (m', returned (if leb 2 m'.consecutive_failures then failure_alert now m' ∷ [] else []))
judge now m (returned (some current)) =
    let m' = record m { consecutive_failures = 0 } in
    (
      record m' { last_seen_ip = some current },
      returned (change_alerts now m'.last_seen_ip current m' ++ mismatch_alerts now current m'),
    )

unfoldable pub check : Instant → DnsAnswer → DnsMonitor → DnsMonitor × Result (List AlertEvent)
unfolding judge resolve_hostname
check now answer m = judge now m (resolve_hostname answer)
