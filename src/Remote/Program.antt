-- ===== src/Remote/Program.antt =====
-- `RemoteSentinel` of remote/main.py as the event loop runs it: the server, the monitor loop, which is
-- that of `Sentinel`, the probe loop and the DNS loop, cut at their `await` points.
pub mod Monitoring
pub mod OnTime
pub mod Alternates
pub mod Dns
pub mod Tests
use wan_router_notifications.Common.{
  ℕ, Bool, true, false, ◌&&◌, List, [], ◌∷◌, ◌++◌, Option, none, some, if◌then◌else◌,
}
use wan_router_notifications.Common.Int.{ℤ, pos}
use wan_router_notifications.Common.Result.{Result, returned, raised}
use wan_router_notifications.Common.Text.{Text}
use wan_router_notifications.Shared.Clock.{Instant}
use wan_router_notifications.Shared.Config.{EnvConfig}
use wan_router_notifications.Shared.Config.Remote.{RemoteConfig}
use wan_router_notifications.Shared.Models.{AlertEvent, HeartbeatPayload}
use wan_router_notifications.Shared.Telegram.{TelegramNotifier, new_notifier, Bot, send_alert}
use wan_router_notifications.Remote.HeartbeatStore.{receive_heartbeat}
use wan_router_notifications.Remote.DnsMonitor.{DnsMonitor, DnsAnswer, check as dns_check}
use wan_router_notifications.Remote.DnsLoop.{configured}
use wan_router_notifications.Remote.ExternalProbe.{
  ProbeResult, ExternalProbe, new_probe, HttpOutcome, check as probe_check,
}
use wan_router_notifications.Remote.Sentinel.{
  Phase, sleeping, Sentinel, new_sentinel, woken, probed, answered, heartbeat,
  step as sentinel_step,
}

-- Where the probe loop waits: at its head, in its sleep, in `probe.check()`; or it has ended.
pub data ProbePlace : Type 0 where
  probe_head probe_asleep probe_running probe_ended : ProbePlace

-- Where the DNS loop waits: at its head, in `send_alert(alert)` with the alerts that are left, in its
-- sleep; or it has ended.
pub data DnsPlace : Type 0 where
  dns_head : DnsPlace
  dns_sending : AlertEvent → List AlertEvent → DnsPlace
  dns_asleep : ℤ → DnsPlace
  dns_ended : DnsPlace

-- `dns_sent` and `probe_log` are not part of the program: they record the alerts of the DNS loop whose
-- sending returned, in order, and the results that the probe loop logs, the newest first. `serving` is
-- whether `start` is in `server.serve()`.
pub record Program : Type 0 where
  pub running : Bool
  pub serving : Bool
  pub sentinel : Sentinel
  pub monitor_ended : Bool
  pub probe : ExternalProbe
  pub probe_place : ProbePlace
  pub probe_log : List ProbeResult
  pub dns : Option DnsMonitor
  pub dns_place : DnsPlace
  pub dns_interval : ℤ
  pub dns_sent : List AlertEvent

-- `if not self.probe.enabled: return` and `if not self.dns_monitor: return`
abbrev pub first_probe_place : Bool → ProbePlace
first_probe_place true = probe_head
first_probe_place false = probe_ended

abbrev pub first_dns_place : Option DnsMonitor → DnsPlace
first_dns_place none = dns_ended
first_dns_place (some m) = dns_head

-- `RemoteSentinel(...)`, and `start` up to `server.serve()`
unfoldable pub launch : RemoteConfig → EnvConfig → Bool → Program
unfolding new_sentinel new_notifier new_probe configured
launch config env mock_telegram =
    let probe' = new_probe config.external_probe.target_ip config.external_probe.enabled in
    let dns' =
      configured config.dns_monitor.enabled config.dns_monitor.hostname
        config.dns_monitor.expected_ip in
    record {
      running = true;
      serving = true;
      sentinel =
          new_sentinel config.heartbeat.expected_interval config.heartbeat.missed_threshold
            (new_notifier env.telegram_bot_token env.telegram_chat_id mock_telegram);
      monitor_ended = false;
      probe = probe';
      probe_place = first_probe_place probe'.enabled;
      probe_log = [];
      dns = dns';
      dns_place = first_dns_place dns';
      dns_interval = config.dns_monitor.interval;
      dns_sent = [];
    }

-- What can happen next, while the server runs: a heartbeat is posted, with the clock's values at its
-- recording and in the response; a loop goes on from where it waits; `stop` is called; and
-- `server.serve()` ends.
pub data Event : Type 0 where
  posted : Instant → Instant → HeartbeatPayload → Event
  monitor_woken : Instant → Instant → Instant → Event
  monitor_probed : HttpOutcome → (ℕ → Bool) → Instant → Instant → Event
  monitor_answered : Bot → Event
  probe_begun : Event
  probe_woken : Event
  probe_done : HttpOutcome → (ℕ → Bool) → Event
  dns_checked : Instant → DnsAnswer → Event
  dns_answered : Bot → Event
  dns_woken : Event
  stop_called : Event
  served : Event

-- `while self._running` of the monitor loop after its sleep
abbrev pub monitor_head : Bool → Bool → Phase → Instant → Instant → Instant → Program → Program
monitor_head false true phase t recheck now p = record p {
  sentinel = sentinel_step (woken t recheck now) p.sentinel;
}
monitor_head false false sleeping t recheck now p = record p { monitor_ended = true }
monitor_head _ _ _ t recheck now p = p

abbrev pub probe_begins : ProbePlace → Bool → ProbePlace
probe_begins probe_head true = probe_asleep
probe_begins probe_head false = probe_ended
probe_begins place running = place

abbrev pub probe_wakes : ProbePlace → ProbePlace
probe_wakes probe_asleep = probe_running
probe_wakes place = place

abbrev pub probe_ends : ProbePlace → HttpOutcome → (ℕ → Bool) → Program → Program
probe_ends probe_running http connects p = record p {
  probe_place = probe_head;
  probe_log = (probe_check p.probe http connects).0 ∷ p.probe_log;
}
probe_ends _ http connects p = p

-- the `for` loop over the alerts from its next turn, to a send or to the sleep
abbrev pub dns_next : ℤ → List AlertEvent → DnsPlace
dns_next interval [] = dns_asleep interval
dns_next interval (alert ∷ rest) = dns_sending alert rest

-- what `check` gives; an exception goes to the handler
abbrev pub after_dns_check : DnsMonitor × Result (List AlertEvent) → Program → Program
after_dns_check (m, raised) p = record p { dns = some m; dns_place = dns_asleep (pos 60) }
after_dns_check (m, returned alerts) p = record p {
  dns = some m;
  dns_place = dns_next p.dns_interval alerts;
}

abbrev pub dns_begins :
    Instant → DnsAnswer → DnsPlace → Bool → Option DnsMonitor → Program → Program
dns_begins now answer dns_head true (some m) p = after_dns_check (dns_check now answer m) p
dns_begins now answer dns_head false m p = record p { dns_place = dns_ended }
dns_begins now answer _ _ _ p = p

abbrev pub after_dns_send : AlertEvent → List AlertEvent → Result Bool → Program → Program
after_dns_send alert rest raised p = record p { dns_place = dns_asleep (pos 60) }
after_dns_send alert rest (returned ok) p = record p {
  dns_place = dns_next p.dns_interval rest;
  dns_sent = p.dns_sent ++ alert ∷ [];
}

abbrev pub dns_answers : Bot → DnsPlace → Program → Program
dns_answers bot (dns_sending alert rest) p =
    after_dns_send alert rest (send_alert p.sentinel.telegram bot alert) p
dns_answers bot _ p = p

abbrev pub dns_wakes : DnsPlace → DnsPlace
dns_wakes (dns_asleep d) = dns_head
dns_wakes place = place

-- `served`: the `finally` of `start` cancels the three tasks, which catch no CancelledError.
step_at : Bool → Event → Program → Program
step_at false e p = p
step_at true (posted now later payload) p = record p {
  sentinel = record p.sentinel { store = (receive_heartbeat now later payload p.sentinel.store).0 };
}
step_at true (monitor_woken t recheck now) p =
    monitor_head p.monitor_ended p.running p.sentinel.phase t recheck now p
step_at true (monitor_probed http connects fallback now) p = record p {
  sentinel = sentinel_step (probed (probe_check p.probe http connects).0 fallback now) p.sentinel;
}
step_at true (monitor_answered bot) p = record p {
  sentinel = sentinel_step (answered bot) p.sentinel;
}
step_at true probe_begun p = record p { probe_place = probe_begins p.probe_place p.running }
step_at true probe_woken p = record p { probe_place = probe_wakes p.probe_place }
step_at true (probe_done http connects) p = probe_ends p.probe_place http connects p
step_at true (dns_checked now answer) p = dns_begins now answer p.dns_place p.running p.dns p
step_at true (dns_answered bot) p = dns_answers bot p.dns_place p
step_at true dns_woken p = record p { dns_place = dns_wakes p.dns_place }
step_at true stop_called p = record p { running = false }
step_at true served p = record p { running = false; serving = false }

unfoldable pub step : Event → Program → Program
unfolding step_at receive_heartbeat probe_check dns_check send_alert
step e p = step_at p.serving e p

unfoldable pub run : List Event → Program → Program
run [] p = p
run (e ∷ es) p = run es (step e p)
