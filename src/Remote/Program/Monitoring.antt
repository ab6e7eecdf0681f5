-- ===== src/Remote/Program/Monitoring.antt =====
-- The monitor loop of remote/main.py within the whole program, against the sentinel by itself.
use wan_router_notifications.Common.{
  ℕ, ◌≡◌, refl, sym, ap, ◌∙◌, Bool, true, false, not, ◌&&◌, List, [], ◌∷◌, ◌++◌, Option, some,
  if◌then◌else◌,
}
use wan_router_notifications.Common.Result.{Result, returned, raised}
use wan_router_notifications.Shared.Clock.{Instant}
use wan_router_notifications.Shared.Models.{AlertEvent}
use wan_router_notifications.Shared.Telegram.{send_alert, Bot}
use wan_router_notifications.Remote.DnsMonitor.{DnsMonitor, DnsAnswer, check as dns_check}
use wan_router_notifications.Remote.ExternalProbe.{HttpOutcome, check as probe_check}
use wan_router_notifications.Remote.HeartbeatStore.{receive_heartbeat}
use wan_router_notifications.Remote.Sentinel.{
  Sentinel, Phase, sleeping, probing, sending, Event as Own, heartbeat, woken, probed, answered,
  run as sentinel_run, step as sentinel_step,
}
use wan_router_notifications.Remote.Program.{
  ProbePlace, probe_running, DnsPlace, dns_head, dns_sending, Program, Event, posted, monitor_woken,
  monitor_probed, monitor_answered, probe_done, dns_checked, dns_answered, monitor_head, probe_ends,
  after_dns_check, dns_begins, after_dns_send, dns_answers, step_at, step, run,
}

-- what an event of the program is to the sentinel: nothing once the server has ended, and a wake-up
-- only while the monitor loop goes on
abbrev pub own : Bool → Event → Program → List Own
own false e p = []
own true (posted now later payload) p = heartbeat now payload ∷ []
own true (monitor_woken t recheck now) p =
    if not p.monitor_ended && p.running then woken t recheck now ∷ [] else []
own true (monitor_probed http connects fallback now) p =
    probed (probe_check p.probe http connects).0 fallback now ∷ []
own true (monitor_answered bot) p = answered bot ∷ []
own true _ p = []

abbrev pub owns : List Event → Program → List Own
owns [] p = []
owns (e ∷ es) p = own p.serving e p ++ owns es (step e p)

monitor_head-sentinel :
    (ended running : Bool) (phase : Phase) (t recheck now : Instant) (p : Program)
    → (monitor_head ended running phase t recheck now p).sentinel
      ≡ sentinel_run (if not ended && running then woken t recheck now ∷ [] else []) p.sentinel
unfolding sentinel_run
monitor_head-sentinel false true phase t recheck now p = refl
monitor_head-sentinel false false sleeping t recheck now p = refl
monitor_head-sentinel false false probing t recheck now p = refl
monitor_head-sentinel false false (sending n alert) t recheck now p = refl
monitor_head-sentinel true running phase t recheck now p = refl

probe_ends-sentinel :
    (place : ProbePlace) (http : HttpOutcome) (connects : ℕ → Bool) (p : Program)
    → (probe_ends place http connects p).sentinel ≡ p.sentinel
probe_ends-sentinel probe_running http connects p = refl
probe_ends-sentinel _ http connects p = refl

after_dns_check-sentinel :
    (m : DnsMonitor) (r : Result (List AlertEvent)) (p : Program)
    → (after_dns_check (m, r) p).sentinel ≡ p.sentinel
after_dns_check-sentinel m raised p = refl
after_dns_check-sentinel m (returned alerts) p = refl

dns_begins-sentinel :
    (now : Instant) (answer : DnsAnswer) (place : DnsPlace) (running : Bool) (m : Option DnsMonitor)
    (p : Program)
    → (dns_begins now answer place running m p).sentinel ≡ p.sentinel
dns_begins-sentinel now answer dns_head true (some m) p =
    let (m', r) = dns_check now answer m in after_dns_check-sentinel m' r p
dns_begins-sentinel now answer dns_head false m p = refl
dns_begins-sentinel now answer _ _ _ p = refl

after_dns_send-sentinel :
    (alert : AlertEvent) (rest : List AlertEvent) (r : Result Bool) (p : Program)
    → (after_dns_send alert rest r p).sentinel ≡ p.sentinel
after_dns_send-sentinel alert rest raised p = refl
after_dns_send-sentinel alert rest (returned ok) p = refl

dns_answers-sentinel :
    (bot : Bot) (place : DnsPlace) (p : Program) → (dns_answers bot place p).sentinel ≡ p.sentinel
dns_answers-sentinel bot (dns_sending alert rest) p =
    after_dns_send-sentinel alert rest (send_alert p.sentinel.telegram bot alert) p
dns_answers-sentinel bot _ p = refl

step_at-sentinel :
    (serving : Bool) (e : Event) (p : Program)
    → (step_at serving e p).sentinel ≡ sentinel_run (own serving e p) p.sentinel
unfolding step_at receive_heartbeat sentinel_run sentinel_step
step_at-sentinel false e p = refl
step_at-sentinel true (posted now later payload) p = refl
step_at-sentinel true (monitor_woken t recheck now) p =
    monitor_head-sentinel p.monitor_ended p.running p.sentinel.phase t recheck now p
step_at-sentinel true (monitor_probed http connects fallback now) p = refl
step_at-sentinel true (monitor_answered bot) p = refl
step_at-sentinel true (probe_done http connects) p =
    probe_ends-sentinel p.probe_place http connects p
step_at-sentinel true (dns_checked now answer) p =
    dns_begins-sentinel now answer p.dns_place p.running p.dns p
step_at-sentinel true (dns_answered bot) p = dns_answers-sentinel bot p.dns_place p
step_at-sentinel true _ p = refl

sentinel_run-append :
    (es fs : List Own) (s : Sentinel)
    → sentinel_run (es ++ fs) s ≡ sentinel_run fs (sentinel_run es s)
unfolding sentinel_run
sentinel_run-append [] fs s = refl
sentinel_run-append (e ∷ es) fs s = sentinel_run-append es fs (sentinel_step e s)

-- From any state of the program, whatever happens, to its three loops, its server or its flag: its
-- sentinel is at every moment where the sentinel by itself is brought by those of the events that are
-- its own.
pub sentinel_refined :
    (es : List Event) (p : Program) → (run es p).sentinel ≡ sentinel_run (owns es p) p.sentinel
unfolding run step sentinel_run
sentinel_refined [] p = refl
sentinel_refined (e ∷ es) p =
    sentinel_refined es (step_at p.serving e p)
    ∙ (ap (sentinel_run (owns es (step_at p.serving e p))) (step_at-sentinel p.serving e p)
        ∙ sym
            (sentinel_run-append (own p.serving e p) (owns es (step_at p.serving e p)) p.sentinel))
