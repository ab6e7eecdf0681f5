-- ===== src/System/Programs.antt =====
-- From the local program's monitor, over its heartbeat and the remote program's server, to the lost
-- alert.
use mathlib.Core.Path.{subst}
use wan_router_notifications.Common.{
  ◌≡◌, sym, ap, ◌∙◌, Bool, true, false, not, ◌&&◌, List, [], ◌∷◌, ◌++◌, inl, inr, Bool-cases,
}
use wan_router_notifications.Shared.Clock.{Instant}
use wan_router_notifications.Shared.Models.{HeartbeatPayload}
use wan_router_notifications.Local.Heartbeat.{PostOutcome}
use wan_router_notifications.Local.SyslogReceiver.Patterns.{Unicode}
use wan_router_notifications.Local.Program.Wiring.{beat-monitor}
use wan_router_notifications.Local.Program.{
  Program as LocalProgram, gathering, at_head, heart_begun, step as local_step,
}
use wan_router_notifications.Remote.Sentinel.LastHeartbeat.{Tells}
use wan_router_notifications.Remote.Sentinel.Outage.{NoHeartbeat}
use wan_router_notifications.Remote.Sentinel.{
  sleeping, Event as Own, heartbeat, run as sentinel_run,
}
use wan_router_notifications.Remote.Program.Monitoring.{own, owns, sentinel_refined}
use wan_router_notifications.Remote.Program.{
  Program as RemoteProgram, Event, posted, monitor_woken, monitor_probed, monitor_answered, step,
  run,
}
use wan_router_notifications.System.LastState.{lost_alert_states}

-- No heartbeat is posted.
abbrev pub NonePosted : List Event → Type 0
NonePosted [] = Unit {0}
NonePosted (posted now later payload ∷ es) = ⊥
NonePosted (_ ∷ es) = NonePosted es

own-NoHeartbeat :
    (b : Bool) (e : Event) (es : List Event) (q : RemoteProgram) (rest : List Own)
    → NonePosted (e ∷ es)
    → (NonePosted es → NoHeartbeat rest)
    → NoHeartbeat (own b e q ++ rest)
own-NoHeartbeat true (posted now later payload) es q rest n f = elim n [ ]
own-NoHeartbeat true (monitor_woken t recheck now) es q rest n f =
    elim (Bool-cases (not q.monitor_ended && q.running)) [
      | inl goes ↦ rw goes (f n)
      | inr over ↦ rw over (f n)
    ]
own-NoHeartbeat false (posted now later payload) es q rest n f = elim n [ ]
own-NoHeartbeat false (monitor_woken t recheck now) es q rest n f = f n
own-NoHeartbeat true (monitor_probed http connects fallback now) es q rest n f = f n
own-NoHeartbeat true (monitor_answered bot) es q rest n f = f n
own-NoHeartbeat false (monitor_probed http connects fallback now) es q rest n f = f n
own-NoHeartbeat false (monitor_answered bot) es q rest n f = f n
own-NoHeartbeat true _ es q rest n f = f n
own-NoHeartbeat false _ es q rest n f = f n

owns-NoHeartbeat : (es : List Event) (q : RemoteProgram) → NonePosted es → NoHeartbeat (owns es q)
owns-NoHeartbeat [] q n = tt
owns-NoHeartbeat (e ∷ es) q n =
    own-NoHeartbeat q.serving e es q (owns es (step e q)) n (owns-NoHeartbeat es (step e q))

-- Where the heartbeat loop of a local program that runs is at its head and posts a payload, this
-- arrives at a remote program whose server runs and whose monitor loop sleeps, and no other is posted
-- after it: whatever else happens to the remote program, a lost alert that it then sends tells of that
-- heartbeat's time and of the WAN states that the local program's alert engine had last processed.
pub programs_lost_alert :
    (u : Unicode) (p : LocalProgram) (now t later : Instant) (post : HeartbeatPayload → PostOutcome)
    (payload : HeartbeatPayload) (q : RemoteProgram) (es : List Event)
    → p.stage ≡ gathering
    → p.heart ≡ at_head
    → p.running ≡ true
    → (local_step u (heart_begun now post) p).monitor.posted ≡ payload ∷ p.monitor.posted
    → q.serving ≡ true
    → q.sentinel.phase ≡ sleeping
    → NonePosted es
    → Tells t p.monitor.engine.previous_wan (run (posted t later payload ∷ es) q).sentinel.phase
programs_lost_alert u p now t later post payload q es gathers waits runs posts serves sleeps none =
    let e = posted t later payload in
    let rest = owns es (step e q) in
    let alone =
      lost_alert_states p.monitor now t post payload q.sentinel rest
        (ap (λ m. m.posted) (sym (beat-monitor u now post p gathers waits runs)) ∙ posts) sleeps
        (owns-NoHeartbeat es (step e q) none) in
    let arrives : sentinel_run (owns (e ∷ es) q) q.sentinel
        ≡ sentinel_run (heartbeat t payload ∷ rest) q.sentinel =
      ap (λ b. sentinel_run (own b e q ++ rest) q.sentinel) serves in
    subst (λ s. Tells t p.monitor.engine.previous_wan s.phase)
      (sym (sentinel_refined (e ∷ es) q ∙ arrives)) alone
