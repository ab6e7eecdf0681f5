-- ===== src/Local/Program/Turns.antt =====
-- A turn of one of the loops of local/main.py: what it leaves of the measure, and what it keeps.
use mathlib.Core.Path.{subst}
use wan_router_notifications.Common.{
  ◌+◌, ◌≤◌, ◌≡◌, refl, sym, Bool, true, false, Option, none, some, arith,
}
use wan_router_notifications.Shared.Clock.{Instant}
use wan_router_notifications.Local.SyslogReceiver.{SyslogReceiver}
use wan_router_notifications.Local.Monitor.Progress.{awaited, NotBegun, step-left}
use wan_router_notifications.Local.Monitor.{
  Phase, ready, Monitor, polled, answered, woken, Event as MonitorEvent, step as monitor_step,
}
use wan_router_notifications.Local.Program.{
  World, Place, at_head, requesting, asleep, Pause, to_test, napping, Program, Event, poll_begun,
  poll_polled, poll_answered, poll_woken, heart_begun, heart_posted, heart_woken, status_begun,
  status_woken, poll_head, heart_head, heart_sleeps, heart_wakes, status_head, status_wakes, turn,
}
use wan_router_notifications.Local.Program.Measure.{
  poll_left, place_left, pause_left, loops_left, head_waits, poll_waits, waits_at_head,
  waits_for_answer, waits_in_sleep, waits_to_test, waits_in_nap, loop_waits,
}

poll_head-left :
    (b : Bool) (phase : Phase) (p : Program)
    → p.poll_ended ≡ b
    → p.monitor.phase ≡ phase
    → loops_left (poll_head b false phase p) + head_waits b phase ≤ loops_left p
poll_head-left false ready p q r = rw (q, r) (omega arith)
poll_head-left _ _ p q r = omega arith

heart_head-left :
    (now : Instant) (post : _) (place : Place) (p : Program)
    → p.heart ≡ place
    → loops_left (heart_head now post place false p) + waits_at_head place ≤ loops_left p
heart_head-left now post at_head p q = rw q (omega arith)
heart_head-left now post _ p q = omega arith

heart_sleeps-left :
    (place : Place) → place_left (heart_sleeps place) + waits_for_answer place ≤ place_left place
heart_sleeps-left requesting = omega arith
heart_sleeps-left _ = omega arith

heart_wakes-left :
    (place : Place) → place_left (heart_wakes place) + waits_in_sleep place ≤ place_left place
heart_wakes-left asleep = omega arith
heart_wakes-left _ = omega arith

status_head-left :
    (pause : Pause) → pause_left (status_head pause false) + waits_to_test pause ≤ pause_left pause
status_head-left to_test = omega arith
status_head-left _ = omega arith

status_wakes-left :
    (pause : Pause) (o : Option (SyslogReceiver World)) (p : Program)
    → p.status ≡ pause
    → loops_left (status_wakes pause o p) + waits_in_nap pause ≤ loops_left p
status_wakes-left (napping d) none p q = rw q (omega arith)
status_wakes-left (napping d) (some r) p q = rw q (omega arith)
status_wakes-left _ _ p q = omega arith

pub poll_turn-left :
    (b : Bool) (e : MonitorEvent) (m : Monitor)
    → NotBegun e
    → poll_left b (monitor_step e m) + poll_waits b (awaited m.phase e) ≤ poll_left b m
poll_turn-left true e m n = omega arith
poll_turn-left false e m n = step-left e m n

-- A turn that a loop waits for is one less that is left, and no other takes a loop back.
pub turn-left :
    (e : Event) (p : Program)
    → p.running ≡ false
    → loops_left (turn e p) + loop_waits e p ≤ loops_left p
unfolding turn
turn-left poll_begun p s =
    subst
      (λ r.
        loops_left (poll_head p.poll_ended r p.monitor.phase p)
          + head_waits p.poll_ended p.monitor.phase
        ≤ loops_left p)
      (sym s) (poll_head-left p.poll_ended p.monitor.phase p refl refl)
turn-left (poll_polled now route links clock) p s =
    omega (arith, poll_turn-left p.poll_ended (polled now route links clock) p.monitor tt)
turn-left (poll_answered bot clock) p s =
    omega (arith, poll_turn-left p.poll_ended (answered bot clock) p.monitor tt)
turn-left poll_woken p s = omega (arith, poll_turn-left p.poll_ended woken p.monitor tt)
turn-left (heart_begun now post) p s =
    subst (λ r. loops_left (heart_head now post p.heart r p) + waits_at_head p.heart ≤ loops_left p)
      (sym s) (heart_head-left now post p.heart p refl)
turn-left heart_posted p s = omega (arith, heart_sleeps-left p.heart)
turn-left heart_woken p s = omega (arith, heart_wakes-left p.heart)
turn-left status_begun p s =
    subst
      (λ r.
        loops_left (record p { status = status_head p.status r }) + waits_to_test p.status
        ≤ loops_left p)
      (sym s) (omega (arith, status_head-left p.status))
turn-left status_woken p s = status_wakes-left p.status p.receiver p refl
turn-left _ p s = omega arith

abbrev pub Fixed : Program → Program → Type 0
Fixed p q = (q.stage ≡ p.stage) × (q.running ≡ p.running)

poll_head-Fixed :
    (b running : Bool) (phase : Phase) (p : Program) → Fixed p (poll_head b running phase p)
poll_head-Fixed false true ready p = (refl, refl)
poll_head-Fixed false false ready p = (refl, refl)
poll_head-Fixed _ _ _ p = (refl, refl)

heart_head-Fixed :
    (now : Instant) (post : _) (place : Place) (running : Bool) (p : Program)
    → Fixed p (heart_head now post place running p)
heart_head-Fixed now post at_head true p = (refl, refl)
heart_head-Fixed now post at_head false p = (refl, refl)
heart_head-Fixed now post _ _ p = (refl, refl)

status_wakes-Fixed :
    (pause : Pause) (o : Option (SyslogReceiver World)) (p : Program)
    → Fixed p (status_wakes pause o p)
status_wakes-Fixed (napping d) none p = (refl, refl)
status_wakes-Fixed (napping d) (some r) p = (refl, refl)
status_wakes-Fixed _ _ p = (refl, refl)

pub turn-Fixed : (e : Event) (p : Program) → Fixed p (turn e p)
unfolding turn
turn-Fixed poll_begun p = poll_head-Fixed p.poll_ended p.running p.monitor.phase p
turn-Fixed (heart_begun now post) p = heart_head-Fixed now post p.heart p.running p
turn-Fixed status_woken p = status_wakes-Fixed p.status p.receiver p
turn-Fixed (poll_polled now route links clock) p = (refl, refl)
turn-Fixed (poll_answered bot clock) p = (refl, refl)
turn-Fixed poll_woken p = (refl, refl)
turn-Fixed heart_posted p = (refl, refl)
turn-Fixed heart_woken p = (refl, refl)
turn-Fixed status_begun p = (refl, refl)
turn-Fixed _ p = (refl, refl)
