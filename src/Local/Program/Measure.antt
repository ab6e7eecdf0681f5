-- ===== src/Local/Program/Measure.antt =====
-- How many turns the loops of local/main.py have left after `stop`, and which event each waits for.
use wan_router_notifications.Common.{ℕ, ◌+◌, Bool, true, false}
use wan_router_notifications.Local.Monitor.Progress.{turns_left, awaited, width}
use wan_router_notifications.Local.Monitor.{Phase, ready, Monitor, polled, answered, woken}
use wan_router_notifications.Local.Program.{
  Stage, opening, gathering, done, Place, at_head, requesting, asleep, ended, Pause, to_test,
  napping, over, Program, Event, opened, poll_begun, poll_polled, poll_answered, poll_woken,
  heart_begun, heart_posted, heart_woken, status_begun, status_woken, datagram, signal,
}

-- How many turns are left at most, once the loops are told to stop.
abbrev pub poll_left : Bool → Monitor → ℕ
poll_left true m = 0
poll_left false m = turns_left (width m) m.phase

abbrev pub place_left : Place → ℕ
place_left at_head = 1
place_left asleep = 2
place_left requesting = 3
place_left ended = 0

abbrev pub pause_left : Pause → ℕ
pause_left to_test = 1
pause_left (napping d) = 2
pause_left over = 0

abbrev pub loops_left : Program → ℕ
loops_left p = poll_left p.poll_ended p.monitor + (place_left p.heart + pause_left p.status)

abbrev pub left_at : Stage → Program → ℕ
left_at opening p = loops_left p + 1
left_at gathering p = loops_left p
left_at done p = 0

abbrev pub left : Program → ℕ
left p = left_at p.stage p

-- 1 where a loop waits for the event
abbrev pub head_waits : Bool → Phase → ℕ
head_waits false ready = 1
head_waits _ _ = 0

abbrev pub poll_waits : Bool → ℕ → ℕ
poll_waits true n = 0
poll_waits false n = n

abbrev pub waits_at_head : Place → ℕ
waits_at_head at_head = 1
waits_at_head _ = 0

abbrev pub waits_for_answer : Place → ℕ
waits_for_answer requesting = 1
waits_for_answer _ = 0

abbrev pub waits_in_sleep : Place → ℕ
waits_in_sleep asleep = 1
waits_in_sleep _ = 0

abbrev pub waits_to_test : Pause → ℕ
waits_to_test to_test = 1
waits_to_test _ = 0

abbrev pub waits_in_nap : Pause → ℕ
waits_in_nap (napping d) = 1
waits_in_nap _ = 0

abbrev pub loop_waits : Event → Program → ℕ
loop_waits poll_begun p = head_waits p.poll_ended p.monitor.phase
loop_waits (poll_polled now route links clock) p =
    poll_waits p.poll_ended (awaited p.monitor.phase (polled now route links clock))
loop_waits (poll_answered bot clock) p =
    poll_waits p.poll_ended (awaited p.monitor.phase (answered bot clock))
loop_waits poll_woken p = poll_waits p.poll_ended (awaited p.monitor.phase woken)
loop_waits (heart_begun now post) p = waits_at_head p.heart
loop_waits heart_posted p = waits_for_answer p.heart
loop_waits heart_woken p = waits_in_sleep p.heart
loop_waits status_begun p = waits_to_test p.status
loop_waits status_woken p = waits_in_nap p.status
loop_waits _ p = 0

-- 1 where the program waits for the event
abbrev pub waits_at : Stage → Event → Program → ℕ
waits_at stage signal p = 0
waits_at stage (datagram now again t bytes) p = 0
waits_at opening (opened r) p = 1
waits_at gathering e p = loop_waits e p
waits_at _ _ p = 0

abbrev pub waits : Event → Program → ℕ
waits e p = waits_at p.stage e p
