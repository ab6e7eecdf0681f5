-- ===== src/Local/Program/Delay.antt =====
-- What `stop` of local/main.py cannot do: wake a loop.
use mathlib.Core.Path.{subst}
use wan_router_notifications.Common.{
  map, ◌+◌, ◌*◌, ◌<◌, ◌≤◌, ◌≢◌, ◌≡◌, refl, sym, ap, ◌∙◌, Bool, true, false, List, [], ◌∷◌, Option,
  none, some, arith, ℕ,
}
use wan_router_notifications.Shared.Clock.{Instant}
use wan_router_notifications.Shared.Models.{HeartbeatPayload}
use wan_router_notifications.Local.Heartbeat.{PostOutcome}
use wan_router_notifications.Local.SyslogReceiver.Patterns.{Unicode}
use wan_router_notifications.Local.SyslogReceiver.{SyslogReceiver}
use wan_router_notifications.Local.Monitor.{Phase, ready}
use wan_router_notifications.Local.Program.Turns.{turn-Fixed}
use wan_router_notifications.Local.Program.{
  World, Stage, opening, gathering, Place, at_head, Pause, to_test, napping, Program, Event, opened,
  poll_begun, poll_polled, poll_answered, poll_woken, heart_begun, heart_posted, heart_woken,
  status_begun, status_woken, datagram, signal, stop, poll_head, heart_head, status_head, turn,
  all_ended, close_if, on_datagram, step_at, step, run,
}

-- no `status_woken` among the events
abbrev pub StatusSleeps : List Event → Type 0
StatusSleeps [] = Unit {0}
StatusSleeps (status_woken ∷ es) = ⊥
StatusSleeps (_ ∷ es) = StatusSleeps es

StatusSleeps-head :
    (e : Event) (es : List Event) → StatusSleeps (e ∷ es) → StatusSleeps (e ∷ []) × StatusSleeps es
StatusSleeps-head status_woken es h = elim h [ ]
StatusSleeps-head _ es h = (tt, h)

poll_head-status :
    (b running : Bool) (phase : Phase) (p : Program)
    → (poll_head b running phase p).status ≡ p.status
poll_head-status false true ready p = refl
poll_head-status false false ready p = refl
poll_head-status _ _ _ p = refl

heart_head-status :
    (now : Instant) (post : HeartbeatPayload → PostOutcome) (place : Place) (running : Bool)
    (p : Program)
    → (heart_head now post place running p).status ≡ p.status
heart_head-status now post at_head true p = refl
heart_head-status now post at_head false p = refl
heart_head-status now post _ _ p = refl

turn-napping :
    (d : ℕ) (e : Event) (p : Program)
    → StatusSleeps (e ∷ [])
    → p.status ≡ napping d
    → (turn e p).status ≡ napping d
unfolding turn
turn-napping d status_woken p n s = elim n [ ]
turn-napping d poll_begun p n s = poll_head-status p.poll_ended p.running p.monitor.phase p ∙ s
turn-napping d (heart_begun now post) p n s = heart_head-status now post p.heart p.running p ∙ s
turn-napping d status_begun p n s = ap (λ t. status_head t p.running) s
turn-napping d _ p n s = s

opening_not_gathering : opening ≢ gathering
opening_not_gathering e = cc

-- The status loop sleeps, and `gather` waits for it.
abbrev Naps : ℕ → Program → Type 0
Naps d p = (p.stage ≡ gathering) × (p.status ≡ napping d)

close_if-Naps : (d : ℕ) (b : Bool) (p : Program) → b ≡ false → Naps d p → Naps d (close_if b p)
close_if-Naps d true p e h = cc
close_if-Naps d false p e h = h

napping-all_ended : (d : ℕ) (p : Program) → p.status ≡ napping d → all_ended p ≡ false
napping-all_ended d p s = ground (arith, s)

module _ (u : Unicode) (d : ℕ) where
  on_datagram-Naps :
      (now again t : Instant) (bytes : List ℕ) (listening : Bool)
      (o : Option (SyslogReceiver World)) (p : Program)
      → Naps d p
      → Naps d (on_datagram u now again t bytes listening o p)
  on_datagram-Naps now again t bytes true (some r) p h = h
  on_datagram-Naps now again t bytes true none p h = h
  on_datagram-Naps now again t bytes false o p h = h

  step_at-Naps :
      (stage : Stage) (e : Event) (p : Program)
      → p.stage ≡ stage
      → StatusSleeps (e ∷ [])
      → Naps d p
      → Naps d (step_at u stage e p)
  unfolding step_at stop
  step_at-Naps stage signal p s n h = h
  step_at-Naps stage (datagram now again t bytes) p s n h =
      on_datagram-Naps now again t bytes p.listening p.receiver p h
  step_at-Naps gathering e p s n h =
      let q = turn e p in
      let naps = turn-napping d e p n h.1 in
      close_if-Naps d (all_ended q) q (napping-all_ended d q naps) ((turn-Fixed e p).0 ∙ h.0, naps)
  step_at-Naps opening e p s n h = absurd (opening_not_gathering (sym s ∙ h.0))
  step_at-Naps _ _ p s n h = h

  run-Naps : (es : List Event) (p : Program) → StatusSleeps es → Naps d p → Naps d (run u es p)
  unfolding run step
  run-Naps [] p n h = h
  run-Naps (e ∷ es) p n h =
      let (first, rest) = StatusSleeps-head e es n in
      run-Naps es (step u e p) rest (step_at-Naps p.stage e p refl first h)

-- Every event comes before `t`.
abbrev pub AllBefore : Instant → List (Instant × Event) → Type 0
AllBefore t [] = Unit {0}
AllBefore t ((at, e) ∷ es) = (at < t) × AllBefore t es

-- A sleep that began at `t` does not end before its time, which `asyncio.sleep` promises.
abbrev pub NapLasts : Instant → Pause → List (Instant × Event) → Type 0
NapLasts t (napping d) [] = Unit {0}
NapLasts t (napping d) ((at, status_woken) ∷ es) =
    (t + d * 1000000 ≤ at) × NapLasts t (napping d) es
NapLasts t (napping d) (_ ∷ es) = NapLasts t (napping d) es
NapLasts t _ es = Unit {0}

abbrev pub events : List (Instant × Event) → List Event
events = map (λ e. e.1)

not_yet :
    (t : Instant) (d : ℕ) (es : List (Instant × Event))
    → NapLasts t (napping d) es
    → AllBefore (t + d * 1000000) es
    → StatusSleeps (events es)
not_yet t d [] h b = tt
not_yet t d ((at, status_woken) ∷ es) (ends, h) (before, b) = absurd (omega arith)
not_yet t d ((at, opened r) ∷ es) h (before, b) = not_yet t d es h b
not_yet t d ((at, poll_begun) ∷ es) h (before, b) = not_yet t d es h b
not_yet t d ((at, poll_polled now route links clock) ∷ es) h (before, b) = not_yet t d es h b
not_yet t d ((at, poll_answered bot clock) ∷ es) h (before, b) = not_yet t d es h b
not_yet t d ((at, poll_woken) ∷ es) h (before, b) = not_yet t d es h b
not_yet t d ((at, heart_begun now post) ∷ es) h (before, b) = not_yet t d es h b
not_yet t d ((at, heart_posted) ∷ es) h (before, b) = not_yet t d es h b
not_yet t d ((at, heart_woken) ∷ es) h (before, b) = not_yet t d es h b
not_yet t d ((at, status_begun) ∷ es) h (before, b) = not_yet t d es h b
not_yet t d ((at, datagram now again later bytes) ∷ es) h (before, b) = not_yet t d es h b
not_yet t d ((at, signal) ∷ es) h (before, b) = not_yet t d es h b

-- the status loop begins its sleep
begins_nap :
    (u : Unicode) (p : Program)
    → p.stage ≡ gathering
    → p.status ≡ to_test
    → p.running ≡ true
    → Naps 300 (step u status_begun p)
unfolding step step_at turn
begins_nap u p g s r =
    let q : Program = turn status_begun p in
    let naps : q.status ≡ napping 300 =
      ap (λ x. status_head x p.running) s ∙ ap (λ b. status_head to_test b) r in
    subst (λ x. Naps 300 (step_at u x status_begun p)) (sym g)
      (close_if-Naps 300 (all_ended q) q (napping-all_ended 300 q naps) (g, naps))

-- Where the status loop of a program that runs is at its head and goes to sleep at `t`, and its sleep
-- does not end before its time, which `asyncio.sleep` promises: whatever happens in the 300 seconds
-- from `t` on, signals included, `start` does not return in them.
pub stop_waits_for_status :
    (u : Unicode) (t : Instant) (es : List (Instant × Event)) (p : Program)
    → p.stage ≡ gathering
    → p.status ≡ to_test
    → p.running ≡ true
    → NapLasts t (step u status_begun p).status es
    → AllBefore (t + 300 * 1000000) es
    → (run u (status_begun ∷ events es) p).stage ≡ gathering
unfolding run
stop_waits_for_status u t es p g s r lasts before =
    let naps = begins_nap u p g s r in
    let rests = subst (λ x. NapLasts t x es) naps.1 lasts in
    (run-Naps u 300 (events es) (step u status_begun p) (not_yet t 300 es rests before) naps).0
