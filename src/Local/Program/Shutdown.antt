-- ===== src/Local/Program/Shutdown.antt =====
-- How many turns the loops of local/main.py take after `stop`.
use mathlib.Core.Path.{subst}
use wan_router_notifications.Common.{
  ℕ, ◌+◌, ◌≤◌, ◌≡◌, refl, sym, ◌∙◌, Bool, true, false, List, [], ◌∷◌, Option, none, some, arith,
}
use wan_router_notifications.Common.Result.{Result, returned, raised}
use wan_router_notifications.Shared.Clock.{Instant}
use wan_router_notifications.Local.SyslogReceiver.Utf8.{decode}
use wan_router_notifications.Local.SyslogReceiver.Patterns.{Unicode}
use wan_router_notifications.Local.SyslogReceiver.{SyslogReceiver, parse_syslog_message}
use wan_router_notifications.Local.Monitor.{Monitor, syslog}
use wan_router_notifications.Local.Program.Wiring.{
  told, IsWired, step-IsWired, datagram_received-told,
}
use wan_router_notifications.Local.Program.{
  World, Stage, opening, gathering, done, Program, Event, opened, datagram, signal, stop, turn,
  all_ended, close_if, on_datagram, step_at, step, run,
}
use wan_router_notifications.Local.Program.Measure.{
  poll_left, loops_left, left_at, left, waits_at, waits,
}
use wan_router_notifications.Local.Program.Turns.{poll_turn-left, turn-left, Fixed, turn-Fixed}

told-left :
    (b : Bool) (t : Instant) (o : Result _) (m : Monitor) → poll_left b (told t o m) ≤ poll_left b m
told-left b t raised m = omega arith
told-left b t (returned none) m = omega arith
told-left b t (returned (some event)) m = omega (arith, poll_turn-left b (syslog t event) m tt)

left_at-le :
    (stage : Stage) (p q : Program)
    → loops_left q ≤ loops_left p
    → left_at stage q ≤ left_at stage p
left_at-le opening p q h = omega arith
left_at-le gathering p q h = h
left_at-le done p q h = omega arith

close_if-left : (b : Bool) (q : Program) → q.stage ≡ gathering → left (close_if b q) ≤ loops_left q
close_if-left true q s = omega arith
close_if-left false q s = subst (λ t. left_at t q ≤ loops_left q) (sym s) (omega arith)

close_if-running : (b : Bool) (q : Program) → q.running ≡ false → (close_if b q).running ≡ false
close_if-running true q r = refl
close_if-running false q r = r

-- A step of a stopped program: it stays stopped, and a turn that it waits for is one less that is left.
abbrev Shrinks : Stage → Event → Program → Program → Type 0
Shrinks stage e p q = (q.running ≡ false) × (left q + waits_at stage e p ≤ left_at stage p)

same_stage :
    (stage : Stage) (p q : Program)
    → p.stage ≡ stage
    → q.stage ≡ p.stage
    → loops_left q ≤ loops_left p
    → left q + 0 ≤ left_at stage p
same_stage stage p q s t h =
    subst (λ g. left_at g q + 0 ≤ left_at stage p) (sym (t ∙ s))
      (omega (arith, left_at-le stage p q h))

module _ (u : Unicode) where
  on_datagram-left :
      (now again t : Instant) (bytes : List ℕ) (listening : Bool)
      (o : Option (SyslogReceiver World)) (p : Program)
      → IsWired o
      → (let q = on_datagram u now again t bytes listening o p in
          Fixed p q × (loops_left q ≤ loops_left p))
  on_datagram-left now again t bytes true (some r) p w =
      let (same, wired) = datagram_received-told u now again t bytes r p.monitor w in
      let o = parse_syslog_message u now again (decode bytes) in
      (
        (refl, refl),
        subst (λ m. loops_left (record p { monitor = m }) ≤ loops_left p) (sym same)
            (omega (arith, told-left p.poll_ended t o p.monitor)),
      )
  on_datagram-left now again t bytes true none p w = ((refl, refl), omega arith)
  on_datagram-left now again t bytes false o p w = ((refl, refl), omega arith)

  step_at-Shrinks :
      (stage : Stage) (e : Event) (p : Program)
      → p.stage ≡ stage
      → p.running ≡ false
      → IsWired p.receiver
      → Shrinks stage e p (step_at u stage e p)
  unfolding step_at stop
  step_at-Shrinks stage signal p s r w = (refl, same_stage stage p (stop p) s refl (omega arith))
  step_at-Shrinks stage (datagram now again t bytes) p s r w =
      let q = on_datagram u now again t bytes p.listening p.receiver p in
      let (fixed, few) = on_datagram-left now again t bytes p.listening p.receiver p w in
      (fixed.1 ∙ r, same_stage stage p q s fixed.0 few)
  step_at-Shrinks opening (opened (returned o)) p s r w = (r, omega arith)
  step_at-Shrinks opening (opened raised) p s r w = (refl, omega arith)
  step_at-Shrinks gathering e p s r w =
      let q = turn e p in
      let (stays, told_still) = turn-Fixed e p in
      (
        close_if-running (all_ended q) q (told_still ∙ r),
        omega (arith, turn-left e p r, close_if-left (all_ended q) q (stays ∙ s)),
      )
  step_at-Shrinks _ _ p s r w = (r, same_stage _ p p s refl (omega arith))

  -- how many of the events the program waits for, each where it comes
  abbrev pub turns : List Event → Program → ℕ
  turns [] p = 0
  turns (e ∷ es) p = waits e p + turns es (step u e p)

  pub turns-left :
      (es : List Event) (p : Program)
      → p.running ≡ false
      → IsWired p.receiver
      → turns es p + left (run u es p) ≤ left p
  unfolding run step
  turns-left [] p r w = omega arith
  turns-left (e ∷ es) p r w =
      let (still, few) = step_at-Shrinks p.stage e p refl r w in
      omega (arith, turns-left es (step u e p) still (step-IsWired u e p w))

  pub run-stopped :
      (es : List Event) (p : Program)
      → p.running ≡ false
      → IsWired p.receiver
      → (run u es p).running ≡ false
  unfolding run step
  run-stopped [] p r w = r
  run-stopped (e ∷ es) p r w =
      run-stopped es (step u e p) (step_at-Shrinks p.stage e p refl r w).0 (step-IsWired u e p w)
