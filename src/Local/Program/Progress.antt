-- ===== src/Local/Program/Progress.antt =====
-- Until `start` of local/main.py returns, some event is waited for.
use mathlib.Core.Path.{subst}
use wan_router_notifications.Common.{
  ℕ, ◌<◌, ◌≡◌, ◌≢◌, ◌⊎◌, refl, sym, ◌∙◌, Bool, true, false, List, [], ◌∷◌, ◌++◌, Option, none, some,
  arith, Bool-cases, inl, inr,
}
use wan_router_notifications.Common.Result.{returned, raised}
use wan_router_notifications.Common.Text.{Text}
use wan_router_notifications.Shared.Clock.{Instant}
use wan_router_notifications.Shared.Config.{LocalConfig, EnvConfig}
use wan_router_notifications.Shared.Telegram.{delivered}
use wan_router_notifications.Local.Heartbeat.{PostOutcome}
use wan_router_notifications.Local.SnmpPoller.Queries.{Answer, LinkAnswer}
use wan_router_notifications.Local.SyslogReceiver.Patterns.{Unicode}
use wan_router_notifications.Local.SyslogReceiver.{SyslogReceiver}
use wan_router_notifications.Local.Monitor.{Phase, ready, polling, sending, sleeping, backing_off}
use wan_router_notifications.Local.Program.Launch.{launch-launched, launch-IsWired}
use wan_router_notifications.Local.Program.Measure.{loop_waits, waits_at, waits, left}
use wan_router_notifications.Local.Program.Shutdown.{turns, turns-left, run-stopped}
use wan_router_notifications.Local.Program.Wiring.{run-IsWired}
use wan_router_notifications.Local.Program.{
  World, Stage, opening, gathering, done, Place, at_head, requesting, asleep, ended, Pause, to_test,
  napping, over, Program, Event, opened, poll_begun, poll_polled, poll_answered, poll_woken,
  heart_begun, heart_posted, heart_woken, status_begun, status_woken, datagram, signal, stop, turn,
  is_ended, is_over, all_ended, close_if, on_datagram, step_at, step, run, launch,
}

opening_not_done : opening ≢ done
opening_not_done e = cc

gathering_not_done : gathering ≢ done
gathering_not_done e = cc

-- `gather` has returned where all loops have ended.
abbrev IsClosed : Program → Type 0
IsClosed p = p.stage ≢ done → all_ended p ≡ false

close_if-IsClosed : (b : Bool) (q : Program) → all_ended q ≡ b → IsClosed (close_if b q)
close_if-IsClosed true q e = λ h. absurd (h refl)
close_if-IsClosed false q e = λ h. e

module _ (u : Unicode) where
  on_datagram-same :
      (now again t : Instant) (bytes : List ℕ) (listening : Bool)
      (o : Option (SyslogReceiver World)) (p : Program)
      → (let q = on_datagram u now again t bytes listening o p in
          (q.stage ≡ p.stage) × (all_ended q ≡ all_ended p))
  on_datagram-same now again t bytes true (some r) p = (refl, refl)
  on_datagram-same now again t bytes true none p = (refl, refl)
  on_datagram-same now again t bytes false o p = (refl, refl)

  step_at-IsClosed :
      (stage : Stage) (e : Event) (p : Program)
      → p.stage ≡ stage
      → IsClosed p
      → IsClosed (step_at u stage e p)
  unfolding step_at stop
  step_at-IsClosed stage signal p s c = c
  step_at-IsClosed stage (datagram now again t bytes) p s c =
      let (same, loops) = on_datagram-same now again t bytes p.listening p.receiver p in
      λ h. loops ∙ c (λ d. h (same ∙ d))
  step_at-IsClosed opening (opened (returned o)) p s c = λ h. c (λ d. opening_not_done (sym s ∙ d))
  step_at-IsClosed opening (opened raised) p s c = λ h. absurd (h refl)
  step_at-IsClosed gathering e p s c = close_if-IsClosed (all_ended (turn e p)) (turn e p) refl
  step_at-IsClosed _ _ p s c = c

  run-IsClosed : (es : List Event) (p : Program) → IsClosed p → IsClosed (run u es p)
  unfolding run step
  run-IsClosed [] p c = c
  run-IsClosed (e ∷ es) p c = run-IsClosed es (step u e p) (step_at-IsClosed p.stage e p refl c)

-- some event is waited for
abbrev pub GoesOn : Program → Type 0
GoesOn p = (e : Event) × (waits e p ≡ 1)

-- ... of the poll loop
poll_goes :
    (phase : Phase)
    → (e : Event) × ((p : Program)
        → p.poll_ended ≡ false
        → p.monitor.phase ≡ phase
        → loop_waits e p ≡ 1)
poll_goes ready = (poll_begun, λ p q r. rw (q, r) refl)
poll_goes (polling d) =
    (poll_polled 0 Answer.failed (λ name. LinkAnswer.failed) (λ k. 0), λ p q r. rw (q, r) refl)
poll_goes (sending d all_states alert rest states) =
    (poll_answered (λ chat text. delivered) (λ k. 0), λ p q r. rw (q, r) refl)
poll_goes (sleeping d) = (poll_woken, λ p q r. rw (q, r) refl)
poll_goes (backing_off d) = (poll_woken, λ p q r. rw (q, r) refl)

heart_goes :
    (place : Place)
    → is_ended place ≡ false
    → (e : Event) × ((p : Program) → p.heart ≡ place → loop_waits e p ≡ 1)
heart_goes at_head h = (heart_begun 0 (λ payload. PostOutcome.failed), λ p q. rw q refl)
heart_goes requesting h = (heart_posted, λ p q. rw q refl)
heart_goes asleep h = (heart_woken, λ p q. rw q refl)
heart_goes ended h = cc

status_goes :
    (pause : Pause)
    → is_over pause ≡ false
    → (e : Event) × ((p : Program) → p.status ≡ pause → loop_waits e p ≡ 1)
status_goes to_test h = (status_begun, λ p q. rw q refl)
status_goes (napping d) h = (status_woken, λ p q. rw q refl)
status_goes over h = cc

-- a loop that has not ended waits for some event
loops_go : (p : Program) → all_ended p ≡ false → (e : Event) × (loop_waits e p ≡ 1)
loops_go p h = elim (Bool-cases p.poll_ended) [
  | inr poll ↦ let (e, w) = poll_goes p.monitor.phase in (e, w p poll refl)
  | inl poll ↦ elim (Bool-cases (is_ended p.heart)) [
    | inr heart ↦ let (e, w) = heart_goes p.heart heart in (e, w p refl)
    | inl heart ↦
        let (e, w) = status_goes p.status (ground (arith, h, poll, heart)) in (e, w p refl)
  ]
]

waits_at-gathering : (e : Event) (p : Program) → waits_at gathering e p ≡ loop_waits e p
waits_at-gathering signal p = refl
waits_at-gathering (datagram now again t bytes) p = refl
waits_at-gathering _ p = refl

goes_on : (stage : Stage) (p : Program) → p.stage ≡ stage → IsClosed p → (stage ≡ done) ⊎ GoesOn p
goes_on opening p s c = inr (opened (returned tt), rw s refl)
goes_on gathering p s c =
    let (e, w) = loops_go p (c (λ d. gathering_not_done (sym s ∙ d))) in
    inr (e, subst (λ t. waits_at t e p ≡ 1) (sym s) (waits_at-gathering e p ∙ w))
goes_on done p s c = inl refl

run-append :
    (u : Unicode) (es fs : List Event) (p : Program) → run u (es ++ fs) p ≡ run u fs (run u es p)
unfolding run
run-append u [] fs p = refl
run-append u (e ∷ es) fs p = run-append u es fs (step u e p)

stopped-running :
    (u : Unicode) (before : List Event) (p : Program)
    → (run u (before ++ signal ∷ []) p).running ≡ false
unfolding run step step_at stop
stopped-running u before p = rw (run-append u before (signal ∷ []) p) refl

launch-IsClosed :
    (upper : Text → Text) (config : LocalConfig) (env : EnvConfig) (mock_snmp mock_telegram : Bool)
    (p : Program)
    → launch upper config env mock_snmp mock_telegram ≡ returned p
    → IsClosed p
launch-IsClosed upper config env mock_snmp mock_telegram p e =
    let (m, (made, same)) = launch-launched upper config env mock_snmp mock_telegram p e in
    subst (λ q. IsClosed q) same (λ h. refl)

-- Where the program is launched and a signal comes, at any moment: whatever happens before and after,
-- at every moment after the signal `start` has returned, or some event is waited for and fewer turns
-- have been taken since the signal than `left`, a number that does not depend on what happens after.
pub shutdown_terminates :
    (u : Unicode) (upper : Text → Text) (config : LocalConfig) (env : EnvConfig)
    (mock_snmp mock_telegram : Bool) (p : Program) (before after : List Event)
    → launch upper config env mock_snmp mock_telegram ≡ returned p
    → (let told = run u (before ++ signal ∷ []) p in
        ((run u after told).stage ≡ done)
        ⊎ (GoesOn (run u after told) × (turns u after told < left told)))
shutdown_terminates u upper config env mock_snmp mock_telegram p before after e =
    let told = run u (before ++ signal ∷ []) p in
    let now = run u after told in
    let stops = stopped-running u before p in
    let wired =
      run-IsWired u (before ++ signal ∷ []) p
        (launch-IsWired upper config env mock_snmp mock_telegram p e) in
    let closed = run-IsClosed u after told (
      run-IsClosed u (before ++ signal ∷ []) p
        (launch-IsClosed upper config env mock_snmp mock_telegram p e)) in
    elim (goes_on now.stage now refl closed) [
      | inl d ↦ inl d
      | inr (next, w) ↦ inr (
        (next, w),
        omega (
          arith,
          w,
          turns-left u after told stops wired,
          turns-left u (next ∷ []) now (run-stopped u after told stops wired)
              (run-IsWired u after told wired),
        ),
      )
    ]
