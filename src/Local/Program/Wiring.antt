-- ===== src/Local/Program/Wiring.antt =====
-- How the parts of local/main.py are wired: the receiver's callback is the monitor's, and all that
-- happens to the monitor are its own steps.
use wan_router_notifications.Common.{
  ℕ, ◌≡◌, refl, ap, ◌∙◌, Bool, true, false, List, [], ◌∷◌, ◌++◌, Option, none, some,
}
use wan_router_notifications.Common.Result.{Result, returned, raised}
use wan_router_notifications.Shared.Clock.{Instant}
use wan_router_notifications.Shared.Models.{SyslogEvent, HeartbeatPayload}
use wan_router_notifications.Local.Heartbeat.{PostOutcome}
use wan_router_notifications.Local.SyslogReceiver.Utf8.{decode}
use wan_router_notifications.Local.SyslogReceiver.Patterns.{Unicode}
use wan_router_notifications.Local.SyslogReceiver.{
  SyslogReceiver, reset_count, run_callbacks, on_event, received, parse_syslog_message,
  datagram_received,
}
use wan_router_notifications.Local.Monitor.{
  beat, Phase, ready, Monitor, syslog, Event as MonitorEvent, step as monitor_step,
  run as monitor_run,
}
use wan_router_notifications.Local.Program.Own.{heard, begins, beats, turned, overheard, own, owns}
use wan_router_notifications.Local.Program.{
  World, Stage, opening, gathering, Place, at_head, Pause, napping, Program, monitor_callback,
  Event, opened, poll_begun, poll_polled, poll_answered, poll_woken, heart_begun, heart_posted,
  heart_woken, status_begun, status_woken, datagram, signal, stop, poll_head, heart_head,
  status_wakes, turn, all_ended, close_if, on_datagram, step_at, step, run,
}

-- The receiver, where there is one, calls the monitor and nothing else.
abbrev pub IsWired : Option (SyslogReceiver World) → Type 0
IsWired none = Unit {0}
IsWired (some r) = r.callbacks ≡ monitor_callback ∷ []

-- what a parsed datagram does to the monitor
abbrev pub told : Instant → Result (Option SyslogEvent) → Monitor → Monitor
told t raised m = m
told t (returned none) m = m
told t (returned (some event)) m = monitor_step (syslog t event) m

received-told :
    (o : Result (Option SyslogEvent)) (r : SyslogReceiver World) (t : Instant) (m : Monitor)
    → r.callbacks ≡ monitor_callback ∷ []
    → ((received o r (t, m)).1.1 ≡ told t o m)
      × (((received o r (t, m)).0).callbacks ≡ monitor_callback ∷ [])
unfolding on_event run_callbacks
received-told raised r t m w = (refl, w)
received-told (returned none) r t m w = (refl, w)
received-told (returned (some event)) r t m w =
    (ap (λ cs. (run_callbacks {S = World} cs event (t, m)).1) w, w)

told-heard :
    (t : Instant) (o : Result (Option SyslogEvent)) (m : Monitor)
    → told t o m ≡ monitor_run (heard t o) m
unfolding monitor_run
told-heard t raised m = refl
told-heard t (returned none) m = refl
told-heard t (returned (some event)) m = refl

-- What every step keeps: the wiring, and the monitor's own steps.
abbrev Kept : List MonitorEvent → Program → Program → Type 0
Kept es p q = IsWired q.receiver × (q.monitor ≡ monitor_run es p.monitor)

poll_head-Kept :
    (ended' running : Bool) (phase : Phase) (p : Program)
    → IsWired p.receiver
    → Kept (begins ended' running phase) p (poll_head ended' running phase p)
unfolding monitor_run
poll_head-Kept false true ready p w = (w, refl)
poll_head-Kept false false ready p w = (w, refl)
poll_head-Kept _ _ _ p w = (w, refl)

heart_head-Kept :
    (now : Instant) (post : HeartbeatPayload → PostOutcome) (place : Place) (running : Bool)
    (p : Program)
    → IsWired p.receiver
    → Kept (beats now post place running) p (heart_head now post place running p)
unfolding monitor_run
heart_head-Kept now post at_head true p w = (w, refl)
heart_head-Kept now post at_head false p w = (w, refl)
heart_head-Kept now post _ _ p w = (w, refl)

status_wakes-Kept :
    (pause : Pause) (o : Option (SyslogReceiver World)) (p : Program)
    → IsWired o
    → IsWired p.receiver
    → Kept [] p (status_wakes pause o p)
unfolding reset_count monitor_run
status_wakes-Kept (napping d) none p h w = (w, refl)
status_wakes-Kept (napping d) (some r) p h w = (h, refl)
status_wakes-Kept _ _ p h w = (w, refl)

turn-Kept : (e : Event) (p : Program) → IsWired p.receiver → Kept (turned e p) p (turn e p)
unfolding turn monitor_run
turn-Kept poll_begun p w = poll_head-Kept p.poll_ended p.running p.monitor.phase p w
turn-Kept (poll_polled now route links clock) p w = (w, refl)
turn-Kept (poll_answered bot clock) p w = (w, refl)
turn-Kept poll_woken p w = (w, refl)
turn-Kept (heart_begun now post) p w = heart_head-Kept now post p.heart p.running p w
turn-Kept status_woken p w = status_wakes-Kept p.status p.receiver p w w
turn-Kept heart_posted p w = (w, refl)
turn-Kept heart_woken p w = (w, refl)
turn-Kept status_begun p w = (w, refl)
turn-Kept _ p w = (w, refl)

close_if-Kept :
    (b : Bool) (es : List MonitorEvent) (p q : Program) → Kept es p q → Kept es p (close_if b q)
close_if-Kept true es p q h = h
close_if-Kept false es p q h = h

append-run :
    (es fs : List MonitorEvent) (m : Monitor)
    → monitor_run fs (monitor_run es m) ≡ monitor_run (es ++ fs) m
unfolding monitor_run
append-run [] fs m = refl
append-run (e ∷ es) fs m = append-run es fs (monitor_step e m)

module _ (u : Unicode) where
  pub datagram_received-told :
      (now again t : Instant) (bytes : List ℕ) (r : SyslogReceiver World) (m : Monitor)
      → r.callbacks ≡ monitor_callback ∷ []
      → (let out = datagram_received u now again bytes r (t, m) in
          (out.1.1 ≡ told t (parse_syslog_message u now again (decode bytes)) m)
          × (out.0.callbacks ≡ monitor_callback ∷ []))
  unfolding datagram_received
  datagram_received-told now again t bytes r m w =
      received-told (parse_syslog_message u now again (decode bytes)) r t m w

  on_datagram-Kept :
      (now again t : Instant) (bytes : List ℕ) (listening : Bool)
      (o : Option (SyslogReceiver World)) (p : Program)
      → IsWired o
      → IsWired p.receiver
      → Kept
          (overheard t listening o (parse_syslog_message u now again (decode bytes)))
          p
          (on_datagram u now again t bytes listening o p)
  unfolding monitor_run
  on_datagram-Kept now again t bytes true (some r) p h w =
      let (same, wired) = datagram_received-told now again t bytes r p.monitor h in
      (wired, same ∙ told-heard t (parse_syslog_message u now again (decode bytes)) p.monitor)
  on_datagram-Kept now again t bytes _ _ p h w = (w, refl)

  step_at-Kept :
      (stage : Stage) (e : Event) (p : Program)
      → IsWired p.receiver
      → Kept (own u stage e p) p (step_at u stage e p)
  unfolding step_at stop monitor_run
  step_at-Kept stage signal p w = (w, refl)
  step_at-Kept stage (datagram now again t bytes) p w =
      on_datagram-Kept now again t bytes p.listening p.receiver p w w
  step_at-Kept opening (opened (returned o)) p w = (w, refl)
  step_at-Kept opening (opened raised) p w = (w, refl)
  step_at-Kept gathering e p w =
      close_if-Kept (all_ended (turn e p)) (turned e p) p (turn e p) (turn-Kept e p w)
  step_at-Kept _ _ p w = (w, refl)

  pub step-IsWired : (e : Event) (p : Program) → IsWired p.receiver → IsWired (step u e p).receiver
  unfolding step
  step-IsWired e p w = (step_at-Kept p.stage e p w).0

  pub run-IsWired :
      (es : List Event) (p : Program) → IsWired p.receiver → IsWired (run u es p).receiver
  unfolding run
  run-IsWired [] p w = w
  run-IsWired (e ∷ es) p w = run-IsWired es (step u e p) (step-IsWired e p w)

  pub run-owns :
      (es : List Event) (p : Program)
      → IsWired p.receiver
      → (run u es p).monitor ≡ monitor_run (owns u es p) p.monitor
  unfolding run step monitor_run
  run-owns [] p w = refl
  run-owns (e ∷ es) p w =
      let next = step_at u p.stage e p in
      run-owns es next (step-IsWired e p w)
      ∙ (ap (monitor_run (owns u es next)) (step_at-Kept p.stage e p w).1
          ∙ append-run (own u p.stage e p) (owns u es next) p.monitor)

close_if-monitor : (b : Bool) (p : Program) → (close_if b p).monitor ≡ p.monitor
close_if-monitor true p = refl
close_if-monitor false p = refl

-- The monitor beats where the heartbeat loop is at its head and the program runs.
pub beat-monitor :
    (u : Unicode) (now : Instant) (post : HeartbeatPayload → PostOutcome) (p : Program)
    → p.stage ≡ gathering
    → p.heart ≡ at_head
    → p.running ≡ true
    → (step u (heart_begun now post) p).monitor ≡ monitor_step (beat now post) p.monitor
unfolding step step_at turn
beat-monitor u now post p gathers waits runs =
    let q : Program = turn (heart_begun now post) p in
    ap (λ s. (step_at u s (heart_begun now post) p).monitor) gathers
    ∙ (close_if-monitor (all_ended q) q
        ∙ (ap (λ h. (heart_head now post h p.running p).monitor) waits
            ∙ ap (λ r. (heart_head now post at_head r p).monitor) runs))
