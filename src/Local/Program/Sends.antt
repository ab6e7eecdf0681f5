-- ===== src/Local/Program/Sends.antt =====
-- What the whole program of local/main.py sends, from its launch.
use wan_router_notifications.Common.{
  ◌≡◌, ◌≢◌, sym, ap, ◌∙◌, Bool, true, false, List, [], ◌∷◌, ◌++◌, Option, none, some,
}
use wan_router_notifications.Common.Result.{
  Result, returned, raised, returned-injective, bind-returned,
}
use wan_router_notifications.Common.Text.{Text}
use wan_router_notifications.Shared.Clock.{Instant}
use wan_router_notifications.Shared.Config.{LocalConfig, EnvConfig}
use wan_router_notifications.Shared.Models.{SyslogEvent, HeartbeatPayload}
use wan_router_notifications.Shared.Telegram.{other_error}
use wan_router_notifications.Local.Heartbeat.{PostOutcome}
use wan_router_notifications.Local.Poller.{choose_poller}
use wan_router_notifications.Local.AlertEngine.{new_engine}
use wan_router_notifications.Local.AlertEngine.Edges.{Update, titles, edges}
use wan_router_notifications.Local.SyslogReceiver.Utf8.{decode}
use wan_router_notifications.Local.SyslogReceiver.Patterns.{Unicode}
use wan_router_notifications.Local.SyslogReceiver.{SyslogReceiver, parse_syslog_message}
use wan_router_notifications.Local.Monitor.Start.{new_monitor, monitor_with}
use wan_router_notifications.Local.Monitor.Trace.{pending, unseen, sent, found, NoneRaise, observed}
use wan_router_notifications.Local.Monitor.Delivery.{sends_edges}
use wan_router_notifications.Local.Monitor.{
  Phase, ready, Event as MonitorEvent, begun, polled, answered, woken, syslog, beat,
}
use wan_router_notifications.Local.Program.Launch.{launch-launched, launch-IsWired}
use wan_router_notifications.Local.Program.Own.{begins, beats, turned, overheard, own, owns}
use wan_router_notifications.Local.Program.Wiring.{run-owns}
use wan_router_notifications.Local.Program.{
  World, Stage, gathering, Place, at_head, Program, launch, Event, opened, poll_begun, poll_polled,
  poll_answered, poll_woken, heart_begun, heart_posted, heart_woken, status_begun, status_woken,
  datagram, signal, step, run,
}

-- No send of the poll loop raises anything but a `TelegramError`.
abbrev pub NoSendRaises : List Event → Type 0
NoSendRaises [] = Unit {0}
NoSendRaises (poll_answered bot clock ∷ es) =
    ((chat text : Text) → bot chat text ≢ other_error) × NoSendRaises es
NoSendRaises (_ ∷ es) = NoSendRaises es

NoneRaise-append : (es fs : List MonitorEvent) → NoneRaise es → NoneRaise fs → NoneRaise (es ++ fs)
NoneRaise-append [] fs h k = k
NoneRaise-append (answered bot clock ∷ es) fs (h, hs) k = (h, NoneRaise-append es fs hs k)
NoneRaise-append (begun ∷ es) fs h k = NoneRaise-append es fs h k
NoneRaise-append (polled now route links clock ∷ es) fs h k = NoneRaise-append es fs h k
NoneRaise-append (woken ∷ es) fs h k = NoneRaise-append es fs h k
NoneRaise-append (syslog now event ∷ es) fs h k = NoneRaise-append es fs h k
NoneRaise-append (beat now post ∷ es) fs h k = NoneRaise-append es fs h k

overheard-NoneRaise :
    (t : Instant) (listening : Bool) (r : Option (SyslogReceiver World))
    (o : Result (Option SyslogEvent))
    → NoneRaise (overheard t listening r o)
overheard-NoneRaise t true (some r) raised = tt
overheard-NoneRaise t true (some r) (returned none) = tt
overheard-NoneRaise t true (some r) (returned (some event)) = tt
overheard-NoneRaise t _ _ o = tt

begins-NoneRaise : (ended running : Bool) (phase : Phase) → NoneRaise (begins ended running phase)
begins-NoneRaise false true ready = tt
begins-NoneRaise _ _ _ = tt

beats-NoneRaise :
    (now : Instant) (post : HeartbeatPayload → PostOutcome) (place : Place) (running : Bool)
    → NoneRaise (beats now post place running)
beats-NoneRaise now post at_head true = tt
beats-NoneRaise now post _ _ = tt

turned-NoneRaise : (e : Event) (p : Program) → NoSendRaises (e ∷ []) → NoneRaise (turned e p)
turned-NoneRaise (poll_answered bot clock) p h = h
turned-NoneRaise poll_begun p h = begins-NoneRaise p.poll_ended p.running p.monitor.phase
turned-NoneRaise (heart_begun now post) p h = beats-NoneRaise now post p.heart p.running
turned-NoneRaise _ p h = tt

NoSendRaises-head :
    (e : Event) (es : List Event) → NoSendRaises (e ∷ es) → NoSendRaises (e ∷ []) × NoSendRaises es
NoSendRaises-head (poll_answered bot clock) es (h, t) = ((h, tt), t)
NoSendRaises-head (opened r) es h = (tt, h)
NoSendRaises-head poll_begun es h = (tt, h)
NoSendRaises-head (poll_polled now route links clock) es h = (tt, h)
NoSendRaises-head poll_woken es h = (tt, h)
NoSendRaises-head (heart_begun now post) es h = (tt, h)
NoSendRaises-head heart_posted es h = (tt, h)
NoSendRaises-head heart_woken es h = (tt, h)
NoSendRaises-head status_begun es h = (tt, h)
NoSendRaises-head status_woken es h = (tt, h)
NoSendRaises-head (datagram now again t bytes) es h = (tt, h)
NoSendRaises-head signal es h = (tt, h)

module _ (u : Unicode) where
  own-NoneRaise :
      (stage : Stage) (e : Event) (p : Program)
      → NoSendRaises (e ∷ [])
      → NoneRaise (own u stage e p)
  own-NoneRaise stage signal p h = tt
  own-NoneRaise stage (datagram now again t bytes) p h =
      overheard-NoneRaise t p.listening p.receiver (parse_syslog_message u now again (decode bytes))
  own-NoneRaise gathering e p h = turned-NoneRaise e p h
  own-NoneRaise _ _ p h = tt

  owns-NoneRaise : (es : List Event) (p : Program) → NoSendRaises es → NoneRaise (owns u es p)
  owns-NoneRaise [] p h = tt
  owns-NoneRaise (e ∷ es) p h =
      let (first, later) = NoSendRaises-head e es h in
      NoneRaise-append (own u p.stage e p) (owns u es (step u e p))
        (own-NoneRaise p.stage e p first) (owns-NoneRaise es (step u e p) later)

-- The monitor of a program that is launched has a new engine, and its poll loop is to begin.
launched-fresh :
    (upper : Text → Text) (config : LocalConfig) (env : EnvConfig) (mock_snmp mock_telegram : Bool)
    (p : Program)
    → launch upper config env mock_snmp mock_telegram ≡ returned p
    → (p.monitor.engine
        ≡ new_engine (record { ip = config.router.host; name = config.router.name }))
      × (p.monitor.phase ≡ ready)
unfolding new_monitor
launched-fresh upper config env mock_snmp mock_telegram p e =
    let (m, (made, same)) = launch-launched upper config env mock_snmp mock_telegram p e in
    let (poller', (chosen, built)) =
      bind-returned
        (choose_poller upper mock_snmp config.router.snmp_auth_protocol config.router.wan_gateways
          config.router.wan_interfaces)
        (λ poller'. returned (monitor_with config env mock_telegram poller')) m made in
    let whole =
      returned-injective (monitor_with config env mock_telegram poller') m built
      ∙ ap (λ q. q.monitor) same in
    (ap (λ n. n.engine) (sym whole), ap (λ n. n.phase) (sym whole))

-- Where the program is launched, and no send of its poll loop raises anything but a `TelegramError`:
-- whatever else happens, signals and datagrams included, the titles of the alerts whose sends the poll
-- loop has ended, and of the one whose send is under way, are in order the edges of some updates; the
-- states of these, with those of the last poll that are not looked at yet, are all the states that the
-- polls have returned, in order.
pub launched_sends_edges :
    (u : Unicode) (upper : Text → Text) (config : LocalConfig) (env : EnvConfig)
    (mock_snmp mock_telegram : Bool) (p : Program) (es : List Event)
    → launch upper config env mock_snmp mock_telegram ≡ returned p
    → NoSendRaises es
    → let phase = (run u es p).monitor.phase in
      (us : List Update) × ((titles (sent (owns u es p) p.monitor ++ pending phase)
          ≡ edges (λ j. false) us)
        × (observed us ++ unseen phase ≡ found (owns u es p) p.monitor))
launched_sends_edges u upper config env mock_snmp mock_telegram p es e h =
    let (fresh, start) = launched-fresh upper config env mock_snmp mock_telegram p e in
    let own_run = run-owns u es p (launch-IsWired upper config env mock_snmp mock_telegram p e) in
    let (us, (sends, sees)) =
      sends_edges (owns u es p) p.monitor
        (record { ip = config.router.host; name = config.router.name }) fresh start
        (owns-NoneRaise u es p h) in
    (
      us,
      (
        ap (λ m. titles (sent (owns u es p) p.monitor ++ pending m.phase)) own_run ∙ sends,
        ap (λ m. observed us ++ unseen m.phase) own_run ∙ sees,
      ),
    )
