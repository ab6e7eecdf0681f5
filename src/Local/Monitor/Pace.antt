-- ===== src/Local/Monitor/Pace.antt =====
-- How long the poll loop sleeps, from the validators of the configuration to the loop.
use mathlib.Core.Path.{subst}
use wan_router_notifications.Common.{
  ℕ, ◌∙◌, ◌≡◌, refl, sym, ap, Bool, List, [], ◌∷◌, some, none, Option, length, arith, Bool-cases,
  inl, inr, if◌then◌else◌,
}
use wan_router_notifications.Common.Int.{ℤ, pos, ◌≤ℤ◌, ltb_ℤ}
use wan_router_notifications.Common.Result.{
  Result, returned, raised, returned-injective, bind-returned,
}
use wan_router_notifications.Common.Text.{Text}
use wan_router_notifications.Common.Dict
use wan_router_notifications.Common.Dict.{Dict}
use wan_router_notifications.Shared.Clock.{Instant}
use wan_router_notifications.Shared.Config.{
  validated, validate_interval, polling_config, router_config, local_config, LocalFile, LocalConfig,
  EnvConfig, PollingConfig,
}
use wan_router_notifications.Shared.Models.{WanState, AlertEvent}
use wan_router_notifications.Shared.Telegram.{send_alert}
use wan_router_notifications.Local.AlertEngine.{process_wan_state, should_use_alert_interval}
use wan_router_notifications.Local.Poller.{choose_poller, poll_any}
use wan_router_notifications.Local.Monitor.Start.{monitor_with, new_monitor}
use wan_router_notifications.Local.Monitor.{
  Phase, ready, polling, sending, sleeping, backing_off, Monitor, Event, begun, polled, answered,
  woken, syslog, beat, poll_interval, send_next, process_states, on_answered, on_polled,
  on_syslog_event, on_beat, step_in, step, run,
}

abbrev AtLeastTen : ℤ → Type 0
AtLeastTen d = pos 10 ≤ℤ d

-- the interval of an iteration, or the sleep that is under way, is at least 10 seconds
abbrev pub IsSlow : Phase → Type 0
IsSlow (polling d) = AtLeastTen d
IsSlow (sending d all_states alert rest states) = AtLeastTen d
IsSlow (sleeping d) = AtLeastTen d
IsSlow (backing_off d) = AtLeastTen d
IsSlow _ = Unit {0}

abbrev Paced : Monitor → Type 0
Paced m = AtLeastTen m.normal_interval × AtLeastTen m.alert_interval × IsSlow m.phase

send_next-Paced :
    (interval : ℤ) (all_states : Dict WanState) (alerts : List AlertEvent) (states : List WanState)
    (m next : Monitor)
    → AtLeastTen interval
    → Paced m
    → Paced next
    → Paced (send_next interval all_states alerts states m next)
unfolding send_next
send_next-Paced interval all_states [] states m next i h g = g
send_next-Paced interval all_states (alert ∷ rest) states m next i h g = (h.0, h.1, i)

process_states-Paced :
    (clock : ℕ → Instant) (interval : ℤ) (all_states : Dict WanState) (states : List WanState)
    (m : Monitor)
    → AtLeastTen interval
    → Paced m
    → Paced (process_states clock interval all_states states m)
unfolding process_states
process_states-Paced clock interval all_states [] m i h = (h.0, h.1, i)
process_states-Paced clock interval all_states (state ∷ states) m i h =
    let (engine', alerts) =
      process_wan_state (clock (length states)) m.engine state (some all_states) in
    let m' = record m { engine = engine' } in
    send_next-Paced interval all_states alerts states m'
      (process_states clock interval all_states states m') i h
      (process_states-Paced clock interval all_states states m' i h)

on_answered-Paced :
    (clock : ℕ → Instant) (interval : ℤ) (all_states : Dict WanState) (rest : List AlertEvent)
    (states : List WanState) (r : Result Bool) (m : Monitor)
    → AtLeastTen interval
    → Paced m
    → Paced (on_answered clock interval all_states rest states r m)
unfolding on_answered
on_answered-Paced clock interval all_states rest states raised m i h = (h.0, h.1, omega arith)
on_answered-Paced clock interval all_states rest states (returned ok) m i h =
    send_next-Paced interval all_states rest states m
      (process_states clock interval all_states states m) i h
      (process_states-Paced clock interval all_states states m i h)

poll_interval-AtLeastTen : (m : Monitor) → Paced m → AtLeastTen (poll_interval m)
unfolding poll_interval
poll_interval-AtLeastTen m h = elim (Bool-cases (should_use_alert_interval m.engine)) [
  | inl a ↦ rw a h.1
  | inr n ↦ rw n h.0
]

step_in-Paced :
    (p : Phase) (e : Event) (m : Monitor) → m.phase ≡ p → IsSlow p → Paced m → Paced (step_in p e m)
unfolding step_in on_syslog_event on_beat on_polled
step_in-Paced p (syslog now event) m q s h = h
step_in-Paced p (beat now post) m q s h = h
step_in-Paced ready begun m q s h = (h.0, h.1, poll_interval-AtLeastTen m h)
step_in-Paced (polling interval) (polled now route links clock) m q s h =
    let (poller', states) = poll_any now route links m.poller in
    process_states-Paced clock interval states (Dict.values states) (record m { poller = poller' })
      s h
step_in-Paced (sending interval all_states alert rest states) (answered bot clock) m q s h =
    on_answered-Paced clock interval all_states rest states (send_alert m.telegram bot alert) m s h
step_in-Paced (sleeping interval) woken m q s h = (h.0, h.1, tt)
step_in-Paced (backing_off d) woken m q s h = (h.0, h.1, tt)
step_in-Paced _ _ m q s h = h

run-Paced : (es : List Event) (m : Monitor) → Paced m → Paced (run es m)
unfolding run step
run-Paced [] m h = h
run-Paced (e ∷ es) m h = run-Paced es (step_in m.phase e m) (step_in-Paced m.phase e m refl h.2 h)

raised_not : {A : Type 0} (v : A) → ¬ (raised ≡ returned v)
raised_not v e = cc

validated-AtLeastTen :
    (o : Option ℤ) (default v : ℤ)
    → AtLeastTen default
    → validated validate_interval o default ≡ returned v
    → AtLeastTen v
unfolding validate_interval
validated-AtLeastTen none default v d e =
    let same = returned-injective default v e in rw (sym same) d
validated-AtLeastTen (some w) default v d e = elim (Bool-cases (ltb_ℤ w (pos 10))) [
  | inl small ↦ elim (raised_not v (sym (ap (λ b. if b then raised else returned w) small) ∙ e)) [ ]
  | inr large ↦
      let same =
        returned-injective w v (sym (ap (λ b. if b then raised else returned w) large) ∙ e) in
      rw (sym same) (ground arith)
]

polling_config-AtLeastTen :
    (n a t : Option ℤ) (c : PollingConfig)
    → polling_config n a t ≡ returned c
    → AtLeastTen c.normal_interval × AtLeastTen c.alert_interval
unfolding polling_config
polling_config-AtLeastTen n a t c e =
    let (v, (en, e1)) = bind-returned (validated validate_interval n (pos 60)) _ c e in
    let (w, (ea, e2)) = bind-returned (validated validate_interval a (pos 15)) _ c e1 in
    let same = returned-injective _ c e2 in
    subst (λ d. AtLeastTen d.normal_interval × AtLeastTen d.alert_interval) same
      (
        validated-AtLeastTen n (pos 60) v (ground arith) en,
        validated-AtLeastTen a (pos 15) w (ground arith) ea,
      )

local_config-AtLeastTen :
    (upper : Text → Text) (f : LocalFile) (c : LocalConfig)
    → local_config upper f ≡ returned c
    → AtLeastTen c.polling.normal_interval × AtLeastTen c.polling.alert_interval
unfolding local_config
local_config-AtLeastTen upper f c e =
    let (r, (er, e1)) = bind-returned (router_config upper f) _ c e in
    let (p, (ep, e2)) =
      bind-returned (polling_config f.normal_interval f.alert_interval f.recovery_threshold) _ c
        e1 in
    let same = returned-injective _ c e2 in
    subst (λ d. AtLeastTen d.polling.normal_interval × AtLeastTen d.polling.alert_interval) same
      (polling_config-AtLeastTen f.normal_interval f.alert_interval f.recovery_threshold p ep)

-- Where a file is accepted as the local configuration and a monitor is made of it: whatever happens, no
-- sleep of its poll loop, after an iteration or in the exception handler, is of less than 10 seconds.
pub sleeps_ten_seconds :
    (upper : Text → Text) (f : LocalFile) (config : LocalConfig) (env : EnvConfig)
    (mock_snmp mock_telegram : Bool) (m : Monitor) (es : List Event)
    → local_config upper f ≡ returned config
    → new_monitor upper config env mock_snmp mock_telegram ≡ returned m
    → IsSlow (run es m).phase
unfolding new_monitor
sleeps_ten_seconds upper f config env mock_snmp mock_telegram m es e made =
    let (n, a) = local_config-AtLeastTen upper f config e in
    let (p, (chosen, same)) =
      bind-returned
        (choose_poller upper mock_snmp config.router.snmp_auth_protocol config.router.wan_gateways
          config.router.wan_interfaces)
        (λ poller'. returned (monitor_with config env mock_telegram poller')) m made in
    subst (λ t. IsSlow (run es t).phase)
      (returned-injective (monitor_with config env mock_telegram p) m same)
      (run-Paced es (monitor_with config env mock_telegram p) (n, a, tt)).2
