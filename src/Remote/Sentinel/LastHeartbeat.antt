-- ===== src/Remote/Sentinel/LastHeartbeat.antt =====
-- What the sentinel knows of the last heartbeat, and tells of it.
use mathlib.Core.Path.{subst}
use wan_router_notifications.Common.{
  ◌≡◌, refl, sym, not, ◌&&◌, Bool, List, [], ◌∷◌, some, inl, inr, Bool-cases,
}
use wan_router_notifications.Common.Result.{Result, returned, raised}
use wan_router_notifications.Common.Dict.{Dict}
use wan_router_notifications.Shared.Clock.{Instant}
use wan_router_notifications.Shared.Models.{WanState, HeartbeatPayload}
use wan_router_notifications.Shared.Telegram.{send_alert}
use wan_router_notifications.Remote.AlertEngine.{create_monitor_lost_alert}
use wan_router_notifications.Remote.ExternalProbe.{ProbeResult}
use wan_router_notifications.Remote.HeartbeatStore.{
  record_heartbeat, is_missing, should_alert_missing, get_last_wan_states,
}
use wan_router_notifications.Remote.Sentinel.Outage.{NoHeartbeat}
use wan_router_notifications.Remote.Sentinel.{
  Notice, lost, Phase, sleeping, probing, sending, Sentinel, Event, heartbeat, woken, probed,
  answered, on_woken, on_probed, on_answered, step_in, step, run,
}

-- A lost alert that is being sent tells of a heartbeat at `t` with these states.
abbrev pub Tells : Instant → Dict WanState → Phase → Type 0
Tells t states (sending lost alert) =
    (made : Instant) × ((result : ProbeResult) × (alert
        ≡ create_monitor_lost_alert made t states result))
Tells t states _ = Unit {0}

-- The sentinel knows of this heartbeat as the last one.
pub record Knows (t : Instant) (payload : HeartbeatPayload) (s : Sentinel) : Type 0 where
  pub time : s.store.last_heartbeat ≡ some t
  pub content : s.store.last_payload ≡ some payload
  pub tells : Tells t payload.wan_states s.phase

module _ (t : Instant) (payload : HeartbeatPayload) where
  on_woken-Knows :
      (check recheck now : Instant) (s : Sentinel)
      → Knows t payload s
      → s.phase ≡ sleeping
      → Knows t payload (on_woken check recheck now s)
  unfolding on_woken should_alert_missing
  on_woken-Knows check recheck now s k p =
      elim (Bool-cases (is_missing check s.store && not s.store.alerted_missing)) [
        | inl due ↦ rw due (record { time = k.time; content = k.content; tells = tt })
        | inr fine ↦ elim (Bool-cases (s.was_missing && not (is_missing recheck s.store))) [
          | inl back ↦ rw (fine, back) (record { time = k.time; content = k.content; tells = tt })
          | inr quiet ↦ rw (fine, quiet) k
        ]
      ]

  on_answered-Knows :
      (n : Notice) (r : Result Bool) (s : Sentinel)
      → Knows t payload s
      → Knows t payload (on_answered n r s)
  unfolding on_answered
  on_answered-Knows n (returned b) s k = record { time = k.time; content = k.content; tells = tt }
  on_answered-Knows n raised s k = record { time = k.time; content = k.content; tells = tt }

  step_in-Knows :
      (p : Phase) (e : Event) (s : Sentinel)
      → s.phase ≡ p
      → NoHeartbeat (e ∷ [])
      → Knows t payload s
      → Knows t payload (step_in p e s)
  unfolding step_in on_probed get_last_wan_states
  step_in-Knows p (heartbeat now other) s q n k = elim n [ ]
  step_in-Knows sleeping (woken check recheck now) s q n k = on_woken-Knows check recheck now s k q
  step_in-Knows probing (probed result fallback now) s q n k = record {
    time = k.time;
    content = k.content;
    tells = (now, (result, rw (k.time, k.content) refl));
  }
  step_in-Knows (sending a alert) (answered bot) s q n k =
      on_answered-Knows a (send_alert s.telegram bot alert) s k
  step_in-Knows _ _ s q n k = k

  NoHeartbeat-head :
      (e : Event) (es : List Event) → NoHeartbeat (e ∷ es) → NoHeartbeat (e ∷ []) × NoHeartbeat es
  NoHeartbeat-head (heartbeat now other) es h = elim h [ ]
  NoHeartbeat-head _ es h = (tt, h)

  run-Knows :
      (es : List Event) (s : Sentinel)
      → NoHeartbeat es
      → Knows t payload s
      → Knows t payload (run es s)
  unfolding run step
  run-Knows [] s n k = k
  run-Knows (e ∷ es) s n k =
      let (first, rest) = NoHeartbeat-head e es n in
      run-Knows es (step e s) rest (step_in-Knows s.phase e s refl first k)

  -- A heartbeat comes between two turns, and none after it.
  pub heartbeat-Knows :
      (es : List Event) (s : Sentinel)
      → s.phase ≡ sleeping
      → NoHeartbeat es
      → Knows t payload (run (heartbeat t payload ∷ es) s)
  unfolding run step step_in record_heartbeat
  heartbeat-Knows es s q n = run-Knows es (step (heartbeat t payload) s) n (record {
    time = refl;
    content = refl;
    tells = subst (λ p. Tells t payload.wan_states p) (sym q) tt;
  })
