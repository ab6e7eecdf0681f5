-- ===== src/Local/AlertEngine/Tests.antt =====
-- The alert engine at concrete inputs.
use wan_router_notifications.Common.{
  ℕ, ◌+◌, ◌*◌, ◌≡◌, refl, ◌≢◌, arith, false, List, [], ◌∷◌, none, some,
}
use wan_router_notifications.Common.Text.{Text, codes, text_eq}
use wan_router_notifications.Common.Dict
use wan_router_notifications.Common.Dict.{Dict}
use wan_router_notifications.Shared.Clock.{Instant, minus}
use wan_router_notifications.Shared.Models.{InterfaceStatus, up, down, WanState}
use wan_router_notifications.Shared.Telegram.Duration.{format_duration}
use wan_router_notifications.Local.AlertEngine.Messages.{
  Router, recovered_alert, first_other_up, down_alert,
}
use wan_router_notifications.Local.AlertEngine.Edges.{Update, run, titles, edges, run_alerts_edges}
use wan_router_notifications.Local.AlertEngine.Invariant.{
  IsConsistent, run-IsConsistent, new_engine-IsConsistent, recovered_downtime_known,
}
use wan_router_notifications.Local.AlertEngine.Stability.{stable_count, repeated_states_quiet}
use wan_router_notifications.Local.AlertEngine.Independence.{each_alone, alerts_independent}
use wan_router_notifications.Local.AlertEngine.{
  AlertEngine, new_engine, process_wan_state, should_alert, change_alerts, next_alert_state,
  alert_state_of,
}

abbrev home : Router
home = record { ip = codes "192.168.0.1"; name = codes "router" }

abbrev second : ℕ → Instant
second n = n * 1000000

abbrev wan : Text → InterfaceStatus → Instant → WanState
wan name status since = record { interface = name; status = status; since = since; link_up = none }

abbrev update : ℕ → Text → InterfaceStatus → Update
update n name status = record {
  now = second n;
  state = wan name status (second n);
  all_states = none;
}

abbrev outage : List Update
outage =
    update 0 (codes "WAN1") up
    ∷ update 60 (codes "WAN1") down
    ∷ update 75 (codes "WAN1") down
    ∷ update 90 (codes "WAN1") up
    ∷ []

outage-titles :
    titles (run (new_engine home) outage).1 ≡ codes "WAN1 DOWN" ∷ codes "WAN1 RECOVERED" ∷ []
unfolding run new_engine process_wan_state should_alert change_alerts next_alert_state
    alert_state_of down_alert recovered_alert Dict.get Dict.set text_eq
outage-titles = refl

run_alerts_edges_example : titles (run (new_engine home) outage).1 ≡ edges (λ j. false) outage
run_alerts_edges_example = run_alerts_edges home outage

abbrev broken : AlertEngine
broken = (run (new_engine home) (update 60 (codes "WAN1") down ∷ [])).0

broken-IsConsistent : IsConsistent broken
broken-IsConsistent =
    run-IsConsistent (new_engine home) (update 60 (codes "WAN1") down ∷ [])
      (new_engine-IsConsistent home)

-- a poll of both
abbrev both : List Update
both = update 90 (codes "WAN1") up ∷ update 90 (codes "WAN2") down ∷ []

wans_differ : codes "WAN1" ≢ codes "WAN2"
wans_differ e = ground arith

alerts_independent_example : (run broken both).1 ≡ each_alone broken both
alerts_independent_example = alerts_independent broken both ((wans_differ, tt), (tt, tt))

abbrev back : WanState
back = wan (codes "WAN1") up (second 90)

back_alerts : (process_wan_state (second 90) broken back none).1 ≢ []
unfolding run new_engine process_wan_state should_alert change_alerts next_alert_state
    alert_state_of Dict.get Dict.set text_eq
back_alerts e = cc

recovered_downtime_known_example :
    (p : WanState) × (Dict.get broken.previous_wan (codes "WAN1") ≡ some p)
    × (p.status ≡ down)
    × ((process_wan_state (second 90) broken back none).1
        ≡ recovered_alert broken.router
            (second 90)
            (format_duration (minus (second 90) p.since))
            back
          ∷ [])
recovered_downtime_known_example =
    recovered_downtime_known (second 90) broken back none broken-IsConsistent refl back_alerts

abbrev five_more : List Update
five_more =
    update 91 (codes "WAN1") up
    ∷ update 92 (codes "WAN1") up
    ∷ update 93 (codes "WAN1") up
    ∷ update 94 (codes "WAN1") up
    ∷ update 95 (codes "WAN1") up
    ∷ []

repeated_states_quiet_example :
    let after = (process_wan_state (second 90) broken back none).0 in
    ((run after five_more).1 ≡ [])
    × (stable_count (run after five_more).0 (codes "WAN1") ≡ stable_count after (codes "WAN1") + 5)
repeated_states_quiet_example =
    repeated_states_quiet (record { now = second 90; state = back; all_states = none }) five_more
      broken (refl, refl, (refl, refl, (refl, refl, (refl, refl, (refl, refl, tt)))))

abbrev two_wans : Dict WanState
two_wans = (codes "WAN1", wan (codes "WAN1") down 0) ∷ (codes "WAN2", wan (codes "WAN2") up 0) ∷ []

names_backup : first_other_up (codes "WAN1") two_wans ≡ some (codes "WAN2")
unfolding first_other_up text_eq
names_backup = refl
