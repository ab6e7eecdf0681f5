-- ===== src/Local/AlertEngine/Stability.antt =====
-- Repeated states raise no alerts, and the choice of the polling interval.
use mathlib.Core.Path.{subst₂}
use wan_router_notifications.Common.{
  ℕ, ◌+◌, ◌≤◌, ◌≡◌, refl, ◌≢◌, ◌↔◌, ◌∙◌, ap, false, List, [], ◌∷◌, Option, arith, length,
}
use wan_router_notifications.Common.Text.{Text}
use wan_router_notifications.Common.Dict
use wan_router_notifications.Common.Dict.{Dict}
use wan_router_notifications.Shared.Clock.{Instant}
use wan_router_notifications.Shared.Models.{InterfaceStatus, down, WanState}
use wan_router_notifications.Local.AlertEngine.Edges.{Update, run}
use wan_router_notifications.Local.AlertEngine.{
  AlertState, AlertEngine, alert_state_of, should_alert, next_alert_state, process_wan_state,
  any_unsettled, should_use_alert_interval,
}

-- Every update is of the interface `i`, with the status `s`.
abbrev pub AllOf : Text → InterfaceStatus → List Update → Type 0
AllOf i s [] = Unit {0}
AllOf i s (u ∷ us) = (u.state.interface ≡ i) × (u.state.status ≡ s) × AllOf i s us

-- The count of the interface, and whether a status would raise an alert for it.
abbrev pub stable_count : AlertEngine → Text → ℕ
stable_count e i = (alert_state_of e i).consecutive_stable

abbrev pub IsQuiet : AlertEngine → Text → InterfaceStatus → Type 0
IsQuiet e i s = should_alert (alert_state_of e i) s ≡ false

alert_state_of-process :
    (now : Instant) (e : AlertEngine) (s : WanState) (all_states : Option (Dict WanState))
    → alert_state_of (process_wan_state now e s all_states).0 s.interface
      ≡ next_alert_state
          (should_alert (alert_state_of e s.interface) s.status)
          now
          s.status
          (alert_state_of e s.interface)
unfolding process_wan_state alert_state_of
alert_state_of-process now e s all_states = ground (
  arith,
  Dict.get-set_self e.wan_states s.interface (
      next_alert_state (should_alert (alert_state_of e s.interface) s.status) now s.status
        (alert_state_of e s.interface)),
)

-- a status that was just taken is not news
next_quiet :
    (now : Instant) (a : AlertState) (s : InterfaceStatus)
    → should_alert (next_alert_state (should_alert a s) now s a) s ≡ false
unfolding should_alert next_alert_state
next_quiet now a s = ground arith

IsQuiet-step :
    (u : Update) (e : AlertEngine)
    → IsQuiet e u.state.interface u.state.status
    → ((process_wan_state u.now e u.state u.all_states).1 ≡ [])
      × IsQuiet (process_wan_state u.now e u.state u.all_states).0 u.state.interface u.state.status
      × (stable_count (process_wan_state u.now e u.state u.all_states).0 u.state.interface
          ≡ stable_count e u.state.interface + 1)
IsQuiet-step u e q = (
  unfold process_wan_state in rw q refl,
  rw (alert_state_of-process u.now e u.state u.all_states)
      (next_quiet u.now (alert_state_of e u.state.interface) u.state.status),
  ap (λ a. a.consecutive_stable) (alert_state_of-process u.now e u.state u.all_states)
      ∙ (unfold next_alert_state in rw q refl),
)

IsQuiet-step_at :
    (u : Update) (e : AlertEngine) (i : Text) (s : InterfaceStatus)
    → u.state.interface ≡ i
    → u.state.status ≡ s
    → IsQuiet e i s
    → ((process_wan_state u.now e u.state u.all_states).1 ≡ [])
      × IsQuiet (process_wan_state u.now e u.state u.all_states).0 i s
      × (stable_count (process_wan_state u.now e u.state u.all_states).0 i ≡ stable_count e i + 1)
IsQuiet-step_at u e i s at_i with_s q =
    subst₂
      (λ j t.
        IsQuiet e j t
        → ((process_wan_state u.now e u.state u.all_states).1 ≡ [])
          × IsQuiet (process_wan_state u.now e u.state u.all_states).0 j t
          × (stable_count (process_wan_state u.now e u.state u.all_states).0 j
              ≡ stable_count e j + 1))
      at_i with_s (IsQuiet-step u e) q

pub quiet_run :
    (i : Text) (s : InterfaceStatus) (us : List Update) (e : AlertEngine)
    → AllOf i s us
    → IsQuiet e i s
    → ((run e us).1 ≡ []) × (stable_count (run e us).0 i ≡ stable_count e i + length us)
unfolding run
quiet_run i s [] e h q = (refl, omega arith)
quiet_run i s (u ∷ us) e h q =
    let (silent, quiet, counted) = IsQuiet-step_at u e i s h.0 h.1 q in
    let (rest_silent, rest_counted) =
      quiet_run i s us (process_wan_state u.now e u.state u.all_states).0 h.2 quiet in
    (rw (silent, rest_silent) refl, omega arith)

-- After any WAN state has been processed, further states of the same interface with the same status,
-- however many, raise no alert, and the count of stable polls grows by one for each.
pub repeated_states_quiet :
    (u : Update) (us : List Update) (e : AlertEngine)
    → AllOf u.state.interface u.state.status us
    → let after = (process_wan_state u.now e u.state u.all_states).0 in
      ((run after us).1 ≡ [])
      × (stable_count (run after us).0 u.state.interface
          ≡ stable_count after u.state.interface + length us)
repeated_states_quiet u us e h =
    quiet_run u.state.interface u.state.status us (process_wan_state u.now e u.state u.all_states).0
      h
      (rw (alert_state_of-process u.now e u.state u.all_states)
        (next_quiet u.now (alert_state_of e u.state.interface) u.state.status))

abbrev pub IsSettled : AlertState → Type 0
IsSettled a = (a.current_status ≢ down) × (5 ≤ a.consecutive_stable)

abbrev pub AllSettled : List AlertState → Type 0
AllSettled [] = Unit {0}
AllSettled (a ∷ as') = IsSettled a × AllSettled as'

any_unsettled_lem : (as' : List AlertState) → (any_unsettled as' ≡ false) ↔ AllSettled as'
unfolding any_unsettled
any_unsettled_lem [] = (λ h. tt, λ h. refl)
any_unsettled_lem (a ∷ as') =
    let (there, back) = any_unsettled_lem as' in
    (λ h. ((ground arith, ground arith), there (ground arith)), λ h. ground (arith, back h.1))

-- no tracked interface asks for the alert interval exactly when all are settled
pub should_use_alert_interval_lem :
    (e : AlertEngine)
    → (should_use_alert_interval e ≡ false) ↔ AllSettled (Dict.values e.wan_states)
unfolding should_use_alert_interval
should_use_alert_interval_lem e = any_unsettled_lem (Dict.values e.wan_states)
