-- ===== src/Local/SnmpPoller/Since.antt =====
-- What `since` means over any number of polls.
use mathlib.Core.Path.{subst}
use wan_router_notifications.Common.{
  ℕ, ◌≡◌, refl, sym, ◌≢◌, ◌⊎◌, inl, inr, List, [], ◌∷◌, Option, none, some, arith, Bool-cases,
}
use wan_router_notifications.Common.Text.{Text}
use wan_router_notifications.Common.Dict
use wan_router_notifications.Common.Dict.{Dict}
use wan_router_notifications.Shared.Clock.{Instant}
use wan_router_notifications.Shared.Models.{InterfaceStatus, status_eq, status_eq_iff, WanState}
use wan_router_notifications.Local.SnmpPoller.Queries.{Answer, next_hop, LinkAnswer, if_oper_status}
use wan_router_notifications.Local.SnmpPoller.Status.{state_for, get-wan_states}
use wan_router_notifications.Local.SnmpPoller.{
  SnmpPoller, new_poller, active_wan, status_of, since_of, poll,
}

-- What one poll meets: the clock and the answers.
pub record Round : Type 0 where
  pub now : Instant
  pub route : Answer
  pub links : Text → LinkAnswer

module _ (gateways : Dict Text) (interfaces : Dict ℕ) where
  -- The poller after some rounds, the newest first.
  unfoldable pub after : List Round → SnmpPoller
  after [] = new_poller gateways interfaces
  after (r ∷ older) = (poll r.now r.route r.links (after older)).0

  -- The times and statuses at which a WAN was polled, the newest first.
  abbrev pub history : Text → List Round → List (Instant × InterfaceStatus)
  history name [] = []
  history name (r ∷ older) =
      (r.now, status_of name (active_wan (new_poller gateways interfaces) (next_hop r.route)))
      ∷ history name older

-- The newest entry, if there is one, has another status.
abbrev pub NotNewest : InterfaceStatus → List (Instant × InterfaceStatus) → Type 0
NotNewest s [] = Unit {0}
NotNewest s ((t, u) ∷ h) = u ≢ s

-- The run of status `s` at the newest end of the history began with the entry of time `t`.
abbrev pub RunBegan : Instant → InterfaceStatus → List (Instant × InterfaceStatus) → Type 0
RunBegan t s [] = ⊥
RunBegan t s ((n, u) ∷ h) = (u ≡ s) × (RunBegan t s h ⊎ ((n ≡ t) × NotNewest s h))

-- The last state of the WAN is that of the newest round, and its `since` is the beginning of the run.
abbrev Tracks : Text → Option WanState → List (Instant × InterfaceStatus) → Type 0
Tracks name none h = h ≡ []
Tracks name (some s) h = (s.interface ≡ name) × RunBegan s.since s.status h

since_began :
    (name : Text) (last : Option WanState) (h : List (Instant × InterfaceStatus))
    (s : InterfaceStatus) (now : Instant)
    → Tracks name last h
    → RunBegan (since_of last s now) s ((now, s) ∷ h)
unfolding since_of
since_began name none h s now e = (refl, inr (refl, rw e tt))
since_began name (some p) [] s now (at_name, began) = elim began [ ]
since_began name (some p) ((n, u) ∷ h) s now (at_name, began) =
    elim (Bool-cases (status_eq p.status s)) [
      | inl same ↦
          let kept : since_of (some p) s now ≡ p.since = rw same in
          subst (λ t. RunBegan t s ((now, s) ∷ (n, u) ∷ h)) (sym kept)
            (
              refl,
              inl (
                  subst (λ t. RunBegan p.since t ((n, u) ∷ h)) ((status_eq_iff p.status s).0 same)
                    began),
            )
      | inr other ↦
          let reset : since_of (some p) s now ≡ now = rw other in
          subst (λ t. RunBegan t s ((now, s) ∷ (n, u) ∷ h)) (sym reset)
            (refl, inr (refl, λ e. ground (arith, status_eq_iff p.status s, began.0)))
    ]

module _ (gateways : Dict Text) (interfaces : Dict ℕ) where
  after-gateways : (rs : List Round) → (after gateways interfaces rs).wan_gateways ≡ gateways
  unfolding after new_poller poll
  after-gateways [] = refl
  after-gateways (r ∷ rs) = after-gateways rs

  after-active :
      (rs : List Round) (hop : Option Text)
      → active_wan (after gateways interfaces rs) hop
        ≡ active_wan (new_poller gateways interfaces) hop
  unfolding after new_poller poll active_wan
  after-active [] hop = refl
  after-active (r ∷ rs) none = refl
  after-active (r ∷ rs) (some hop) = after-active rs (some hop)

  -- one round: what is stored, and when its run began
  stored_step :
      (name gw : Text) (r : Round) (rs : List Round)
      → Dict.get gateways name ≡ some gw
      → Tracks name
          (Dict.get (after gateways interfaces rs).last_states name)
          (history gateways interfaces name rs)
      → (s : WanState) × (Dict.get (after gateways interfaces (r ∷ rs)).last_states name ≡ some s)
        × (s.interface ≡ name)
        × RunBegan s.since s.status (history gateways interfaces name (r ∷ rs))
  unfolding after poll
  stored_step name gw r rs h tracked =
      let p = after gateways interfaces rs in
      let active = active_wan p (next_hop r.route) in
      let link = Dict.get (if_oper_status r.links p.wan_interfaces) in
      let here : Dict.get p.wan_gateways name ≡ some gw = rw (after-gateways rs) h in
      (
        state_for r.now p.last_states active link name,
        get-wan_states r.now p.last_states active link p.wan_gateways name gw here,
        refl,
        rw (← after-active rs (next_hop r.route)) (
            since_began name (Dict.get p.last_states name) (history gateways interfaces name rs)
              (status_of name active) r.now tracked),
      )

  after-Tracks :
      (name gw : Text) (rs : List Round)
      → Dict.get gateways name ≡ some gw
      → Tracks name
          (Dict.get (after gateways interfaces rs).last_states name)
          (history gateways interfaces name rs)
  after-Tracks name gw [] h = unfold after new_poller Dict.get in refl
  after-Tracks name gw (r ∷ rs) h =
      let (s, stored, at_name, began) = stored_step name gw r rs h (after-Tracks name gw rs h) in
      subst (λ o. Tracks name o (history gateways interfaces name (r ∷ rs))) (sym stored)
        (at_name, began)

  -- After one or more polls of a new poller, the state of each configured WAN is there under its
  -- name, and its `since` is the time of the poll at which the current run of its status began: the
  -- oldest of the newest polls that all gave this status.
  pub since_is_run_start :
      (name gw : Text) (r : Round) (rs : List Round)
      → Dict.get gateways name ≡ some gw
      → (s : WanState) × (Dict.get (after gateways interfaces (r ∷ rs)).last_states name ≡ some s)
        × (s.interface ≡ name)
        × RunBegan s.since s.status (history gateways interfaces name (r ∷ rs))
  since_is_run_start name gw r rs h = stored_step name gw r rs h (after-Tracks name gw rs h)
