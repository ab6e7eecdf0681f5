-- ===== src/Remote/Sentinel/Silence.antt =====
-- The monitor loop of remote/main.py after a lost alert, until a heartbeat comes.
use wan_router_notifications.Common.{
  ◌≤◌, ◌≡◌, Bool, refl, ap, ◌∙◌, true, List, [], ◌∷◌, arith, inl, inr, Bool-cases,
}
use wan_router_notifications.Shared.Clock.{Instant}
use wan_router_notifications.Remote.HeartbeatStore.{is_missing, should_alert_missing}
use wan_router_notifications.Remote.Sentinel.Outage.{NoHeartbeat}
use wan_router_notifications.Remote.Sentinel.OnTime.{Judges}
use wan_router_notifications.Remote.Sentinel.{
  sleeping, Sentinel, Event, heartbeat, woken, probed, answered, on_woken, step_in, step, run,
}

-- The clock, which was at `t`, does not go back at the tests of the loop.
abbrev pub Forward : Instant → List Event → Type 0
Forward t [] = Unit {0}
Forward t (woken check recheck now ∷ es) = (t ≤ check) × (check ≤ recheck) × Forward recheck es
Forward t (_ ∷ es) = Forward t es

-- the outage has been alerted and is remembered
pub record IsOver (s : Sentinel) : Type 0 where
  pub sleeps : s.phase ≡ sleeping
  pub flagged : s.store.alerted_missing ≡ true
  pub remembered : s.was_missing ≡ true

-- Once it is late, it stays late.
abbrev pub IsLasting : (Instant → Bool) → Type 0
IsLasting late = (t u : Instant) → t ≤ u → late t ≡ true → late u ≡ true

module _ (late : Instant → Bool) (lasting : IsLasting late) where
  over_woken :
      (check recheck now : Instant) (s : Sentinel)
      → Judges late s.store
      → IsOver s
      → late recheck ≡ true
      → on_woken check recheck now s ≡ s
  unfolding on_woken should_alert_missing
  over_woken check recheck now s j o h =
      let missing : is_missing recheck s.store ≡ true = j recheck ∙ h in
      elim (Bool-cases (is_missing check s.store)) [
        | inl gone ↦ rw (missing, o.remembered, gone, o.flagged) refl
        | inr there ↦ rw (missing, o.remembered, there) refl
      ]

  -- Nothing more happens until a heartbeat comes.
  pub over_run :
      (es : List Event) (t : Instant) (s : Sentinel)
      → Judges late s.store
      → IsOver s
      → late t ≡ true
      → Forward t es
      → NoHeartbeat es
      → run es s ≡ s
  unfolding run step step_in
  over_run [] t s j o l f h = refl
  over_run (heartbeat now payload ∷ es) t s j o l f h = elim h [ ]
  over_run (woken check recheck now ∷ es) t s j o l (f, g, later) h =
      let after = lasting t recheck (omega arith) l in
      let still : step (woken check recheck now) s ≡ s =
        ap (λ p. step_in p (woken check recheck now) s) o.sleeps
        ∙ over_woken check recheck now s j o after in
      ap (run es) still ∙ over_run es recheck s j o after later h
  over_run (probed result fallback now ∷ es) t s j o l f h =
      ap (run es) (ap (λ p. step_in p (probed result fallback now) s) o.sleeps)
      ∙ over_run es t s j o l f h
  over_run (answered bot ∷ es) t s j o l f h =
      ap (run es) (ap (λ p. step_in p (answered bot) s) o.sleeps) ∙ over_run es t s j o l f h
