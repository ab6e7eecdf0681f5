-- ===== src/Remote/Sentinel/OnTime.antt =====
-- The monitor loop of remote/main.py while the heartbeats come in time.
use mathlib.Core.Path.{subst}
use wan_router_notifications.Common.{
  ℕ, ◌+◌, ◌*◌, ◌≤◌, ◌≡◌, Bool, refl, sym, ap, ◌∙◌, false, List, [], ◌∷◌, some, arith, ltb,
}
use wan_router_notifications.Common.Int.{pos, ltb_ℤ, pos-*ℤ}
use wan_router_notifications.Shared.Clock.{Instant, minus}
use wan_router_notifications.Remote.HeartbeatStore.{
  HeartbeatStore, record_heartbeat, threshold, is_missing, should_alert_missing,
}
use wan_router_notifications.Remote.Sentinel.{
  sleeping, Sentinel, Event, heartbeat, woken, probed, answered, on_woken, step_in, step, run,
}

-- At every wake-up at most `limit` has passed since the newest heartbeat, the first of which came at
-- `last`.
abbrev pub OnTime : ℕ → Instant → List Event → Type 0
OnTime limit last [] = Unit {0}
OnTime limit last (heartbeat now payload ∷ es) = OnTime limit now es
OnTime limit last (woken check recheck now ∷ es) = (check ≤ last + limit) × OnTime limit last es
OnTime limit last (_ ∷ es) = OnTime limit last es

-- The sentinel sleeps, with these settings, remembers no outage, and had its last heartbeat then.
pub record IsCalm (interval count last : ℕ) (s : Sentinel) : Type 0 where
  pub every : s.store.expected_interval ≡ pos interval
  pub times : s.store.missed_threshold ≡ pos count
  pub newest : s.store.last_heartbeat ≡ some last
  pub sleeps : s.phase ≡ sleeping
  pub calm : s.was_missing ≡ false

-- After an event that changes nothing, a run goes on as before.
unmoved :
    (e : Event) (es : List Event) (s : Sentinel)
    → step e s ≡ s
    → run es s ≡ record s { store = (run es s).store }
    → run (e ∷ es) s ≡ record s { store = (run (e ∷ es) s).store }
unfolding run
unmoved e es s still h = subst (λ t. run es t ≡ record s { store = (run es t).store }) (sym still) h

-- The store takes heartbeats for missing exactly when it is late.
abbrev pub Judges : (Instant → Bool) → HeartbeatStore → Type 0
Judges late st = (now : Instant) → is_missing now st ≡ late now

judging_lem : (limit last now : ℕ) → ltb_ℤ (pos limit) (minus now last) ≡ ltb (last + limit) now
unfolding minus
judging_lem limit last now = ground arith

pub calm-Judges :
    (interval count last : ℕ) (s : Sentinel)
    → IsCalm interval count last s
    → Judges (ltb (last + interval * count * 1000000)) s.store
unfolding is_missing threshold
calm-Judges interval count last s c now =
    rw (c.newest, c.every, c.times, pos-*ℤ interval count, pos-*ℤ (interval * count) 1000000)
      (judging_lem (interval * count * 1000000) last now)

module _ (interval count : ℕ) where
  early-is_missing :
      (last now : ℕ) (s : Sentinel)
      → IsCalm interval count last s
      → now ≤ last + interval * count * 1000000
      → is_missing now s.store ≡ false
  early-is_missing last now s c h = calm-Judges interval count last s c now ∙ ground arith

  on_woken-calm :
      (last check recheck now : ℕ) (s : Sentinel)
      → IsCalm interval count last s
      → check ≤ last + interval * count * 1000000
      → on_woken check recheck now s ≡ s
  unfolding on_woken should_alert_missing
  on_woken-calm last check recheck now s c h = rw (early-is_missing last check s c h, c.calm) refl

  -- Where the sentinel sleeps, remembers no outage and had a heartbeat, and at every wake-up at most the
  -- interval times the threshold has passed since the newest one: whatever else happens, nothing but
  -- its store changes.
  pub quiet_heartbeats :
      (es : List Event) (last : Instant) (s : Sentinel)
      → IsCalm interval count last s
      → OnTime (interval * count * 1000000) last es
      → run es s ≡ record s { store = (run es s).store }
  unfolding run step step_in record_heartbeat
  quiet_heartbeats [] last s c h = refl
  quiet_heartbeats (heartbeat now payload ∷ es) last s c h =
      quiet_heartbeats es now (record s { store = record_heartbeat now payload s.store })
        (record {
          every = c.every;
          times = c.times;
          newest = refl;
          sleeps = c.sleeps;
          calm = c.calm;
        })
        h
  quiet_heartbeats (woken check recheck now ∷ es) last s c (early, later) =
      let awake = ap (λ p. step_in p (woken check recheck now) s) c.sleeps in
      unmoved (woken check recheck now) es s
        (awake ∙ on_woken-calm last check recheck now s c early)
        (quiet_heartbeats es last s c later)
  quiet_heartbeats (probed result fallback now ∷ es) last s c h =
      unmoved (probed result fallback now) es s
        (ap (λ p. step_in p (probed result fallback now) s) c.sleeps)
        (quiet_heartbeats es last s c h)
  quiet_heartbeats (answered bot ∷ es) last s c h =
      unmoved (answered bot) es s (ap (λ p. step_in p (answered bot) s) c.sleeps)
        (quiet_heartbeats es last s c h)
