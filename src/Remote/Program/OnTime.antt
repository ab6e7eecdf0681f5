-- ===== src/Remote/Program/OnTime.antt =====
-- The whole program of remote/main.py while the heartbeats come in time.
use mathlib.Core.Path.{subst}
use wan_router_notifications.Common.{
  ℕ, ◌+◌, ◌*◌, ◌≤◌, ◌≡◌, refl, sym, ap, ◌∙◌, true, false, not, ◌&&◌, List, [], ◌∷◌, ◌++◌, inl, inr,
  Bool-cases,
}
use wan_router_notifications.Shared.Clock.{Instant}
use wan_router_notifications.Remote.Sentinel.{Event as Own}
use wan_router_notifications.Remote.Sentinel.OnTime.{OnTime as AllOnTime, IsCalm, quiet_heartbeats}
use wan_router_notifications.Remote.Program.Monitoring.{own, owns, sentinel_refined}
use wan_router_notifications.Remote.Program.{
  Program, Event, posted, monitor_woken, monitor_probed, monitor_answered, probe_begun, probe_woken,
  probe_done, dns_checked, dns_answered, dns_woken, stop_called, served, step_at, step, run,
}

-- At every wake-up of the monitor loop at most `limit` has passed since the newest heartbeat, the
-- first of which came at `last`.
abbrev pub InTime : ℕ → Instant → List Event → Type 0
InTime limit last [] = Unit {0}
InTime limit last (posted now later payload ∷ es) = InTime limit now es
InTime limit last (monitor_woken t recheck now ∷ es) = (t ≤ last + limit) × InTime limit last es
InTime limit last (_ ∷ es) = InTime limit last es

-- Once the server has ended, nothing reaches the sentinel.
ended-owns : (es : List Event) (p : Program) → p.serving ≡ false → owns es p ≡ []
unfolding step
ended-owns [] p h = refl
ended-owns (e ∷ es) p h =
    let still = ap (λ b. step_at b e p) h in
    ap (λ b. own b e p ++ owns es (step_at p.serving e p)) h
    ∙ (ap (owns es) still ∙ ended-owns es p h)

module _ (limit : ℕ) where
  -- what comes before events that are in time whenever the others are
  own-OnTime :
      (e : Event) (es : List Event) (p : Program) (last : Instant) (rest : List Own)
      → ((t : Instant) → InTime limit t es → AllOnTime limit t rest)
      → InTime limit last (e ∷ es)
      → AllOnTime limit last (own true e p ++ rest)
  own-OnTime (posted now later payload) es p last rest f h = f now h
  own-OnTime (monitor_woken t recheck now) es p last rest f (early, h) =
      elim (Bool-cases (not p.monitor_ended && p.running)) [
        | inl goes ↦ rw goes (early, f last h)
        | inr over ↦ rw over (f last h)
      ]
  own-OnTime (monitor_probed http connects fallback now) es p last rest f h = f last h
  own-OnTime (monitor_answered bot) es p last rest f h = f last h
  own-OnTime probe_begun es p last rest f h = f last h
  own-OnTime probe_woken es p last rest f h = f last h
  own-OnTime (probe_done http connects) es p last rest f h = f last h
  own-OnTime (dns_checked now answer) es p last rest f h = f last h
  own-OnTime (dns_answered bot) es p last rest f h = f last h
  own-OnTime dns_woken es p last rest f h = f last h
  own-OnTime stop_called es p last rest f h = f last h
  own-OnTime served es p last rest f h = f last h

  owns-OnTime :
      (es : List Event) (p : Program) (last : Instant)
      → InTime limit last es
      → AllOnTime limit last (owns es p)
  owns-OnTime [] p last h = tt
  owns-OnTime (e ∷ es) p last h = elim (Bool-cases p.serving) [
    | inl serves ↦
        subst (λ b. AllOnTime limit last (own b e p ++ owns es (step e p))) (sym serves)
          (own-OnTime e es p last (owns es (step e p)) (λ t k. owns-OnTime es (step e p) t k) h)
    | inr over ↦ subst (AllOnTime limit last) (sym (ended-owns (e ∷ es) p over)) tt
  ]

-- From any state of the program in which its sentinel sleeps, remembers no outage and had a heartbeat,
-- with settings that are not negative: where at every wake-up of the monitor loop at most the interval
-- times the threshold has passed since the newest heartbeat, nothing of the sentinel but its store
-- changes, whatever else happens. So no alert of that loop is sent or prepared.
pub no_false_alarm :
    (interval count last : ℕ) (es : List Event) (p : Program)
    → IsCalm interval count last p.sentinel
    → InTime (interval * count * 1000000) last es
    → (run es p).sentinel ≡ record p.sentinel { store = (run es p).sentinel.store }
no_false_alarm interval count last es p calm h =
    let in_time = owns-OnTime (interval * count * 1000000) es p last h in
    let same = sentinel_refined es p in
    same
    ∙ (quiet_heartbeats interval count (owns es p) last p.sentinel calm in_time
        ∙ ap (λ s. record p.sentinel { store = s.store }) (sym same))
