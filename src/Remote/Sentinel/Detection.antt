-- ===== src/Remote/Sentinel/Detection.antt =====
-- One outage as the monitor loop of remote/main.py sees it, against a description of what it sends.
use mathlib.Core.List.{append-nil}
use wan_router_notifications.Common.{
  ℕ, ◌+◌, ◌*◌, ◌≡◌, ◌≢◌, refl, sym, ap, ◌∙◌, Bool, true, false, List, [], ◌∷◌, ◌++◌, map, ltb,
  arith, inl, inr, Bool-cases, if◌then◌else◌,
}
use wan_router_notifications.Common.Int.{ℤ}
use wan_router_notifications.Common.Result.{Result, returned, raised}
use wan_router_notifications.Shared.Clock.{Instant}
use wan_router_notifications.Shared.Models.{AlertEvent}
use wan_router_notifications.Shared.Telegram.{TelegramNotifier, send_alert, send_alert-ne-raised}
use wan_router_notifications.Remote.HeartbeatStore.{
  new_store, threshold, is_missing, should_alert_missing,
}
use wan_router_notifications.Remote.Sentinel.Outage.{NoHeartbeat}
use wan_router_notifications.Remote.Sentinel.Silence.{Forward, IsLasting, over_run}
use wan_router_notifications.Remote.Sentinel.OnTime.{IsCalm, Judges, calm-Judges}
use wan_router_notifications.Remote.Sentinel.FailedSends.{NoneRaise}
use wan_router_notifications.Remote.Sentinel.{
  Notice, lost, sleeping, probing, sending, Sentinel, new_sentinel, Event, heartbeat, woken, probed,
  answered, on_woken, on_probed, on_answered, step_in, step, run,
}

-- Does a send end, after a probe that ends, after a wake-up when it is late?
abbrev pub send_ends : List Event → Bool
send_ends [] = false
send_ends (answered bot ∷ es) = true
send_ends (_ ∷ es) = send_ends es

abbrev pub probe_ends : List Event → Bool
probe_ends [] = false
probe_ends (probed result fallback now ∷ es) = send_ends es
probe_ends (_ ∷ es) = probe_ends es

abbrev pub is_detected : (Instant → Bool) → List Event → Bool
is_detected late [] = false
is_detected late (woken check recheck now ∷ es) =
    let later = is_detected late es in if late check then probe_ends es else later
is_detected late (_ ∷ es) = is_detected late es

-- which alerts were sent, the newest first
abbrev pub notices : Sentinel → List Notice
notices s = map (λ n. n.0) s.sent

abbrev pub one_if : Bool → List Notice
one_if b = if b then lost ∷ [] else []

module _ (late : Instant → Bool) (lasting : IsLasting late) where
  answered_lost :
      (r : Result Bool) (es : List Event) (t : Instant) (s : Sentinel)
      → r ≢ raised
      → Judges late s.store
      → s.store.alerted_missing ≡ true
      → late t ≡ true
      → Forward t es
      → NoHeartbeat es
      → notices (run es (on_answered lost r s)) ≡ lost ∷ notices s
  unfolding on_answered
  answered_lost raised es t s n j a l f h = absurd (n refl)
  answered_lost (returned b) es t s n j a l f h =
      let s' = record s { was_missing = true; phase = sleeping; sent = (lost, b) ∷ s.sent } in
      ap notices (
        over_run late lasting es t s' j (record { sleeps = refl; flagged = a; remembered = refl }) l
          f h)

  while_sending :
      (es : List Event) (t : Instant) (alert : AlertEvent) (s : Sentinel)
      → Judges late s.store
      → s.store.alerted_missing ≡ true
      → late t ≡ true
      → Forward t es
      → NoHeartbeat es
      → NoneRaise es
      → notices (run es (record s { phase = sending lost alert }))
        ≡ one_if (send_ends es) ++ notices s
  unfolding run step step_in
  while_sending [] t alert s j a l f h n = refl
  while_sending (heartbeat now payload ∷ es) t alert s j a l f h n = elim h [ ]
  while_sending (woken check recheck now ∷ es) t alert s j a l (f, g, later) h n =
      while_sending es recheck alert s j a (lasting t recheck (omega arith) l) later h n
  while_sending (probed result fallback now ∷ es) t alert s j a l f h n =
      while_sending es t alert s j a l f h n
  while_sending (answered bot ∷ es) t alert s j a l f h (calm, n) =
      answered_lost (send_alert s.telegram bot alert) es t (record s { phase = sending lost alert })
        (send_alert-ne-raised s.telegram bot alert calm) j a l f h

  while_probing :
      (es : List Event) (t : Instant) (s : Sentinel)
      → Judges late s.store
      → s.store.alerted_missing ≡ true
      → late t ≡ true
      → Forward t es
      → NoHeartbeat es
      → NoneRaise es
      → notices (run es (record s { phase = probing })) ≡ one_if (probe_ends es) ++ notices s
  unfolding run step step_in on_probed
  while_probing [] t s j a l f h n = refl
  while_probing (heartbeat now payload ∷ es) t s j a l f h n = elim h [ ]
  while_probing (woken check recheck now ∷ es) t s j a l (f, g, later) h n =
      while_probing es recheck s j a (lasting t recheck (omega arith) l) later h n
  while_probing (probed result fallback now ∷ es) t s j a l f h n =
      while_sending es t _ s j a l f h n
  while_probing (answered bot ∷ es) t s j a l f h (calm, n) = while_probing es t s j a l f h n

  flagged-Judges :
      (s : Sentinel) → Judges late s.store → Judges late (record s.store { alerted_missing = true })
  unfolding is_missing threshold
  flagged-Judges s j = j

  late_woken :
      (check recheck now : Instant) (s : Sentinel)
      → Judges late s.store
      → s.store.alerted_missing ≡ false
      → late check ≡ true
      → on_woken check recheck now (record s { phase = sleeping })
        ≡ record s { store = record s.store { alerted_missing = true }; phase = probing }
  unfolding on_woken should_alert_missing
  late_woken check recheck now s j a l = rw (j check, l, a) refl

  early_woken :
      (check recheck now : Instant) (s : Sentinel)
      → Judges late s.store
      → s.was_missing ≡ false
      → late check ≡ false
      → on_woken check recheck now (record s { phase = sleeping }) ≡ record s { phase = sleeping }
  unfolding on_woken should_alert_missing
  early_woken check recheck now s j w early = rw (j check, early, w) refl

  while_sleeping :
      (es : List Event) (t : Instant) (s : Sentinel)
      → Judges late s.store
      → s.store.alerted_missing ≡ false
      → s.was_missing ≡ false
      → Forward t es
      → NoHeartbeat es
      → NoneRaise es
      → notices (run es (record s { phase = sleeping })) ≡ one_if (is_detected late es) ++ notices s
  unfolding run step step_in
  while_sleeping [] t s j a w f h n = refl
  while_sleeping (heartbeat now payload ∷ es) t s j a w f h n = elim h [ ]
  while_sleeping (woken check recheck now ∷ es) t s j a w (f, g, later) h n =
      elim (Bool-cases (late check)) [
        | inl l ↦
            ap (λ q. notices (run es q)) (late_woken check recheck now s j a l)
            ∙ (while_probing es recheck
                  (record s { store = record s.store { alerted_missing = true } })
                  (flagged-Judges s j) refl (lasting check recheck g l) later h n
                ∙ ap (λ b. one_if (if b then probe_ends es else is_detected late es) ++ notices s)
                    (sym l))
        | inr early ↦
            ap (λ q. notices (run es q)) (early_woken check recheck now s j w early)
            ∙ (while_sleeping es recheck s j a w later h n
                ∙ ap (λ b. one_if (if b then probe_ends es else is_detected late es) ++ notices s)
                    (sym early))
      ]
  while_sleeping (probed result fallback now ∷ es) t s j a w f h n =
      while_sleeping es t s j a w f h n
  while_sleeping (answered bot ∷ es) t s j a w f h (calm, n) = while_sleeping es t s j a w f h n

deadline-IsLasting : (deadline : ℕ) → IsLasting (ltb deadline)
deadline-IsLasting deadline t u order l = ground arith

-- Where the sentinel sleeps, remembers no outage and had a heartbeat, of which no alert has been made,
-- with settings that are not negative, and no further heartbeat comes, the clock does not go back, and
-- no send raises anything but a `TelegramError`: whatever else happens, exactly one alert is sent, a
-- lost one, if a wake-up comes later than the interval times the threshold after the heartbeat, a
-- probe then ends, and a send then ends; and else none.
pub one_lost_alert :
    (interval count last : ℕ) (es : List Event) (s : Sentinel)
    → IsCalm interval count last s
    → s.store.alerted_missing ≡ false
    → NoHeartbeat es
    → Forward last es
    → NoneRaise es
    → notices (run es s)
      ≡ one_if (is_detected (ltb (last + interval * count * 1000000)) es) ++ notices s
one_lost_alert interval count last es s c a h f n =
    ap (λ p. notices (run es (record s { phase = p }))) c.sleeps
    ∙ while_sleeping (ltb (last + interval * count * 1000000))
        (deadline-IsLasting (last + interval * count * 1000000)) es last s
        (calm-Judges interval count last s c) a c.calm f h n

-- Where no heartbeat has come to a sentinel since its start, the clock does not go back, and no send
-- raises anything but a `TelegramError`: whatever the settings and whatever else happens, exactly one
-- alert is sent, a lost one, if a wake-up comes, a probe then ends, and a send then ends; and else
-- none. So the first test of the loop, at its start, begins the alert at once.
pub start_alarms :
    (expected_interval missed_threshold : ℤ) (telegram : TelegramNotifier) (t : Instant)
    (es : List Event)
    → NoHeartbeat es
    → Forward t es
    → NoneRaise es
    → notices (run es (new_sentinel expected_interval missed_threshold telegram))
      ≡ one_if (is_detected (λ now. true) es)
unfolding new_sentinel new_store is_missing
start_alarms expected_interval missed_threshold telegram t es h f n =
    while_sleeping (λ now. true) (λ a b order l. refl) es t
      (new_sentinel expected_interval missed_threshold telegram) (λ now. refl) refl refl f h n
    ∙ append-nil (one_if (is_detected (λ now. true) es))
