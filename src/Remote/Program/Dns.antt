-- ===== src/Remote/Program/Dns.antt =====
-- The DNS loop step by step against a whole iteration of it.
use mathlib.Core.List.{append-nil, append_assoc}
use wan_router_notifications.Common.{
  ℕ, zero, suc, ◌≡◌, refl, sym, ap, ◌∙◌, Bool, true, List, [], ◌∷◌, ◌++◌, some, length,
  if◌then◌else◌,
}
use wan_router_notifications.Common.Int.{ℤ, pos}
use wan_router_notifications.Common.Result.{Result, returned, raised}
use wan_router_notifications.Shared.Clock.{Instant}
use wan_router_notifications.Shared.Models.{AlertEvent}
use wan_router_notifications.Shared.Telegram.{Bot, send_alert}
use wan_router_notifications.Remote.DnsMonitor.{DnsMonitor, DnsAnswer, check as dns_check}
use wan_router_notifications.Remote.DnsLoop.Sends.{IsStopped, none_left, send_all-SendsOf}
use wan_router_notifications.Remote.DnsLoop.{turn, send_all, after_check, iterate}
use wan_router_notifications.Remote.Program.{
  DnsPlace, dns_head, dns_sending, dns_asleep, Program, Event, dns_checked, dns_answered, dns_next,
  after_dns_check, after_dns_send, step_at, step, run,
}

-- the answers to `n` sends
abbrev pub answers : (ℕ → Bot) → ℕ → List Event
answers bot zero = []
answers bot (suc n) = dns_answered (bot n) ∷ answers bot n

-- a program that serves and runs, its DNS loop at a place with a monitor and what it has sent
abbrev pub dns_at : Program → DnsMonitor → DnsPlace → List AlertEvent → Program
dns_at p m place sent = record p {
  serving = true;
  running = true;
  dns = some m;
  dns_place = place;
  dns_sent = sent;
}

-- how many alerts a check gives
abbrev pub alert_count : Result (List AlertEvent) → ℕ
alert_count raised = 0
alert_count (returned alerts) = length alerts

asleep_ignores :
    (bot : ℕ → Bot) (n : ℕ) (p : Program) (m : DnsMonitor) (d : ℤ) (sent : List AlertEvent)
    → run (answers bot n) (dns_at p m (dns_asleep d) sent) ≡ dns_at p m (dns_asleep d) sent
unfolding run step step_at
asleep_ignores bot zero p m d sent = refl
asleep_ignores bot (suc n) p m d sent = asleep_ignores bot n p m d sent

-- the place and the sent alerts after the sends
abbrev sent_by : ℤ → List AlertEvent → List AlertEvent × Bool → DnsPlace × List AlertEvent
sent_by interval before (sent, all) =
    (dns_asleep (if all then interval else pos 60), before ++ sent)

module _ (bot : ℕ → Bot) (p : Program) (m : DnsMonitor) where
  abbrev AfterSends : List AlertEvent → List AlertEvent → Type 0
  AfterSends before alerts =
      run (answers bot (length alerts)) (dns_at p m (dns_next p.dns_interval alerts) before) ≡ (
        let (place, sent) =
          sent_by p.dns_interval before (send_all p.sentinel.telegram bot alerts) in
        dns_at p m place sent)

  run-answers : (before alerts : List AlertEvent) → AfterSends before alerts
  unfolding run step step_at send_all
  run-answers before [] = ap (dns_at p m (dns_asleep p.dns_interval)) (sym (append-nil before))
  run-answers before (alert ∷ rest) =
      by_result (send_alert p.sentinel.telegram (bot (length rest)) alert)
        (run-answers (before ++ alert ∷ []) rest)
    where
      by_result :
          (r : Result Bool)
          → AfterSends (before ++ alert ∷ []) rest
          → run
              (answers bot (length rest))
              (after_dns_send alert rest r (dns_at p m (dns_sending alert rest) before))
            ≡ (let (place, sent) =
                  sent_by p.dns_interval before
                    (turn alert (send_all p.sentinel.telegram bot rest) r) in
                dns_at p m place sent)
      by_result raised h =
          asleep_ignores bot (length rest) p m (pos 60) before
          ∙ ap (dns_at p m (dns_asleep (pos 60))) (sym (append-nil before))
      by_result (returned ok) h =
          let (sent, all) = send_all p.sentinel.telegram bot rest in
          h
          ∙ ap (dns_at p m (dns_asleep (if all then p.dns_interval else pos 60)))
              (append_assoc before (alert ∷ []) sent)

-- the loop step by step as a whole iteration
dns_loop_refines :
    (bot : ℕ → Bot) (p : Program) (m : DnsMonitor) (before : List AlertEvent) (now : Instant)
    (answer : DnsAnswer)
    → run
        (dns_checked now answer ∷ answers bot (alert_count (dns_check now answer m).1))
        (dns_at p m dns_head before)
      ≡ (let i = iterate p.sentinel.telegram p.dns_interval bot now answer m in
          dns_at p i.monitor (dns_asleep i.sleep) (before ++ i.sent))
unfolding run step step_at iterate
dns_loop_refines bot p m before now answer =
    by_check (dns_check now answer m).0 (dns_check now answer m).1
  where
    by_check :
        (m' : DnsMonitor) (o : Result (List AlertEvent))
        → run (answers bot (alert_count o)) (after_dns_check (m', o) (dns_at p m dns_head before))
          ≡ (let i = after_check p.sentinel.telegram p.dns_interval bot (m', o) in
              dns_at p i.monitor (dns_asleep i.sleep) (before ++ i.sent))
    by_check m' raised = ap (dns_at p m' (dns_asleep (pos 60))) (sym (append-nil before))
    by_check m' (returned alerts) = run-answers bot p m' before alerts

-- What is sent of the result of a check, and the sleep after it.
abbrev pub Delivers : Program → (ℕ → Bot) → Result (List AlertEvent) → List AlertEvent → ℤ → Type 0
Delivers p bot raised sent d = (sent ≡ []) × (d ≡ pos 60)
Delivers p bot (returned alerts) sent d =
    (rest : List AlertEvent) × ((sent ++ rest ≡ alerts)
      × IsStopped p.sentinel.telegram bot rest
      × (d ≡ (if none_left p.sentinel.telegram bot rest then p.dns_interval else pos 60)))

after_check-Delivers :
    (p : Program) (bot : ℕ → Bot) (m : DnsMonitor) (o : Result (List AlertEvent))
    → let i = after_check p.sentinel.telegram p.dns_interval bot (m, o) in
      Delivers p bot o i.sent i.sleep
after_check-Delivers p bot m raised = (refl, refl)
after_check-Delivers p bot m (returned alerts) =
    let (rest, (parts, stop, all)) = send_all-SendsOf p.sentinel.telegram bot alerts in
    (rest, (parts, stop, ap (λ b. if b then p.dns_interval else pos 60) all))

-- Where the program serves and runs and its DNS loop is at its head: a check and the answers to its
-- sends, one for each alert, bring the loop to a sleep with the monitor that the check leaves, and
-- change nothing else. If the check raises, nothing is sent, and the sleep is of 60 seconds; else what
-- is sent and some rest are the check's alerts in order, the rest is empty or the send of its first
-- alert raises, and the sleep is of the configured interval if it is empty, and of 60 seconds if not.
pub dns_loop_sends :
    (bot : ℕ → Bot) (p : Program) (m : DnsMonitor) (before : List AlertEvent) (now : Instant)
    (answer : DnsAnswer)
    → let (after, o) = dns_check now answer m in
      (sent : List AlertEvent) × ((d : ℤ) × (Delivers p bot o sent d
          × (run (dns_checked now answer ∷ answers bot (alert_count o)) (dns_at p m dns_head before)
              ≡ dns_at p after (dns_asleep d) (before ++ sent))))
unfolding iterate
dns_loop_sends bot p m before now answer =
    let (after, o) = dns_check now answer m in
    let i = after_check p.sentinel.telegram p.dns_interval bot (after, o) in
    let whole = dns_loop_refines bot p m before now answer in
    (i.sent, (i.sleep, (after_check-Delivers p bot after o, whole ∙ kept after o)))
  where
    kept :
        (after : DnsMonitor) (o : Result (List AlertEvent))
        → let i = after_check p.sentinel.telegram p.dns_interval bot (after, o) in
          dns_at p i.monitor (dns_asleep i.sleep) (before ++ i.sent)
          ≡ dns_at p after (dns_asleep i.sleep) (before ++ i.sent)
    kept after raised = refl
    kept after (returned alerts) = refl
