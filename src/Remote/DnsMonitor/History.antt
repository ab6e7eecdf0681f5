-- ===== src/Remote/DnsMonitor/History.antt =====
-- The DNS monitor against the history of its checks.
use mathlib.Core.List.{map-append}
use mathlib.Core.Path.{ap₂}
use wan_router_notifications.Common.{
  ℕ, ◌+◌, ◌≡◌, refl, ◌∙◌, ap, not, List, [], ◌∷◌, ◌++◌, map, Option, none, some, arith, leb,
  if◌then◌else◌,
}
use wan_router_notifications.Common.Result.{Result, returned, raised}
use wan_router_notifications.Common.Text.{Text, codes, text_eq, is_truthy}
use wan_router_notifications.Shared.Clock.{Instant}
use wan_router_notifications.Shared.Models.{AlertEvent}
use wan_router_notifications.Remote.DnsMonitor.{
  DnsAnswer, addresses, gaierror, other_error, DnsMonitor, new_monitor, check, failure_alert,
  change_alert, mismatch_alert, change_alerts, mismatch_alerts,
}

-- One check: the clock and the answer.
pub record Check : Type 0 where
  pub now : Instant
  pub answer : DnsAnswer

module _ (hostname expected_ip : Text) where
  -- The monitor after some checks, the newest first.
  unfoldable pub after : List Check → DnsMonitor
  after [] = new_monitor hostname expected_ip
  after (c ∷ older) = (check c.now c.answer (after older)).0

-- The address of the newest check that resolved the name.
abbrev pub newest_ip : List DnsAnswer → Option Text
newest_ip [] = none
newest_ip (addresses [] ∷ h) = newest_ip h
newest_ip (addresses (ip ∷ rest) ∷ h) = some ip
newest_ip (gaierror ∷ h) = newest_ip h
newest_ip (other_error ∷ h) = newest_ip h

-- How many checks failed to resolve since then; a check that raised does not count.
abbrev pub failures : List DnsAnswer → ℕ
failures [] = 0
failures (addresses [] ∷ h) = failures h + 1
failures (addresses (ip ∷ rest) ∷ h) = 0
failures (gaierror ∷ h) = failures h + 1
failures (other_error ∷ h) = failures h

abbrev pub answers : List Check → List DnsAnswer
answers = map (λ c. c.answer)

abbrev pub titles : Result (List AlertEvent) → Option (List Text)
titles raised = none
titles (returned alerts) = some (map (λ a. a.title) alerts)

-- The titles that a check should have after the history `h`; `none` if it raises.
abbrev expected_change : Text → Option Text → Text → List Text
expected_change hostname none ip = []
expected_change hostname (some old) ip =
    if text_eq ip old then [] else (codes "DNS record changed for " ++ hostname) ∷ []

abbrev expected_mismatch : Text → Text → Text → List Text
expected_mismatch hostname expected ip =
    if not (is_truthy expected)
    then []
    else if text_eq ip expected
    then []
    else (codes "DNS mismatch for " ++ hostname) ∷ []

abbrev expected_failure : Text → ℕ → List Text
expected_failure hostname n =
    if leb 2 n then (codes "DNS resolution failed for " ++ hostname) ∷ [] else []

unfoldable pub expected_titles : Text → Text → DnsAnswer → List DnsAnswer → Option (List Text)
expected_titles hostname expected (addresses []) h =
    some (expected_failure hostname (failures h + 1))
expected_titles hostname expected gaierror h = some (expected_failure hostname (failures h + 1))
expected_titles hostname expected other_error h = none
expected_titles hostname expected (addresses (ip ∷ rest)) h =
    some (expected_change hostname (newest_ip h) ip ++ expected_mismatch hostname expected ip)

abbrev title_list : List AlertEvent → List Text
title_list = map (λ a. a.title)

failure_titles :
    (now : Instant) (m : DnsMonitor) (n : ℕ)
    → title_list (if leb 2 n then failure_alert now m ∷ [] else []) ≡ expected_failure m.hostname n
unfolding failure_alert
failure_titles now m n = ground arith

change_titles :
    (now : Instant) (old : Option Text) (ip : Text) (m : DnsMonitor)
    → title_list (change_alerts now old ip m) ≡ expected_change m.hostname old ip
unfolding change_alerts change_alert
change_titles now none ip m = refl
change_titles now (some old) ip m = ground arith

mismatch_titles :
    (now : Instant) (ip : Text) (m : DnsMonitor)
    → title_list (mismatch_alerts now ip m) ≡ expected_mismatch m.hostname m.expected_ip ip
unfolding mismatch_alerts mismatch_alert
mismatch_titles now ip m = ground arith

resolved_titles :
    (now : Instant) (old : Option Text) (ip : Text) (m : DnsMonitor)
    → title_list (change_alerts now old ip m ++ mismatch_alerts now ip m)
      ≡ expected_change m.hostname old ip ++ expected_mismatch m.hostname m.expected_ip ip
resolved_titles now old ip m =
    map-append (λ (a : AlertEvent). a.title) (change_alerts now old ip m) (mismatch_alerts now ip m)
    ∙ ap₂ ◌++◌ (change_titles now old ip m) (mismatch_titles now ip m)

module _ (hostname expected_ip : Text) where
  record Recalls (m : DnsMonitor) (h : List DnsAnswer) : Type 0 where
    named : m.hostname ≡ hostname
    expects : m.expected_ip ≡ expected_ip
    seen : m.last_seen_ip ≡ newest_ip h
    failed : m.consecutive_failures ≡ failures h

  check-Recalls :
      (now : Instant) (a : DnsAnswer) (m : DnsMonitor) (h : List DnsAnswer)
      → Recalls m h
      → Recalls (check now a m).0 (a ∷ h)
  unfolding check
  check-Recalls now (addresses []) m h r = ground arith
  check-Recalls now (addresses (ip ∷ rest)) m h r = ground arith
  check-Recalls now gaierror m h r = ground arith
  check-Recalls now other_error m h r = ground arith

  after-Recalls : (cs : List Check) → Recalls (after hostname expected_ip cs) (answers cs)
  unfolding after
  after-Recalls [] =
      unfold new_monitor in record { named = refl; expects = refl; seen = refl; failed = refl }
  after-Recalls (c ∷ cs) =
      check-Recalls c.now c.answer (after hostname expected_ip cs) (answers cs) (after-Recalls cs)

  failed_titles :
      (now : Instant) (m : DnsMonitor) (h : List DnsAnswer)
      → Recalls m h
      → (let m' = record m { consecutive_failures = m.consecutive_failures + 1 } in
          title_list (if leb 2 m'.consecutive_failures then failure_alert now m' ∷ [] else []))
        ≡ expected_failure hostname (failures h + 1)
  failed_titles now m h r =
      failure_titles now (record m { consecutive_failures = m.consecutive_failures + 1 })
        (m.consecutive_failures + 1)
      ∙ ap₂ (λ i n. expected_failure i (n + 1)) r.named r.failed

  check-titles :
      (now : Instant) (a : DnsAnswer) (m : DnsMonitor) (h : List DnsAnswer)
      → Recalls m h
      → titles (check now a m).1 ≡ expected_titles hostname expected_ip a h
  unfolding check expected_titles
  check-titles now (addresses []) m h r = ap some (failed_titles now m h r)
  check-titles now (addresses (ip ∷ rest)) m h r = ap some (
      resolved_titles now m.last_seen_ip ip (record m { consecutive_failures = 0 })
      ∙ (rw (r.seen, r.named, r.expects) refl))
  check-titles now gaierror m h r = ap some (failed_titles now m h r)
  check-titles now other_error m h r = refl

  -- After any checks of a new monitor, the titles of the next check's alerts are those of the
  -- independent description by the history: a failure is reported from the second one in a row on;
  -- an address is reported as changed if it differs from the newest one seen, and as a mismatch if
  -- an address is expected and differs; a check raises exactly if the resolver does.
  pub check-titles_by_history :
      (cs : List Check) (now : Instant) (a : DnsAnswer)
      → titles (check now a (after hostname expected_ip cs)).1
        ≡ expected_titles hostname expected_ip a (answers cs)
  check-titles_by_history cs now a =
      check-titles now a (after hostname expected_ip cs) (answers cs) (after-Recalls cs)
