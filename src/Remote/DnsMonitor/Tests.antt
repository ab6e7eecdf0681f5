-- ===== src/Remote/DnsMonitor/Tests.antt =====
-- The DNS monitor over a few checks.
use wan_router_notifications.Common.{◌≡◌, refl, List, [], ◌∷◌, ◌++◌, some}
use wan_router_notifications.Common.Text.{Text, codes, text_eq, is_truthy}
use wan_router_notifications.Remote.DnsMonitor.History.{
  Check, after, answers, titles, expected_titles, check-titles_by_history,
}
use wan_router_notifications.Remote.DnsMonitor.{addresses, gaierror, check}

abbrev name : Text
name = codes "home.duckdns.org"

abbrev checks : List Check
checks =
    record { now = 2; answer = gaierror }
    ∷ record { now = 1; answer = addresses (codes "1.1.1.1" ∷ []) }
    ∷ []

-- the second failure in a row is reported
second_failure :
    expected_titles name (codes "1.1.1.1") gaierror (answers checks)
    ≡ some ((codes "DNS resolution failed for " ++ name) ∷ [])
unfolding expected_titles
second_failure = refl

-- a new address that is not the expected one is reported twice
moved :
    expected_titles name (codes "1.1.1.1") (addresses (codes "2.2.2.2" ∷ [])) (answers checks)
    ≡ some ((codes "DNS record changed for " ++ name) ∷ (codes "DNS mismatch for " ++ name) ∷ [])
unfolding expected_titles text_eq is_truthy
moved = refl

check-titles_by_history_example :
    titles (check 3 gaierror (after name (codes "1.1.1.1") checks)).1
    ≡ expected_titles name (codes "1.1.1.1") gaierror (answers checks)
check-titles_by_history_example = check-titles_by_history name (codes "1.1.1.1") checks 3 gaierror
