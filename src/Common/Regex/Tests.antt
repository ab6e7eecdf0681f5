-- ===== src/Common/Regex/Tests.antt =====
-- The order in which Python's `re` tries the repetitions.
use wan_router_notifications.Common.{◌≡◌, refl, true, [], ◌∷◌, none, some}
use wan_router_notifications.Common.Text.{codes}
use wan_router_notifications.Common.Regex.{
  CharClass, exactly, greedy_star, lazy_plus, take_row, match_at, search_in,
}

abbrev any : CharClass
any c = true

-- re.search("a(.+?)c", "xabcbc"), re.match("(.*)b", "abab") and re.match("a", "ba")
lazy_is_short :
    search_in (exactly (codes "a") ∷ lazy_plus any ∷ exactly (codes "c") ∷ []) (codes "xabcbc")
    ≡ some (codes "a" ∷ codes "b" ∷ codes "c" ∷ [])
unfolding search_in match_at take_row
lazy_is_short = refl

greedy_is_long :
    match_at (greedy_star any ∷ exactly (codes "b") ∷ []) (codes "abab")
    ≡ some (codes "aba" ∷ codes "b" ∷ [])
unfolding match_at take_row
greedy_is_long = refl

match_is_anchored : match_at (exactly (codes "a") ∷ []) (codes "ba") ≡ none
unfolding match_at take_row
match_is_anchored = refl
