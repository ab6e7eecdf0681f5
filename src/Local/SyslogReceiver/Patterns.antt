-- ===== src/Local/SyslogReceiver/Patterns.antt =====
-- The regular expressions of local/syslog_receiver.py.
use mathlib.Core.Option
use wan_router_notifications.Common.{ℕ, not, List, [], ◌∷◌, ◌++◌, Option, drop, ◌==◌}
use wan_router_notifications.Common.Text.{Text, codes}
use wan_router_notifications.Common.Regex.{
  CharClass, Item, choice, literal, exactly, greedy_star, greedy_plus, lazy_plus, match_at,
}
pub use wan_router_notifications.Common.Unicode.{Unicode, is_digit}

-- `.` without DOTALL
abbrev any_char : CharClass
any_char c = not (c == 10)

-- <(\d+)>(\w+\s+\d+\s+\d+:\d+:\d+)\s+(\S+)\s+(.+?):\s*(.*)
unfoldable pub syslog_pattern : Unicode → List Item
syslog_pattern u =
    let digits = greedy_plus (is_digit u) in
    let spaces = greedy_plus u.is_space in
    let colon = exactly (codes ":") in
    exactly (codes "<")
    ∷ digits
    ∷ exactly (codes ">")
    ∷ greedy_plus u.is_word
    ∷ spaces
    ∷ digits
    ∷ spaces
    ∷ digits
    ∷ colon
    ∷ digits
    ∷ colon
    ∷ digits
    ∷ spaces
    ∷ greedy_plus (λ c. not (u.is_space c))
    ∷ spaces
    ∷ lazy_plus any_char
    ∷ colon
    ∷ greedy_star u.is_space
    ∷ greedy_star any_char
    ∷ []

-- the piece at a place of a match
abbrev pub piece : ℕ → List Text → Text
piece n ps = elim (drop n ps) [ [] ↦ [] | p ∷ qs ↦ p ]

-- `match.groups()`
pub record Groups : Type 0 where
  pub priority : Text
  pub timestamp_str : Text
  pub hostname : Text
  pub facility : Text
  pub message : Text

abbrev timestamp_pieces : List Text → Text
timestamp_pieces ps =
    piece 3 ps
    ++ (piece 4 ps
        ++ (piece 5 ps
            ++ (piece 6 ps
                ++ (piece 7 ps ++ (piece 8 ps ++ (piece 9 ps ++ (piece 10 ps ++ piece 11 ps)))))))

unfoldable pub groups : List Text → Groups
groups ps = record {
  priority = piece 1 ps;
  timestamp_str = timestamp_pieces ps;
  hostname = piece 13 ps;
  facility = piece 15 ps;
  message = piece 18 ps;
}

-- `SYSLOG_PATTERN.match(s)`
unfoldable pub match_syslog : Unicode → Text → Option Groups
unfolding syslog_pattern groups
match_syslog u s = Option.map groups (match_at (syslog_pattern u) s)

-- before [(.+?)] after
abbrev named_between : Text → List Item → List Item
named_between before after = exactly before ∷ lazy_plus any_char ∷ after

abbrev pub online_or_offline : Item
online_or_offline = choice (literal (codes "online") ∷ literal (codes "offline") ∷ [])

abbrev pub took_effect_pattern : List Item
took_effect_pattern = named_between (codes "Backup [") (exactly (codes "] took effect") ∷ [])

abbrev pub backup_down_pattern : List Item
backup_down_pattern = named_between (codes "Backup [") (exactly (codes "] was down") ∷ [])

abbrev pub link_down_pattern : List Item
link_down_pattern =
    named_between (codes "physical connection status of [") (exactly (codes "] was down") ∷ [])

abbrev pub online_detection_pattern : List Item
online_detection_pattern =
    named_between (codes "online detection result of [")
      (exactly (codes "] was ") ∷ online_or_offline ∷ [])

unfoldable pub wan_patterns : List (List Item × Text)
wan_patterns =
    (took_effect_pattern, codes "failover_activated")
    ∷ (backup_down_pattern, codes "failover_deactivated")
    ∷ (link_down_pattern, codes "link_down")
    ∷ (online_detection_pattern, codes "online_detection")
    ∷ []
