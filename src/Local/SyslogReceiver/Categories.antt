-- ===== src/Local/SyslogReceiver/Categories.antt =====
-- The category of a message in local/syslog_receiver.py.
use wan_router_notifications.Common.{
  Bool, false, ◌||◌, List, [], ◌∷◌, Option, none, some, if◌then◌else◌,
}
use wan_router_notifications.Common.Text.{starts_with, Text, codes}
use wan_router_notifications.Common.Dict.{Dict}
use wan_router_notifications.Common.Regex.{Item, search_in}
use wan_router_notifications.Local.SyslogReceiver.Patterns.{Unicode, piece, wan_patterns}

-- `text.startswith(sub)` and `sub in text`
unfoldable pub is_in : Text → Text → Bool
unfolding starts_with
is_in sub [] = starts_with sub []
is_in sub (c ∷ t) = starts_with sub (c ∷ t) || is_in sub t

abbrev pub auth_keywords : List Text
auth_keywords =
    codes "login"
    ∷ codes "logout"
    ∷ codes "password"
    ∷ codes "authentication"
    ∷ codes "user"
    ∷ codes "admin"
    ∷ []

abbrev pub firewall_keywords : List Text
firewall_keywords =
    codes "blocked" ∷ codes "dropped" ∷ codes "denied" ∷ codes "firewall" ∷ codes "reject" ∷ []

abbrev pub vpn_keywords : List Text
vpn_keywords =
    codes "ipsec"
    ∷ codes "vpn"
    ∷ codes "tunnel"
    ∷ codes "openvpn"
    ∷ codes "l2tp"
    ∷ codes "pptp"
    ∷ []

abbrev pub system_keywords : List Text
system_keywords =
    codes "reboot"
    ∷ codes "startup"
    ∷ codes "shutdown"
    ∷ codes "config"
    ∷ codes "firmware"
    ∷ codes "update"
    ∷ []

-- `any(kw in text for kw in keywords)`
unfoldable pub any_in : List Text → Text → Bool
unfolding is_in
any_in [] t = false
any_in (kw ∷ kws) t = is_in kw t || any_in kws t

abbrev pub wan_metadata : Text → Text → Dict Text
wan_metadata event_type interface =
    (codes "wan_event_type", event_type) ∷ (codes "wan_interface", interface) ∷ []

-- the event type and `match.group(1)` where a pattern is found, and else what the later ones give
abbrev pub or_later : Text → Option (List Text) → Option (Text × Text) → Option (Text × Text)
or_later event_type none later = later
or_later event_type (some ps) later = some (event_type, piece 1 ps)

unfoldable pub first_wan : List (List Item × Text) → Text → Option (Text × Text)
first_wan [] message = none
first_wan ((pattern', event_type) ∷ others) message =
    or_later event_type (search_in pattern' message) (first_wan others message)

unfoldable pub keyword_category : Text → Text
unfolding any_in
keyword_category msg_lower =
    if any_in auth_keywords msg_lower
    then codes "auth"
    else if any_in firewall_keywords msg_lower
    then codes "firewall"
    else if any_in vpn_keywords msg_lower
    then codes "vpn"
    else if any_in system_keywords msg_lower
    then codes "system"
    else codes "system"

-- with the first WAN pattern that is found, or by the keywords
abbrev pub category_by : Unicode → Text → Option (Text × Text) → Text × Dict Text
category_by u message none = (keyword_category (u.lower message), [])
category_by u message (some (event_type, interface)) =
    (codes "wan", wan_metadata event_type interface)

unfoldable pub categorize_message : Unicode → Text → Text × Dict Text
unfolding wan_patterns first_wan keyword_category
categorize_message u message = category_by u message (first_wan wan_patterns message)
