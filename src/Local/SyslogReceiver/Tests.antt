-- ===== src/Local/SyslogReceiver/Tests.antt =====
-- The receiver on messages of the router, with the ASCII part of the Unicode tables.
use wan_router_notifications.Common.{
  ℕ, ◌-◌, ◌+◌, ◌*◌, ◌≤◌, ◌<◌, ◌↔◌, length, ◌≡◌, refl, Bool, ◌&&◌, ◌||◌, List, [], ◌∷◌, ◌++◌, none,
  some, true, arith, leb, ◌==◌, map, if◌then◌else◌,
}
use wan_router_notifications.Common.Result.{returned, raised}
use wan_router_notifications.Common.Text.{Text, codes, decimal, is_truthy, text_eq}
use wan_router_notifications.Common.Regex.{take_row, match_at, search_in}
use wan_router_notifications.Shared.Clock.{Instant, civil, instant_of}
use wan_router_notifications.Shared.Models.{SyslogEvent}
use wan_router_notifications.Local.AlertEngine.Messages.{Router}
use wan_router_notifications.Local.AlertEngine.Syslog.{process_syslog_event}
use wan_router_notifications.Local.SyslogReceiver.Patterns.{Groups, Unicode, match_syslog}
use wan_router_notifications.Local.SyslogReceiver.Categories.{categorize_message, wan_metadata}
use wan_router_notifications.Local.SyslogReceiver.Alerts.{Reported, alerted_iff}
use wan_router_notifications.Local.SyslogReceiver.Strptime.{strptime}
use wan_router_notifications.Local.SyslogReceiver.Timestamps.{Timed, timestamp_this_year}
use wan_router_notifications.Local.SyslogReceiver.Priority.{parse_raises_iff}
use wan_router_notifications.Local.SyslogReceiver.Utf8.{decode}
use wan_router_notifications.Local.SyslogReceiver.Utf8.RoundTrip.{AllScalar, encode}
use wan_router_notifications.Local.SyslogReceiver.Dispatch.{
  Step, arrived, was_reset, run, parsed, counts_add_up, dispatched, encoded_received,
}
use wan_router_notifications.Local.SyslogReceiver.Strings.{strip, int_of}
use wan_router_notifications.Local.SyslogReceiver.{
  event_timestamp, parse_syslog_message, SyslogReceiver, on_event, datagram_received,
}

abbrev between : ℕ → ℕ → ℕ → Bool
between a b c = leb a c && leb c b

abbrev lower_letter : ℕ → ℕ
lower_letter c = if between 65 90 c then c + 32 else c

abbrev pub ascii : Unicode
ascii = record {
  digit_value = λ c. if between 48 57 c then some (c - 48) else none;
  is_space = λ c. between 9 13 c || between 28 32 c;
  is_word = λ c. between 48 57 c || (between 65 90 c || (between 97 122 c || c == 95));
  lower = map lower_letter;
}

abbrev took_effect : Text
took_effect = codes "Backup [WAN2] took effect"

took_effect_categorized :
    categorize_message ascii took_effect
    ≡ (codes "wan", wan_metadata (codes "failover_activated") (codes "WAN2"))
unfolding categorize_message search_in match_at take_row
took_effect_categorized = refl

login_categorized : categorize_message ascii (codes "Admin LOGIN ok") ≡ (codes "auth", [])
unfolding categorize_message search_in match_at take_row
login_categorized = refl

abbrev pub raw_failover : Text
raw_failover = codes "<133>Mar 21 16:11:02 ER605 Link Backup: [osg] Backup [WAN2] took effect."

abbrev pub failover_event : SyslogEvent
failover_event = record {
  timestamp = 62142480662000000;
  facility = codes "Link Backup";
  severity = codes "notice";
  hostname = codes "ER605";
  message = codes "[osg] Backup [WAN2] took effect.";
  category = codes "wan";
  raw = raw_failover;
  metadata = wan_metadata (codes "failover_activated") (codes "WAN2");
}

-- an instant of 1970
abbrev pub in_1970 : Instant
in_1970 = 62135596800000000

pub failover_parsed :
    parse_syslog_message ascii in_1970 in_1970 raw_failover ≡ returned (some failover_event)
unfolding parse_syslog_message categorize_message match_syslog search_in match_at take_row civil
    decimal is_truthy text_eq
failover_parsed = refl

abbrev router : Router
router = record { ip = codes "192.168.0.1"; name = codes "router" }

alerted_iff_example :
    (length (process_syslog_event 1 router failover_event) ≤ 1)
    × ((length (process_syslog_event 1 router failover_event) ≡ 1)
        ↔ Reported failover_event.message)
alerted_iff_example =
    alerted_iff ascii in_1970 in_1970 raw_failover failover_event 1 router failover_parsed

ascii_digits : (c : ℕ) → 48 ≤ c → c ≤ 57 → ascii.digit_value c ≡ some (c - 48)
ascii_digits c h1 h2 = ground arith

ascii_no_digit : (c : ℕ) → ascii.is_space c ≡ true → ascii.digit_value c ≡ none
ascii_no_digit c h = ground arith

raw_decoded : decode raw_failover ≡ raw_failover
unfolding decode
raw_decoded = refl

pub failover_received :
    parse_syslog_message ascii in_1970 in_1970 (decode raw_failover)
    ≡ returned (some failover_event)
failover_received = rw raw_decoded failover_parsed

-- a euro sign cut short, an overlong zero, a surrogate and a byte that begins nothing
broken_bytes :
    decode (226 ∷ 130 ∷ 65 ∷ 192 ∷ 128 ∷ 237 ∷ 160 ∷ 255 ∷ 240 ∷ [])
    ≡ 65533 ∷ 65 ∷ 65533 ∷ 65533 ∷ 65533 ∷ 65533 ∷ 65533 ∷ 65533 ∷ []
unfolding decode
broken_bytes = refl

leap_day_read : strptime ascii (codes "2024 feb 29 5:04:59") ≡ returned 63844779899000000
unfolding strptime match_at take_row strip int_of instant_of text_eq is_truthy
leap_day_read = refl

no_leap_day : strptime ascii (codes "2023 Feb 29 05:04:59") ≡ raised
unfolding strptime match_at take_row strip int_of instant_of text_eq is_truthy
no_leap_day = refl

text_behind : strptime ascii (codes "2024 Feb 28 05:04:59Z") ≡ raised
unfolding strptime match_at take_row
text_behind = refl

timestamp_this_year_example :
    Timed ascii in_1970 in_1970
      (codes "Mar 21 16:11:02")
      (event_timestamp ascii in_1970 in_1970 (codes "Mar 21 16:11:02"))
timestamp_this_year_example =
    timestamp_this_year ascii ascii_digits refl ascii_no_digit in_1970 in_1970
      (codes "Mar 21 16:11:02")

-- a callback that raises after its work, and one that returns
abbrev two_callbacks : SyslogReceiver ℕ
two_callbacks = record {
  callbacks = (λ event s. (s + 1, raised)) ∷ (λ event s. (s * 10, returned tt)) ∷ [];
  message_count = 4;
}

callbacks_computed : (on_event failover_event two_callbacks 2).1 ≡ 30
unfolding on_event
callbacks_computed = refl

abbrev some_steps : List Step
some_steps =
    arrived in_1970 in_1970 raw_failover
    ∷ arrived in_1970 in_1970 (codes "noise")
    ∷ was_reset
    ∷ arrived in_1970 in_1970 raw_failover
    ∷ []

counts_add_up_example :
    (run ascii some_steps two_callbacks 0).2
      + ((run ascii some_steps two_callbacks 0).0).message_count
    ≡ 4 + parsed ascii some_steps
counts_add_up_example = counts_add_up ascii some_steps two_callbacks 0

parsed_computed : parsed ascii some_steps ≡ 2
unfolding parse_syslog_message categorize_message match_syslog search_in match_at take_row civil
    decimal is_truthy decode
parsed_computed = refl

parse_raises_iff_example : (parse_syslog_message ascii in_1970 in_1970 raw_failover ≡ raised) ↔ (
    (g : Groups) × ((match_syslog ascii (strip ascii raw_failover) ≡ some g)
      × (4300 < length g.priority)))
parse_raises_iff_example = parse_raises_iff ascii in_1970 in_1970 raw_failover

abbrev euro_message : Text
euro_message = codes "<9>Mar 2 1:02:03 h f: " ++ (8364 ∷ 128512 ∷ 252 ∷ [])

euro_AllScalar : AllScalar euro_message
euro_AllScalar = ground arith

encoded_received_example :
    datagram_received ascii in_1970 in_1970 (encode euro_message) two_callbacks 2
    ≡ dispatched (parse_syslog_message ascii in_1970 in_1970 euro_message) two_callbacks 2
encoded_received_example =
    encoded_received ascii in_1970 in_1970 euro_message two_callbacks 2 euro_AllScalar
