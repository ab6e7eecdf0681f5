-- ===== src/Local/SyslogReceiver.antt =====
-- local/syslog_receiver.py: the parsing of a datagram, and the dispatch to the callbacks.
pub mod Patterns
pub mod Categories
pub mod Strings
pub mod Strptime
pub mod Utf8
pub mod Wan
pub mod Alerts
pub mod Priority
pub mod Reading
pub mod Timestamps
pub mod Dispatch
pub mod Tests
use wan_router_notifications.Common.{
  ℕ, ◌+◌, ◌*◌, ◌/◌, ◌%◌, Bool, true, false, ◌&&◌, List, [], ◌∷◌, ◌++◌, Option, none, some, drop,
  length, ltb, if◌then◌else◌,
}
use wan_router_notifications.Common.Result.{Result, returned, raised, ◌>>=◌}
use wan_router_notifications.Common.Text.{Text, codes, decimal, is_truthy}
use wan_router_notifications.Shared.Clock.{Instant, micros_per_second, civil}
use wan_router_notifications.Shared.Models.{SyslogEvent}
use wan_router_notifications.Local.SyslogReceiver.Utf8.{decode}
use wan_router_notifications.Local.SyslogReceiver.Patterns.{Unicode, Groups, match_syslog, piece}
use wan_router_notifications.Local.SyslogReceiver.Strings.{strip, int_of}
use wan_router_notifications.Local.SyslogReceiver.Strptime.{strptime}
use wan_router_notifications.Local.SyslogReceiver.Categories.{categorize_message}

abbrev pub severity_names : List Text
severity_names =
    codes "emerg"
    ∷ codes "alert"
    ∷ codes "crit"
    ∷ codes "err"
    ∷ codes "warning"
    ∷ codes "notice"
    ∷ codes "info"
    ∷ codes "debug"
    ∷ []

unfoldable pub severity_name : ℕ → Text
severity_name pri =
    let severity_num = pri % 8 in
    if ltb severity_num (length severity_names)
    then piece severity_num severity_names
    else codes "unknown"

-- the timestamp with the current year, or where that is no date the clock, read once more
unfoldable pub event_timestamp : Unicode → Instant → Instant → Text → Instant
unfolding strptime
event_timestamp u now again timestamp_str =
    elim (strptime u
      (decimal (civil (now / micros_per_second / 86400)).year ++ (codes " " ++ timestamp_str))) [
        | raised ↦ again
        | returned t ↦ t
      ]

-- the event of a match whose priority is read
abbrev pub event_of : Unicode → Instant → Instant → Text → Groups → ℕ → SyslogEvent
event_of u now again raw g pri = record {
  timestamp = event_timestamp u now again g.timestamp_str;
  facility = g.facility;
  severity = severity_name pri;
  hostname = g.hostname;
  message = g.message;
  category = (categorize_message u g.message).0;
  raw = raw;
  metadata = (categorize_message u g.message).1;
}

abbrev pub parse_match :
    Unicode → Instant → Instant → Text → Option Groups → Result (Option SyslogEvent)
parse_match u now again raw none = returned none
parse_match u now again raw (some g) =
    int_of u g.priority >>= λ pri. returned (some (event_of u now again raw g pri))

unfoldable pub parse_syslog_message :
    Unicode → Instant → Instant → Text → Result (Option SyslogEvent)
unfolding strip match_syslog int_of event_timestamp severity_name
parse_syslog_message u now again raw = parse_match u now again raw (match_syslog u (strip u raw))

-- A callback works on the state `S` of the program, and may raise after it has changed it.
abbrev pub Callback : Type 0 → Type 0
Callback S = SyslogEvent → S → S × Result (Unit {0})

pub record SyslogReceiver (S : Type 0) : Type 0 where
  pub callbacks : List (Callback S)
  pub message_count : ℕ

module _ {S : Type 0} where
  unfoldable pub new_receiver : SyslogReceiver S
  new_receiver = record { callbacks = []; message_count = 0 }

  unfoldable pub add_callback : Callback S → SyslogReceiver S → SyslogReceiver S
  add_callback callback r = record {
    callbacks = r.callbacks ++ callback ∷ [];
    message_count = r.message_count;
  }

  unfoldable pub reset_count : SyslogReceiver S → ℕ × SyslogReceiver S
  reset_count r = (r.message_count, record { callbacks = r.callbacks; message_count = 0 })

  -- each callback in turn; one that raises is logged
  unfoldable pub run_callbacks : List (Callback S) → SyslogEvent → S → S
  run_callbacks [] event s = s
  run_callbacks (callback ∷ rest) event s =
      let (t, outcome) = callback event s in
      let later = run_callbacks rest event t in elim outcome [ returned u ↦ later | raised ↦ later ]

  unfoldable pub on_event : SyslogEvent → SyslogReceiver S → S → SyslogReceiver S × S
  unfolding run_callbacks
  on_event event r s = (
    record { callbacks = r.callbacks; message_count = r.message_count + 1 },
    run_callbacks r.callbacks event s,
  )

  -- `if event: self.callback(event)` with `_on_event` as the callback; an exception is logged
  abbrev pub received : Result (Option SyslogEvent) → SyslogReceiver S → S → SyslogReceiver S × S
  received raised r s = (r, s)
  received (returned none) r s = (r, s)
  received (returned (some event)) r s = on_event event r s

  -- `SyslogProtocol.datagram_received`
  unfoldable pub datagram_received :
      Unicode → Instant → Instant → List ℕ → SyslogReceiver S → S → SyslogReceiver S × S
  unfolding parse_syslog_message on_event
  datagram_received u now again bytes r s =
      received (parse_syslog_message u now again (decode bytes)) r s
