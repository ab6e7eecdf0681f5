-- ===== src/Local/SyslogReceiver/Alerts.antt =====
-- What becomes of a message: from local/syslog_receiver.py to local/alert_engine.py.
use mathlib.Core.Path.{subst}
use mathlib.Core.Option
use wan_router_notifications.Common.{
  ℕ, ◌≡◌, refl, sym, ap, ◌∙◌, ◌↔◌, ◌⊎◌, ◌≤◌, ◌%◌, inl, inr, List, [], Option, none, some, arith,
  length, if◌then◌else◌,
}
use wan_router_notifications.Common.Result.{bind-returned, Result, returned, raised}
use wan_router_notifications.Common.Text.{Text, codes, text_eq}
use wan_router_notifications.Common.Dict.{Dict, get}
use wan_router_notifications.Common.Regex.{search_in}
use wan_router_notifications.Shared.Clock.{Instant}
use wan_router_notifications.Shared.Models.{AlertEvent, SyslogEvent}
use wan_router_notifications.Local.AlertEngine.Messages.{Router}
use wan_router_notifications.Local.AlertEngine.Syslog.{
  get_or, wan_event_alerts, process_wan_syslog, process_syslog_event,
}
use wan_router_notifications.Local.SyslogReceiver.Patterns.{
  Unicode, Groups, piece, match_syslog, wan_patterns, took_effect_pattern, backup_down_pattern,
  link_down_pattern, online_detection_pattern,
}
use wan_router_notifications.Local.SyslogReceiver.Categories.{
  category_by, first_wan, or_later, categorize_message,
}
use wan_router_notifications.Local.SyslogReceiver.Wan.{
  InText, search-cases, keyword_category-not_wan,
}
use wan_router_notifications.Local.SyslogReceiver.Strings.{strip, int_of}
use wan_router_notifications.Local.SyslogReceiver.{
  severity_names, severity_name, event_of, parse_match, parse_syslog_message,
}

abbrev event_in : Result (Option SyslogEvent) → Option SyslogEvent
event_in raised = none
event_in (returned o) = o

-- An event comes from a match with a readable priority.
abbrev ComesFrom : Unicode → Instant → Instant → Text → Option Groups → SyslogEvent → Type 0
ComesFrom u now again raw o event =
    (g : Groups) × ((pri : ℕ) × ((o ≡ some g)
        × (int_of u g.priority ≡ returned pri)
        × (event_of u now again raw g pri ≡ event)))

parse_match-ComesFrom :
    (u : Unicode) (now again : Instant) (raw : Text) (event : SyslogEvent) (o : Option Groups)
    → parse_match u now again raw o ≡ returned (some event)
    → ComesFrom u now again raw o event
parse_match-ComesFrom u now again raw event none e = cc
parse_match-ComesFrom u now again raw event (some g) e =
    let (pri, (priority, made)) =
      bind-returned (int_of u g.priority) (λ n. returned (some (event_of u now again raw g n)))
        (some event) e in
    (
      g,
      (
        pri,
        (
          refl,
          priority,
          Option.some-injective (event_of u now again raw g pri) event (ap event_in made),
        ),
      ),
    )

parsed-ComesFrom :
    (u : Unicode) (now again : Instant) (raw : Text) (event : SyslogEvent)
    → parse_syslog_message u now again raw ≡ returned (some event)
    → ComesFrom u now again raw (match_syslog u (strip u raw)) event
unfolding parse_syslog_message
parsed-ComesFrom u now again raw event e =
    parse_match-ComesFrom u now again raw event (match_syslog u (strip u raw)) e

severity_name-piece : (pri : ℕ) → severity_name pri ≡ piece (pri % 8) severity_names
unfolding severity_name
severity_name-piece pri = ground arith

-- For every message that parses: it matches the pattern with a priority that is read as a number,
-- and its severity is the one of the eight names of syslog at that number modulo 8, never `unknown`.
severity_known :
    (u : Unicode) (now again : Instant) (raw : Text) (event : SyslogEvent)
    → parse_syslog_message u now again raw ≡ returned (some event)
    → (g : Groups) × ((pri : ℕ) × ((match_syslog u (strip u raw) ≡ some g)
          × (int_of u g.priority ≡ returned pri)
          × (event.severity ≡ piece (pri % 8) severity_names)))
severity_known u now again raw event e =
    let (g, (pri, (found, priority, made))) = parsed-ComesFrom u now again raw event e in
    (g, (pri, (found, priority, ap (λ ev. ev.severity) (sym made) ∙ severity_name-piece pri)))

-- One of the three patterns that the alert engine reports.
abbrev pub Reported : Text → Type 0
Reported m =
    InText took_effect_pattern m ⊎ (InText backup_down_pattern m ⊎ InText link_down_pattern m)

abbrev pub OneIff : ℕ → Type 0 → Type 0
OneIff n P = (n ≤ 1) × ((n ≡ 1) ↔ P)

none_is_one : ¬ (◌≡◌ {A = ℕ} 0 1)
none_is_one e = ground arith

module _ (t : Instant) (router : Router) where
  alerts_by : Option (Text × Text) → List AlertEvent
  alerts_by none = []
  alerts_by (some (event_type, interface)) = wan_event_alerts event_type interface router t

  -- `process_syslog_event` sees only the category and the metadata.
  abbrev alerts_of : Text × Dict Text → List AlertEvent
  alerts_of (category, metadata) =
      if text_eq category (codes "wan")
      then wan_event_alerts (get_or metadata (codes "wan_event_type") [])
          (get_or metadata (codes "wan_interface") (codes "unknown")) router t
      else []

  alerts_of-category_by :
      (u : Unicode) (m : Text) (o : Option (Text × Text))
      → alerts_of (category_by u m o) ≡ alerts_by o
  unfolding alerts_by get text_eq
  alerts_of-category_by u m none = rw (keyword_category-not_wan (u.lower m)) refl
  alerts_of-category_by u m (some (event_type, interface)) = refl

  process-alerts_by :
      (u : Unicode) (now again : Instant) (raw : Text) (g : Groups) (pri : ℕ)
      → process_syslog_event t router (event_of u now again raw g pri)
        ≡ alerts_by (first_wan wan_patterns g.message)
  unfolding process_syslog_event process_wan_syslog categorize_message
  process-alerts_by u now again raw g pri =
      alerts_of-category_by u g.message (first_wan wan_patterns g.message)

  alerts_by-OneIff :
      (m : Text) → OneIff (length (alerts_by (first_wan wan_patterns m))) (Reported m)
  unfolding alerts_by first_wan wan_patterns wan_event_alerts text_eq
  alerts_by-OneIff m = elim (search-cases took_effect_pattern m) [
    | inr (ps, (hit, a)) ↦ rw hit (omega arith, (λ e. inl a, λ r. refl))
    | inl (miss, x) ↦ rw miss (elim (search-cases backup_down_pattern m) [
      | inr (ps, (hit, a)) ↦ rw hit (omega arith, (λ e. inr (inl a), λ r. refl))
      | inl (miss', y) ↦ rw miss' (elim (search-cases link_down_pattern m) [
        | inr (ps, (hit, a)) ↦ rw hit (omega arith, (λ e. inr (inr a), λ r. refl))
        | inl (miss'', z) ↦ rw miss'' (unreported x y z (search_in online_detection_pattern m))
      ])
    ])
  ]
    where
      neither :
          ¬ InText took_effect_pattern m
          → ¬ InText backup_down_pattern m
          → ¬ InText link_down_pattern m
          → OneIff 0 (Reported m)
      neither x y z = (
        omega arith,
        (
          λ e. elim (none_is_one e) [ ],
          λ r. elim r [
            | inl a ↦ elim (x a) [ ]
            | inr s ↦ elim s [ inl b ↦ elim (y b) [ ] | inr c ↦ elim (z c) [ ] ]
          ],
        ),
      )

      unreported :
          ¬ InText took_effect_pattern m
          → ¬ InText backup_down_pattern m
          → ¬ InText link_down_pattern m
          → (o : Option (List Text))
          → OneIff (length (alerts_by (or_later (codes "online_detection") o none))) (Reported m)
      unreported x y z none = neither x y z
      unreported x y z (some ps) = neither x y z

-- For every message that parses, instant and router: the alert engine makes at most one alert of its
-- event, and it makes one exactly where `Backup [...] took effect`, `Backup [...] was down` or
-- `physical connection status of [...] was down` stands somewhere in the message.
pub alerted_iff :
    (u : Unicode) (now again : Instant) (raw : Text) (event : SyslogEvent) (t : Instant)
    (router : Router)
    → parse_syslog_message u now again raw ≡ returned (some event)
    → (length (process_syslog_event t router event) ≤ 1)
      × ((length (process_syslog_event t router event) ≡ 1) ↔ Reported event.message)
alerted_iff u now again raw event t router e =
    let (g, (pri, (found, priority, h))) = parsed-ComesFrom u now again raw event e in
    subst (λ ev. OneIff (length (process_syslog_event t router ev)) (Reported ev.message)) h
      (rw (process-alerts_by t router u now again raw g pri) (alerts_by-OneIff t router g.message))
