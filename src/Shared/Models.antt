-- ===== src/Shared/Models.antt =====
-- shared/models.py: the data that the components exchange.
use wan_router_notifications.Common.{
  ℕ, ◌≡◌, Bool, true, false, List, Option, none, some, arith, ◌↔◌,
}
use wan_router_notifications.Common.Int.{ℤ}
use wan_router_notifications.Common.Text.{Text, codes}
use wan_router_notifications.Common.Dict.{Dict}
use wan_router_notifications.Shared.Clock.{Instant, minus}

pub data InterfaceStatus : Type 0 where
  up down unknown : InterfaceStatus

-- the value of the enumeration's member
unfoldable pub status_value : InterfaceStatus → Text
status_value up = codes "up"
status_value down = codes "down"
status_value unknown = codes "unknown"

-- `a == b` on two members
abbrev pub status_eq : InterfaceStatus → InterfaceStatus → Bool
status_eq up up = true
status_eq down down = true
status_eq unknown unknown = true
status_eq _ _ = false

pub status_eq_iff : (a b : InterfaceStatus) → (status_eq a b ≡ true) ↔ (a ≡ b)
status_eq_iff a b = ground arith

pub data AlertSeverity : Type 0 where
  info warning critical : AlertSeverity

unfoldable pub severity_value : AlertSeverity → ℕ
severity_value info = 1
severity_value warning = 2
severity_value critical = 3

pub record WanState : Type 0 where
  pub interface : Text
  pub status : InterfaceStatus
  pub since : Instant
  pub link_up : Option Bool

-- the caller's `now`, or the clock's where it gives none
unfoldable pub duration_since : Instant → WanState → Option Instant → ℤ
unfolding minus
duration_since clock state none = minus clock state.since
duration_since clock state (some now) = minus now state.since

pub record AlertEvent : Type 0 where
  pub severity : AlertSeverity
  pub category : Text
  pub title : Text
  pub message : Text
  pub timestamp : Instant
  pub metadata : Dict Text

pub record HeartbeatPayload : Type 0 where
  pub timestamp : Instant
  pub wan_states : Dict WanState
  pub recent_events : List AlertEvent
  pub monitor_version : Text

pub record SyslogEvent : Type 0 where
  pub timestamp : Instant
  pub facility : Text
  pub severity : Text
  pub hostname : Text
  pub message : Text
  pub category : Text
  pub raw : Text
  pub metadata : Dict Text
