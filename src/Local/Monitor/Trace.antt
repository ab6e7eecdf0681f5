-- ===== src/Local/Monitor/Trace.antt =====
-- What a run of the poll loop of local/main.py sends, and what its polls return.
use wan_router_notifications.Common.{◌≢◌, List, [], ◌∷◌, ◌++◌, map}
use wan_router_notifications.Common.Text.{Text}
use wan_router_notifications.Common.Dict
use wan_router_notifications.Common.Dict.{Dict}
use wan_router_notifications.Shared.Models.{WanState, AlertEvent}
use wan_router_notifications.Shared.Telegram.{other_error}
use wan_router_notifications.Local.AlertEngine.Edges.{Update}
use wan_router_notifications.Local.Poller.{poll_any}
use wan_router_notifications.Local.Monitor.{
  Phase, polling, sending, Monitor, Event, begun, polled, answered, woken, syslog, beat, step,
}

-- the alert whose send is under way, with those that come after it of the same state
abbrev pub pending : Phase → List AlertEvent
pending (sending interval all_states alert rest states) = alert ∷ rest
pending _ = []

-- the states of the last poll that are not looked at yet
abbrev pub unseen : Phase → List WanState
unseen (sending interval all_states alert rest states) = states
unseen _ = []

-- the alert whose send is under way
abbrev pub under_way : Phase → List AlertEvent
under_way (sending interval all_states alert rest states) = alert ∷ []
under_way _ = []

-- the alert whose `send_alert` ends at an event
abbrev pub sent_at : Phase → Event → List AlertEvent
sent_at p (answered bot clock) = under_way p
sent_at p _ = []

-- what the poll loop, where it waits for a poll, does with its states
abbrev pub if_polling : Phase → List WanState → List WanState
if_polling (polling interval) states = states
if_polling _ states = []

-- the states that a poll returns at an event
abbrev pub found_at : Phase → Event → Monitor → List WanState
found_at p (polled now route links clock) m =
    if_polling p (Dict.values (poll_any now route links m.poller).1)
found_at p _ m = []

-- the alerts whose sends end in a run, and the states that its polls return, each in order
abbrev pub sent : List Event → Monitor → List AlertEvent
sent [] m = []
sent (e ∷ es) m = sent_at m.phase e ++ sent es (step e m)

abbrev pub found : List Event → Monitor → List WanState
found [] m = []
found (e ∷ es) m = found_at m.phase e m ++ found es (step e m)

-- No send raises anything but a `TelegramError`.
abbrev pub NoneRaise : List Event → Type 0
NoneRaise [] = Unit {0}
NoneRaise (answered bot clock ∷ es) =
    ((chat text : Text) → bot chat text ≢ other_error) × NoneRaise es
NoneRaise (_ ∷ es) = NoneRaise es

abbrev pub observed : List Update → List WanState
observed = map (λ u. u.state)

pub NoneRaise-head :
    (e : Event) (es : List Event) → NoneRaise (e ∷ es) → NoneRaise (e ∷ []) × NoneRaise es
NoneRaise-head (answered bot clock) es (h, t) = ((h, tt), t)
NoneRaise-head begun es h = (tt, h)
NoneRaise-head (polled now route links clock) es h = (tt, h)
NoneRaise-head woken es h = (tt, h)
NoneRaise-head (syslog now event) es h = (tt, h)
NoneRaise-head (beat now post) es h = (tt, h)
