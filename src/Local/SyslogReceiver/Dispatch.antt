-- ===== src/Local/SyslogReceiver/Dispatch.antt =====
-- The dispatch of local/syslog_receiver.py: callbacks and the message count.
use wan_router_notifications.Common.{
  ℕ, ◌+◌, ◌≡◌, refl, ap, ◌∙◌, List, [], ◌∷◌, Option, none, some, arith,
}
use wan_router_notifications.Common.Result.{Result, returned, raised}
use wan_router_notifications.Shared.Clock.{Instant}
use wan_router_notifications.Shared.Models.{SyslogEvent}
use wan_router_notifications.Local.SyslogReceiver.Utf8.{decode}
use wan_router_notifications.Local.SyslogReceiver.Utf8.RoundTrip.{encode, AllScalar, decode-encode}
use wan_router_notifications.Common.Text.{Text}
use wan_router_notifications.Local.SyslogReceiver.Patterns.{Unicode}
use wan_router_notifications.Local.SyslogReceiver.{
  Callback, SyslogReceiver, reset_count, run_callbacks, on_event, parse_syslog_message, received,
  datagram_received,
}

-- The effects of all callbacks, one after the other.
abbrev pub effects : {S : Type 0} → List (Callback S) → SyslogEvent → S → S
effects [] event s = s
effects (callback ∷ rest) event s = effects rest event (callback event s).0

run_callbacks-effects :
    {S : Type 0}
    → (cs : List (Callback S)) (event : SyslogEvent) (s : S)
    → run_callbacks cs event s ≡ effects cs event s
unfolding run_callbacks
run_callbacks-effects [] event s = refl
run_callbacks-effects (callback ∷ rest) event s =
    either (callback event s).1 (run_callbacks-effects rest event (callback event s).0)
  where
    either :
        (outcome : Result (Unit {0}))
        → run_callbacks rest event (callback event s).0 ≡ effects rest event (callback event s).0
        → elim outcome [
          | returned u ↦ run_callbacks rest event (callback event s).0
          | raised ↦ run_callbacks rest event (callback event s).0
        ]
          ≡ effects rest event (callback event s).0
    either (returned u) h = h
    either raised h = h

-- What happens to a receiver: a datagram, or the reset by the status loop.
pub data Step : Type 0 where
  arrived : Instant → Instant → List ℕ → Step
  was_reset : Step

module _ {S : Type 0} (u : Unicode) where
  -- the receiver and the state after the steps, and the sum of the counts that resets returned
  abbrev pub run : List Step → SyslogReceiver S → S → SyslogReceiver S × S × ℕ
  run [] r s = (r, s, 0)
  run (arrived now again bytes ∷ steps) r s =
      let (q, t) = datagram_received u now again bytes r s in run steps q t
  run (was_reset ∷ steps) r s =
      let (count, q) = reset_count r in let (p, t, total) = run steps q s in (p, t, count + total)

abbrev one_event : Result (Option SyslogEvent) → ℕ
one_event raised = 0
one_event (returned none) = 0
one_event (returned (some event)) = 1

-- the number of datagrams that parse
abbrev pub parsed : Unicode → List Step → ℕ
parsed u [] = 0
parsed u (arrived now again bytes ∷ steps) =
    one_event (parse_syslog_message u now again (decode bytes)) + parsed u steps
parsed u (was_reset ∷ steps) = parsed u steps

-- For every receiver, state and sequence of datagrams and resets: the counts that the resets return
-- and the one that is left add up to the first count and the number of datagrams that parse.
pub counts_add_up :
    {S : Type 0}
    → (u : Unicode) (steps : List Step) (r : SyslogReceiver S) (s : S)
    → (run u steps r s).2 + ((run u steps r s).0).message_count ≡ r.message_count + parsed u steps
unfolding datagram_received reset_count on_event
counts_add_up u [] r s = omega arith
counts_add_up {S = S} u (arrived now again bytes ∷ steps) r s =
    by_outcome (parse_syslog_message u now again (decode bytes)) (counts_add_up u steps)
  where
    by_outcome :
        (o : Result (Option SyslogEvent))
        → ((q : SyslogReceiver S) (t : S)
            → (run u steps q t).2 + ((run u steps q t).0).message_count
              ≡ q.message_count + parsed u steps)
        → (let (q, t) = received o r s in (run u steps q t).2 + ((run u steps q t).0).message_count)
          ≡ r.message_count + (one_event o + parsed u steps)
    by_outcome raised h = omega (arith, h r s)
    by_outcome (returned none) h = omega (arith, h r s)
    by_outcome (returned (some event)) h =
        omega (arith, h (on_event event r s).0 (on_event event r s).1)
counts_add_up u (was_reset ∷ steps) r s = omega (arith, counts_add_up u steps (reset_count r).1 s)

-- what becomes of a receiver and a state by how a text parses
abbrev pub dispatched :
    {S : Type 0} → Result (Option SyslogEvent) → SyslogReceiver S → S → SyslogReceiver S × S
dispatched raised r s = (r, s)
dispatched (returned none) r s = (r, s)
dispatched (returned (some event)) r s =
    (record r { message_count = r.message_count + 1 }, effects r.callbacks event s)

received-dispatched :
    {S : Type 0}
    → (o : Result (Option SyslogEvent)) (r : SyslogReceiver S) (s : S)
    → received o r s ≡ dispatched o r s
unfolding on_event
received-dispatched raised r s = refl
received-dispatched (returned none) r s = refl
received-dispatched (returned (some event)) r s =
    ap (λ t. (record r { message_count = r.message_count + 1 }, t))
      (run_callbacks-effects r.callbacks event s)

-- Where every character of a text is one of Unicode and no surrogate, its encoding arrives as a
-- datagram: where the text parses as an event, the count goes up by one, and the effects of all
-- callbacks on that event are applied in the order of registration, those of callbacks that raise
-- included; and where it does not parse or the parser raises, nothing changes.
pub encoded_received :
    {S : Type 0}
    → (u : Unicode) (now again : Instant) (text : Text) (r : SyslogReceiver S) (s : S)
    → AllScalar text
    → datagram_received u now again (encode text) r s
      ≡ dispatched (parse_syslog_message u now again text) r s
unfolding datagram_received
encoded_received u now again text r s h =
    ap (λ raw. received (parse_syslog_message u now again raw) r s) (decode-encode text h)
    ∙ received-dispatched (parse_syslog_message u now again text) r s
