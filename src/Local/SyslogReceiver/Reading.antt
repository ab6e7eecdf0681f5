-- ===== src/Local/SyslogReceiver/Reading.antt =====
-- What `strptime` of local/syslog_receiver.py reads of a text.
use wan_router_notifications.Common.{
  ℕ, ◌+◌, ◌*◌, ◌/◌, ◌%◌, ◌<◌, ◌≡◌, refl, ap, sym, ◌∙◌, Bool, true, false, List, none, some, arith,
  length, ◌==◌, Option, ==_iff, if◌then◌else◌,
}
use wan_router_notifications.Common.Result.{Result, returned, raised, bind-returned}
use wan_router_notifications.Common.Text.{Text}
use wan_router_notifications.Common.Regex.{total_length, match_at}
use wan_router_notifications.Shared.Clock.{Instant, micros_per_second, Date, civil}
use wan_router_notifications.Shared.Clock.Calendar.{instant_of-Holds}
use wan_router_notifications.Local.SyslogReceiver.Patterns.{Unicode, piece}
use wan_router_notifications.Local.SyslogReceiver.Strptime.{
  month_names, month_from, number_at, format_pattern, instant_of_pieces, from_match, strptime,
}

abbrev pub date_at : Instant → Date
date_at t = civil (t / micros_per_second / 86400)

abbrev second_of_day : Instant → ℕ
second_of_day t = t / micros_per_second % 86400

-- The pieces of the text are the numbers and the month's name of an instant.
abbrev pub Reads : Unicode → List Text → Instant → Type 0
Reads u ps t =
    (number_at u 0 ps ≡ returned (date_at t).year)
    × (month_from u 1 month_names (u.lower (piece 2 ps)) ≡ returned (date_at t).month)
    × (number_at u 4 ps ≡ returned (date_at t).day)
    × (number_at u 6 ps ≡ returned (second_of_day t / 3600))
    × (number_at u 8 ps ≡ returned (second_of_day t / 60 % 60))
    × (number_at u 10 ps ≡ returned (second_of_day t % 60))
    × (t % micros_per_second ≡ 0)

clock_parts :
    (secs hour minute second : ℕ)
    → secs ≡ hour * 3600 + minute * 60 + second
    → minute < 60
    → second < 60
    → (hour ≡ secs / 3600) × (minute ≡ secs / 60 % 60) × (second ≡ secs % 60)
clock_parts secs hour minute second e hm hs = (omega arith, omega arith, omega arith)

guarded :
    {A : Type 0} (c : Bool) (r : Result A) (a : A)
    → (if c then r else raised) ≡ returned a
    → (c ≡ true) × (r ≡ returned a)
guarded true r a e = (refl, e)
guarded false r a e = cc

pieces-Reads :
    (u : Unicode) (ps : List Text) (t : Instant)
    → instant_of_pieces u ps ≡ returned t
    → Reads u ps t
unfolding instant_of_pieces
pieces-Reads u ps t e =
    let (y, (at_y, e1)) = bind-returned (number_at u 0 ps) _ t e in
    let (m, (at_m, e2)) =
      bind-returned (month_from u 1 month_names (u.lower (piece 2 ps))) _ t e1 in
    let (d, (at_d, e3)) = bind-returned (number_at u 4 ps) _ t e2 in
    let (hour, (at_hour, e4)) = bind-returned (number_at u 6 ps) _ t e3 in
    let (minute, (at_minute, e5)) = bind-returned (number_at u 8 ps) _ t e4 in
    let (second, (at_second, e6)) = bind-returned (number_at u 10 ps) _ t e5 in
    let (day, clock, hh, hm, hs, micros) = instant_of-Holds y m d hour minute second t e6 in
    let (q_hour, q_minute, q_second) =
      clock_parts (second_of_day t) hour minute second clock hm hs in
    (
      at_y ∙ ap (λ z. returned z.year) (sym day),
      at_m ∙ ap (λ z. returned z.month) (sym day),
      at_d ∙ ap (λ z. returned z.day) (sym day),
      at_hour ∙ ap returned q_hour,
      at_minute ∙ ap returned q_minute,
      at_second ∙ ap returned q_second,
      micros,
    )

-- For every text that is accepted: it matches the format as a whole, and the pieces are the year,
-- the month, the day, the hour, the minute and the second of the instant.
pub strptime-Reads :
    (u : Unicode) (s : Text) (t : Instant)
    → strptime u s ≡ returned t
    → (ps : List Text) × ((match_at (format_pattern u) s ≡ some ps)
        × (total_length ps ≡ length s)
        × Reads u ps t)
unfolding strptime from_match
strptime-Reads u s t e = of_match (match_at (format_pattern u) s) refl e
  where
    of_match :
        (o : Option (List Text))
        → match_at (format_pattern u) s ≡ o
        → from_match u s o ≡ returned t
        → (ps : List Text) × ((match_at (format_pattern u) s ≡ some ps)
            × (total_length ps ≡ length s)
            × Reads u ps t)
    of_match none at e = cc
    of_match (some ps) at e =
        let (whole, made) = guarded (total_length ps == length s) (instant_of_pieces u ps) t e in
        (ps, (at, (==_iff (total_length ps) (length s)).0 whole, pieces-Reads u ps t made))
