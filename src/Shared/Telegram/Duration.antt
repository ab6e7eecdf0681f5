-- ===== src/Shared/Telegram/Duration.antt =====
-- `format_duration` of shared/telegram.py. Its callers pass `timedelta.total_seconds()`; the model
-- takes the difference in microseconds, which `int` cuts off towards 0. (The float in between is
-- exact enough for this up to 270 years.)
pub mod RoundTrip
mod Tests
use wan_router_notifications.Common.{
  ℕ, zero, suc, ◌+◌, ◌-◌, ◌/◌, ◌%◌, Bool, true, false, ◌||◌, List, [], ◌∷◌, ◌++◌, ◌==◌, not,
  if◌then◌else◌,
}
use wan_router_notifications.Common.Int.{ℤ, pos, negsuc, sub_ℕ}
use wan_router_notifications.Common.Text.{Text, codes, decimal, join}
use wan_router_notifications.Shared.Clock.{micros_per_second}

-- `int(delta.total_seconds())`
unfoldable pub whole_seconds : ℤ → ℤ
whole_seconds (pos n) = pos (n / micros_per_second)
whole_seconds (negsuc n) = sub_ℕ 0 ((n + 1) / micros_per_second)

-- `divmod(a, m)` for `m` above 0: the quotient rounds down, so the remainder is not negative
unfoldable pub divmod : ℤ → ℕ → ℤ × ℕ
divmod (pos n) m = (pos (n / m), n % m)
divmod (negsuc n) m = (negsuc (n / m), m - 1 - n % m)

-- `bool(n)`
unfoldable pub is_nonzero : ℤ → Bool
is_nonzero (pos n) = not (n == 0)
is_nonzero (negsuc n) = true

-- `f"{n}"`
unfoldable pub int_text : ℤ → Text
int_text (pos n) = decimal n
int_text (negsuc n) = codes "-" ++ decimal (suc n)

is_empty : List Text → Bool
is_empty [] = true
is_empty (t ∷ ts) = false

-- the `parts` of the days, hours, minutes and seconds
pub duration_parts : ℤ → ℕ → ℕ → ℕ → List Text
unfolding is_nonzero int_text is_empty
duration_parts days hours minutes secs =
    let with_days = if is_nonzero days then (int_text days ++ codes "d") ∷ [] else [] in
    let with_hours =
      if not (hours == 0) then with_days ++ (decimal hours ++ codes "h") ∷ [] else with_days in
    let with_minutes =
      if not (minutes == 0)
      then with_hours ++ (decimal minutes ++ codes "m") ∷ []
      else with_hours in
    if not (secs == 0) || is_empty with_minutes
    then with_minutes ++ (decimal secs ++ codes "s") ∷ []
    else with_minutes

unfoldable pub format_duration : ℤ → Text
unfolding whole_seconds divmod duration_parts
format_duration delta =
    let (days, day_rest) = divmod (whole_seconds delta) 86400 in
    join (codes " ")
      (duration_parts days (day_rest / 3600) (day_rest % 3600 / 60) (day_rest % 3600 % 60))
