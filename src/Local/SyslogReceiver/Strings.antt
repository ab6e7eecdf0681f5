-- ===== src/Local/SyslogReceiver/Strings.antt =====
-- The parts of `str` that local/syslog_receiver.py takes from the Unicode tables.
use wan_router_notifications.Common.{
  ℕ, ◌+◌, ◌*◌, [], ◌∷◌, Option, none, some, length, ltb, if◌then◌else◌,
}
use wan_router_notifications.Common.Result.{Result, returned, raised}
use wan_router_notifications.Common.Text.{Text, is_truthy}
use wan_router_notifications.Local.SyslogReceiver.Patterns.{Unicode}

-- `s.strip()`, from the left and from the right
unfoldable pub lstrip : Unicode → Text → Text
lstrip u [] = []
lstrip u (c ∷ s) = if u.is_space c then lstrip u s else c ∷ s

unfoldable pub rstrip : Unicode → Text → Text
rstrip u [] = []
rstrip u (c ∷ s) =
    let rest = rstrip u s in
    if is_truthy rest then c ∷ rest else if u.is_space c then [] else c ∷ []

unfoldable pub strip : Unicode → Text → Text
unfolding lstrip rstrip
strip u s = rstrip u (lstrip u s)

-- the value of decimal digits
unfoldable pub digits_value : Unicode → ℕ → Text → Option ℕ
digits_value u acc [] = some acc
digits_value u acc (c ∷ s) = elim (u.digit_value c) [
  | none ↦ none
  | some v ↦ digits_value u (acc * 10 + v) s
]

-- `int(text)` of digits: a ValueError beyond 4300 of them
unfoldable pub int_of : Unicode → Text → Result ℕ
unfolding digits_value
int_of u s =
    if ltb 4300 (length s)
    then raised
    else elim (digits_value u 0 s) [ none ↦ raised | some v ↦ returned v ]
