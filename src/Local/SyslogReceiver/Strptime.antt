-- ===== src/Local/SyslogReceiver/Strptime.antt =====
-- `datetime.strptime(text, "%Y %b %d %H:%M:%S")` of local/syslog_receiver.py, in the C locale, as
-- Python's `_strptime` does it: the format becomes a regular expression that has to match the whole
-- text, and the numbers that it finds have to be those of a date and a time.
use wan_router_notifications.Common.{
  ℕ, ◌+◌, ◌&&◌, ◌||◌, List, [], ◌∷◌, Option, none, some, length, map, leb, ◌==◌, if◌then◌else◌,
}
use wan_router_notifications.Common.Result.{Result, returned, raised, ◌>>=◌}
use wan_router_notifications.Common.Text.{Text, codes, text_eq}
use wan_router_notifications.Common.Regex.{
  total_length, CharClass, Item, choice, exactly, greedy_plus, match_at,
}
use wan_router_notifications.Shared.Clock.{Instant, instant_of}
use wan_router_notifications.Local.SyslogReceiver.Patterns.{Unicode, is_digit, piece}
use wan_router_notifications.Local.SyslogReceiver.Strings.{strip, int_of}

abbrev pub month_names : List Text
month_names =
    codes "jan"
    ∷ codes "feb"
    ∷ codes "mar"
    ∷ codes "apr"
    ∷ codes "may"
    ∷ codes "jun"
    ∷ codes "jul"
    ∷ codes "aug"
    ∷ codes "sep"
    ∷ codes "oct"
    ∷ codes "nov"
    ∷ codes "dec"
    ∷ []

-- a letter in either case
abbrev either_case : ℕ → CharClass
either_case c d = d == c || d + 32 == c

-- [a-b] of two characters
abbrev between : ℕ → ℕ → CharClass
between a b c = leb a c && leb c b

abbrev one : ℕ → CharClass
one a c = c == a

module _ (u : Unicode) where
  -- \d\d\d\d
  abbrev year_item : Item
  year_item = choice ((is_digit u ∷ is_digit u ∷ is_digit u ∷ is_digit u ∷ []) ∷ [])

  abbrev month_item : Item
  month_item = choice (map (map either_case) month_names)

  -- 3[0-1]|[1-2]\d|0[1-9]|[1-9]| [1-9]
  abbrev day_item : Item
  day_item = choice (
      (one 51 ∷ between 48 49 ∷ [])
      ∷ (between 49 50 ∷ is_digit u ∷ [])
      ∷ (one 48 ∷ between 49 57 ∷ [])
      ∷ (between 49 57 ∷ [])
      ∷ (one 32 ∷ between 49 57 ∷ [])
      ∷ [])

  -- 2[0-3]|[0-1]\d|\d
  abbrev hour_item : Item
  hour_item =
      choice
        ((one 50 ∷ between 48 51 ∷ []) ∷ (between 48 49 ∷ is_digit u ∷ []) ∷ (is_digit u ∷ []) ∷ [])

  -- [0-5]\d|\d
  abbrev minute_item : Item
  minute_item = choice ((between 48 53 ∷ is_digit u ∷ []) ∷ (is_digit u ∷ []) ∷ [])

  -- 6[0-1]|[0-5]\d|\d
  abbrev second_item : Item
  second_item =
      choice
        ((one 54 ∷ between 48 49 ∷ []) ∷ (between 48 53 ∷ is_digit u ∷ []) ∷ (is_digit u ∷ []) ∷ [])

  -- the format's regular expression, each space of the format a `\s+`
  unfoldable pub format_pattern : List Item
  format_pattern =
      let spaces = greedy_plus u.is_space in
      year_item
      ∷ spaces
      ∷ month_item
      ∷ spaces
      ∷ day_item
      ∷ spaces
      ∷ hour_item
      ∷ exactly (codes ":")
      ∷ minute_item
      ∷ exactly (codes ":")
      ∷ second_item
      ∷ []

  -- the place of a name in the list of the months, which is counted from `m`
  pub month_from : ℕ → List Text → Text → Result ℕ
  month_from m [] s = raised
  month_from m (name ∷ names) s =
      let later = month_from (m + 1) names s in if text_eq name s then returned m else later

  -- `int(piece)`; the piece of the day may begin with a space
  abbrev pub number_at : ℕ → List Text → Result ℕ
  number_at n ps = int_of u (strip u (piece n ps))

  -- the instant of a match's pieces
  unfoldable pub instant_of_pieces : List Text → Result Instant
  unfolding month_from int_of strip instant_of
  instant_of_pieces ps = do
    year ← number_at 0 ps
    month ← month_from 1 month_names (u.lower (piece 2 ps))
    day ← number_at 4 ps
    hour ← number_at 6 ps
    minute ← number_at 8 ps
    second ← number_at 10 ps
    instant_of year month day hour minute second

  -- a match has to reach the end of the text
  unfoldable pub from_match : Text → Option (List Text) → Result Instant
  unfolding total_length instant_of_pieces
  from_match s none = raised
  from_match s (some ps) = if total_length ps == length s then instant_of_pieces ps else raised

  -- `raised` is the ValueError: no match, text behind the match, or no date and time
  unfoldable pub strptime : Text → Result Instant
  unfolding from_match format_pattern
  strptime s = from_match s (match_at format_pattern s)
