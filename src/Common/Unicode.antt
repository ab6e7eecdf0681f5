-- ===== src/Common/Unicode.antt =====
-- Python's Unicode tables, as far as the program asks them.
use wan_router_notifications.Common.{ℕ, Bool, true, false, Option, none, some}
use wan_router_notifications.Common.Text.{Text}
use wan_router_notifications.Common.Regex.{CharClass}

-- The value of a decimal digit (`\d`), `\s`,
-- `\w` and `str.lower`.
pub record Unicode : Type 0 where
  pub digit_value : ℕ → Option ℕ
  pub is_space : ℕ → Bool
  pub is_word : ℕ → Bool
  pub lower : Text → Text

abbrev pub is_digit : Unicode → CharClass
is_digit u c = elim (u.digit_value c) [ none ↦ false | some v ↦ true ]
