-- ===== src/Local/SyslogReceiver/Timestamps.antt =====
-- The timestamp that local/syslog_receiver.py gives an event.
use wan_router_notifications.Common.{
  ℕ, ◌+◌, ◌-◌, ◌*◌, ◌≤◌, ◌≡◌, ◌⊎◌, refl, ap, sym, ◌∙◌, true, false, List, [], ◌∷◌, ◌++◌, none, some,
  length, ltb, Bool-cases, inl, inr,
}
use wan_router_notifications.Common.Result.{Result, returned, raised, returned-injective}
use wan_router_notifications.Common.Text.{
  Text, codes, decimal, is_truthy, read_from, read_from-decimal, IsDigits, decimal-IsDigits,
}
use wan_router_notifications.Common.Regex.{total_length, CharClass, match_at}
use wan_router_notifications.Common.Regex.Decides.{AllIn, FitsSome, Fits, match_at-Fits}
use wan_router_notifications.Shared.Clock.{Instant}
use wan_router_notifications.Local.SyslogReceiver.Patterns.{Unicode, is_digit, piece}
use wan_router_notifications.Local.SyslogReceiver.Strings.{
  lstrip, rstrip, strip, digits_value, int_of,
}
use wan_router_notifications.Local.SyslogReceiver.Strptime.{number_at, format_pattern, strptime}
use wan_router_notifications.Local.SyslogReceiver.Reading.{Reads, date_at, strptime-Reads}
use wan_router_notifications.Local.SyslogReceiver.{event_timestamp}

-- the text that is parsed: the current year, a space and the message's time
abbrev pub with_year : Instant → Text → Text
with_year now s = decimal (date_at now).year ++ (codes " " ++ s)

-- A time that was read of the text in the current year, or is the clock's.
abbrev pub Timed : Unicode → Instant → Instant → Text → Instant → Type 0
Timed u now again s t =
    ((strptime u (with_year now s) ≡ raised) × (t ≡ again))
    ⊎ ((strptime u (with_year now s) ≡ returned t)
        × ((date_at t).year ≡ (date_at now).year)
        × ((ps : List Text) × ((match_at (format_pattern u) (with_year now s) ≡ some ps)
              × (total_length ps ≡ length (with_year now s))
              × Reads u ps t)))

-- Two texts that begin with characters of a class and go on with others begin with the same.
same_front :
    (cls : CharClass) (p q : Text) (d e : ℕ) (r s : Text)
    → AllIn cls p
    → AllIn cls q
    → cls d ≡ false
    → cls e ≡ false
    → p ++ d ∷ r ≡ q ++ e ∷ s
    → p ≡ q
same_front cls [] [] d e r s hp hq hd he eq = refl
same_front cls [] (y ∷ q) d e r s hp hq hd he eq = cc
same_front cls (x ∷ p) [] d e r s hp hq hd he eq = cc
same_front cls (x ∷ p) (y ∷ q) d e r s hp hq hd he eq =
    let head : x ≡ y = cc in
    let tail : p ++ d ∷ r ≡ q ++ e ∷ s = cc in
    let rest = same_front cls p q d e r s hp.1 hq.1 hd he tail in cc

four_of :
    (cls : CharClass) (p : Text)
    → FitsSome ((cls ∷ cls ∷ cls ∷ cls ∷ []) ∷ []) p
    → AllIn cls p × (length p ≡ 4)
four_of cls p (inr h) = elim h [ ]
four_of cls [] (inl h) = elim h [ ]
four_of cls (a ∷ []) (inl h) = elim h.1 [ ]
four_of cls (a ∷ b ∷ []) (inl h) = elim h.1.1 [ ]
four_of cls (a ∷ b ∷ c ∷ []) (inl h) = elim h.1.1.1 [ ]
four_of cls (a ∷ b ∷ c ∷ d ∷ []) (inl h) = ((h.0, (h.1.0, (h.1.1.0, (h.1.1.1.0, tt)))), refl)
four_of cls (a ∷ b ∷ c ∷ d ∷ e ∷ p) (inl h) = elim h.1.1.1.1 [ ]

-- What Unicode says of the ASCII digits and of the space.
module _ (u : Unicode) (digits : (c : ℕ) → 48 ≤ c → c ≤ 57 → u.digit_value c ≡ some (c - 48))
    (space : u.is_space 32 ≡ true)
    (no_digit : (c : ℕ) → u.is_space c ≡ true → u.digit_value c ≡ none) where
  space-not_digit : (c : ℕ) → u.is_space c ≡ true → is_digit u c ≡ false
  space-not_digit c h = rw (no_digit c h, is_digit) refl

  digit-not_space : (c : ℕ) → is_digit u c ≡ true → u.is_space c ≡ false
  digit-not_space c h = elim (Bool-cases (u.is_space c)) [
    | inl yes_space ↦ let not_digit = space-not_digit c yes_space in cc
    | inr not_space ↦ not_space
  ]

  IsDigits-AllIn : (y : Text) → IsDigits y → AllIn (is_digit u) y
  IsDigits-AllIn [] h = tt
  IsDigits-AllIn (c ∷ y) h = (rw (digits c h.0 h.1, is_digit) refl, IsDigits-AllIn y h.2)

  rstrip-digits : (y : Text) → AllIn (is_digit u) y → rstrip u y ≡ y
  unfolding rstrip is_truthy
  rstrip-digits [] h = refl
  rstrip-digits (c ∷ []) h = rw (digit-not_space c h.0) refl
  rstrip-digits (c ∷ d ∷ y) h = rw (rstrip-digits (d ∷ y) h.1) refl

  strip-digits : (y : Text) → AllIn (is_digit u) y → strip u y ≡ y
  unfolding strip lstrip
  strip-digits [] h = rstrip-digits [] h
  strip-digits (c ∷ y) h = rw (digit-not_space c h.0) (rstrip-digits (c ∷ y) h)

  digits_value-read_from :
      (acc : ℕ) (y : Text) → IsDigits y → digits_value u acc y ≡ some (read_from acc y)
  unfolding digits_value
  digits_value-read_from acc [] h = refl
  digits_value-read_from acc (c ∷ y) h =
      rw (digits c h.0 h.1, digits_value) (digits_value-read_from (acc * 10 + (c - 48)) y h.2)

  int_of-decimal : (n : ℕ) → length (decimal n) ≡ 4 → int_of u (strip u (decimal n)) ≡ returned n
  unfolding int_of
  int_of-decimal n h =
      let ds = decimal-IsDigits n in
      let short : ltb 4300 (length (decimal n)) ≡ false = rw h refl in
      rw (strip-digits (decimal n) (IsDigits-AllIn (decimal n) ds))
        (rw (short, digits_value-read_from 0 (decimal n) ds, read_from-decimal n) refl)

  -- The first piece of a match is the year that the text begins with.
  year_first :
      (y s : Text) (ps : List Text)
      → IsDigits y
      → Fits (format_pattern u) ps (y ++ 32 ∷ s)
      → (piece 0 ps ≡ y) × (length (piece 0 ps) ≡ 4)
  unfolding format_pattern
  year_first y s [] hy h = elim h [ ]
  year_first y s (p ∷ []) hy (h, (rest, e, fits)) = elim fits [ ]
  year_first y s (p ∷ [] ∷ ps) hy (h, (rest, e, fits)) = elim fits.0 [ ]
  year_first y s (p ∷ (c ∷ q) ∷ ps) hy (h, (rest, e, (white, (rest', e', fits)))) =
      let (all, four) = four_of (is_digit u) p h in
      let text : p ++ c ∷ (q ++ rest') ≡ y ++ 32 ∷ s = ap (λ r. p ++ r) (sym e') ∙ sym e in
      (
        same_front (is_digit u) p y c 32 (q ++ rest') s all (IsDigits-AllIn y hy)
            (space-not_digit c white.0) (space-not_digit 32 space) text,
        four,
      )

  parsed-Timed :
      (now again : Instant) (s : Text) (t : Instant)
      → strptime u (with_year now s) ≡ returned t
      → Timed u now again s t
  parsed-Timed now again s t e =
      let year = (date_at now).year in
      let (ps, (hit, whole, reads)) = strptime-Reads u (with_year now s) t e in
      let fits = match_at-Fits (format_pattern u) (with_year now s) ps hit in
      let (front, four) = year_first (decimal year) s ps (decimal-IsDigits year) fits in
      let read : number_at u 0 ps ≡ returned year =
        ap (λ p. int_of u (strip u p)) front ∙ int_of-decimal year (ap length (sym front) ∙ four) in
      inr (
        e,
        returned-injective (date_at t).year year (sym reads.0 ∙ read),
        (ps, (hit, whole, reads)),
      )

  -- Where the ASCII digits have their values, the space is white, and no white character is a digit:
  -- an event's time is the clock's, read again, where `strptime` raises; else it is what that returns,
  -- it lies in the current year, and the pieces of the whole text are its year, month, day, hour,
  -- minute and second.
  pub timestamp_this_year :
      (now again : Instant) (s : Text) → Timed u now again s (event_timestamp u now again s)
  unfolding event_timestamp
  timestamp_this_year now again s = of_parse (strptime u (with_year now s)) refl
    where
      of_parse :
          (r : Result Instant)
          → strptime u (with_year now s) ≡ r
          → Timed u now again s (elim r [ raised ↦ again | returned t ↦ t ])
      of_parse raised e = inl (e, refl)
      of_parse (returned t) e = parsed-Timed now again s t e
