-- ===== src/Shared/Clock/Calendar.antt =====
-- The lemmas on the dates of Shared/Clock, and on the instants that are made of them.
use mathlib.Core.Path.{subst}
use wan_router_notifications.Common.{
  ℕ, ◌+◌, ◌-◌, ◌*◌, ◌/◌, ◌%◌, ◌≤◌, ◌<◌, ◌≡◌, refl, sym, ap, ◌∙◌, Bool, true, false, arith,
  if◌then◌else◌,
}
use wan_router_notifications.Common.Result.{returned, raised}
use wan_router_notifications.Shared.Clock.{
  Instant, micros_per_second, Date, month_lengths, month_day, date_of, is_leap, month_and_before,
  ordinal, is_datetime, civil, instant_of,
}
use wan_router_notifications.Shared.Clock.Cycles.{
  total, month_day-before, before_bound, leap_in, year_of, civil-cycles,
}

-- A year after 0 by its cycles.
cycles_of :
    (y : ℕ)
    → 1 ≤ y
    → (a : ℕ) × ((b : ℕ) × ((c : ℕ) × ((e : ℕ) × ((y ≡ year_of a b c e)
              × (b ≤ 3)
              × (c ≤ 24)
              × (e ≤ 3)))))
unfolding year_of
cycles_of y h =
    let k = y - 1 in
    (
      k / 400,
      (
        k % 400 / 100,
        (k % 400 % 100 / 4, (k % 4, (omega arith, omega arith, omega arith, omega arith))),
      ),
    )

ordinal-cycles :
    (a b c e day : ℕ)
    → b ≤ 3
    → c ≤ 24
    → e ≤ 3
    → ordinal (year_of a b c e) day ≡ 146097 * a + (36524 * b + (1461 * c + (365 * e + day)))
unfolding ordinal year_of
ordinal-cycles a b c e day hb hc he =
    let y = a * 400 + b * 100 + c * 4 + e + 1 in
    let k : y - 1 ≡ a * 400 + b * 100 + c * 4 + e = omega arith in
    let q4 : (y - 1) / 4 ≡ a * 100 + b * 25 + c = omega arith in
    let q100 : (y - 1) / 100 ≡ a * 4 + b = omega arith in
    let q400 : (y - 1) / 400 ≡ a = omega arith in rw (q4, q100, q400, k) (omega arith)

is_leap-cycles : (a b c e : ℕ) → b ≤ 3 → c ≤ 24 → e ≤ 3 → is_leap (year_of a b c e) ≡ leap_in b c e
unfolding is_leap year_of
is_leap-cycles a b c e hb hc he = ground arith

abbrev pub date : ℕ → ℕ → ℕ → Date
date y m d = record { year = y; month = m; day = d }

-- The date of a day is the one that the day was counted from.
civil-ordinal :
    (y m d : ℕ)
    → 1 ≤ y
    → 1 ≤ m
    → m ≤ 12
    → 1 ≤ d
    → d ≤ (month_and_before m (month_lengths (is_leap y))).0
    → civil (ordinal y ((month_and_before m (month_lengths (is_leap y))).1 + (d - 1))) ≡ date y m d
unfolding date_of
civil-ordinal y m d hy hm hm' hd hd' =
    let (a, (b, (c, (e, (at, hb, hc, he))))) = cycles_of y hy in
    let lens = month_lengths (is_leap y) in
    let leap : is_leap y ≡ leap_in b c e = ap is_leap at ∙ is_leap-cycles a b c e hb hc he in
    let day = (month_and_before m lens).1 + (d - 1) in
    let bound = before_bound lens m in
    let inside : day < total lens = omega arith in
    let inside' : day < total (month_lengths (leap_in b c e)) =
      subst (λ l. day < total (month_lengths l)) leap inside in
    let same : 0 + m ≡ m = omega arith in
    let found : month_day 1 day lens ≡ (m, d) =
      month_day-before lens 0 m d hm hm' hd hd' ∙ ap (λ x. (x, d)) same in
    let found' : month_day 1 day (month_lengths (leap_in b c e)) ≡ (m, d) =
      subst (λ l. month_day 1 day (month_lengths l) ≡ (m, d)) leap found in
    ap (λ z. civil (ordinal z day)) at
    ∙ (ap civil (ordinal-cycles a b c e day hb hc he)
        ∙ (civil-cycles a b c e day hb hc he inside'
            ∙ (ap (date_of (year_of a b c e)) found' ∙ ap (λ z. date z m d) (sym at))))

-- An instant that is made of a date and a time has these.
abbrev pub Holds : Instant → Date → ℕ → ℕ → ℕ → Type 0
Holds t day hour minute second =
    (civil (t / micros_per_second / 86400) ≡ day)
    × (t / micros_per_second % 86400 ≡ hour * 3600 + minute * 60 + second)
    × (hour < 24)
    × (minute < 60)
    × (second < 60)
    × (t % micros_per_second ≡ 0)

is_datetime-bounds :
    (len y m d hour minute second : ℕ)
    → is_datetime len y m d hour minute second ≡ true
    → (1 ≤ y)
      × (1 ≤ m)
      × (m ≤ 12)
      × (1 ≤ d)
      × (d ≤ len)
      × (hour < 24)
      × (minute < 60)
      × (second < 60)
unfolding is_datetime
is_datetime-bounds len y m d hour minute second e = ground arith

split_instant :
    (day secs : ℕ)
    → secs < 86400
    → let t = (day * 86400 + secs) * micros_per_second in
      (t / micros_per_second / 86400 ≡ day)
      × (t / micros_per_second % 86400 ≡ secs)
      × (t % micros_per_second ≡ 0)
split_instant day secs h = (omega arith, omega arith, omega arith)

guarded :
    (c : Bool) (x t : Instant)
    → (if c then returned x else raised) ≡ returned t
    → (c ≡ true) × (x ≡ t)
guarded true x t e = (refl, cc)
guarded false x t e = cc

-- For every six numbers: the instant that is made of them has that date and that time of day.
pub instant_of-Holds :
    (y m d hour minute second : ℕ) (t : Instant)
    → instant_of y m d hour minute second ≡ returned t
    → Holds t (date y m d) hour minute second
unfolding instant_of
instant_of-Holds y m d hour minute second t e =
    let (len, before) = month_and_before m (month_lengths (is_leap y)) in
    let day = ordinal y (before + (d - 1)) in
    let secs = hour * 3600 + minute * 60 + second in
    let (valid, made) =
      guarded (is_datetime len y m d hour minute second) ((day * 86400 + secs) * micros_per_second)
        t e in
    let (hy, hm, hm', hd, hd', hh, hmin, hs) =
      is_datetime-bounds len y m d hour minute second valid in
    let (days, clock, micros) = split_instant day secs (omega arith) in
    subst (λ z. Holds z (date y m d) hour minute second) made
      (ap civil days ∙ civil-ordinal y m d hy hm hm' hd hd', clock, hh, hmin, hs, micros)
