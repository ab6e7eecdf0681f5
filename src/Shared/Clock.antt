-- ===== src/Shared/Clock.antt =====
-- Python's `datetime` as far as the program uses it: `datetime.now(UTC)`, differences of two
-- instants, and `strftime('%Y-%m-%d %H:%M:%S UTC')`. An instant is the number of microseconds since
-- 0001-01-01 00:00 UTC, the least `datetime`; every call of `datetime.now(UTC)` is an argument.
mod Cycles
pub mod Calendar
mod Tests
use wan_router_notifications.Common.{
  ℕ, zero, suc, ◌+◌, ◌-◌, ◌*◌, ◌/◌, ◌%◌, Bool, true, false, ◌&&◌, ◌||◌, not, List, [], ◌∷◌, ◌++◌,
  ltb, leb, ◌==◌, if◌then◌else◌,
}
use wan_router_notifications.Common.Int.{ℤ, pos, negsuc, sub_ℕ}
use wan_router_notifications.Common.Result.{Result, returned, raised}
use wan_router_notifications.Common.Text.{Text, codes, decimal, two_digits}

abbrev pub Instant : Type 0
Instant = ℕ

abbrev pub micros_per_second : ℕ
micros_per_second = 1000000

-- `later - earlier`, a `timedelta` in microseconds; it is negative where the clock went back
unfoldable pub minus : Instant → Instant → ℤ
minus later earlier = sub_ℕ later earlier

abbrev pub month_lengths : Bool → List ℕ
month_lengths leap =
    31 ∷ (if leap then 29 else 28) ∷ 31 ∷ 30 ∷ 31 ∷ 30 ∷ 31 ∷ 31 ∷ 30 ∷ 31 ∷ 30 ∷ 31 ∷ []

-- The month, counted from `m`, and the day of a day counted from 0 within the year.
pub month_day : ℕ → ℕ → List ℕ → ℕ × ℕ
month_day m day [] = (m, day + 1)
month_day m day (len ∷ rest) =
    let later = month_day (m + 1) (day - len) rest in if ltb day len then (m, day + 1) else later

pub record Date : Type 0 where
  pub year : ℕ
  pub month : ℕ
  pub day : ℕ

pub date_of : ℕ → ℕ × ℕ → Date
date_of y (m, d) = record { year = y; month = m; day = d }

-- the date of a day within a year, given the cycles of 400, 100, 4 and 1 years before it; the last
-- day of a cycle belongs to its last year
pub date_in_cycles : ℕ → ℕ → ℕ → ℕ → ℕ → Date
unfolding month_day date_of
date_in_cycles n400 n100 n4 n1 day =
    let year = n400 * 400 + n100 * 100 + n4 * 4 + n1 + 1 in
    let leap = n1 == 3 && (not (n4 == 24) || n100 == 3) in
    if n1 == 4 || n100 == 4
    then record { year = year - 1; month = 12; day = 31 }
    else date_of year (month_day 1 day (month_lengths leap))

-- The proleptic Gregorian date of a day counted from 0001-01-01.
unfoldable pub civil : ℕ → Date
unfolding date_in_cycles
civil n =
    let r400 = n % 146097 in
    let r100 = r400 % 36524 in
    let r4 = r100 % 1461 in
    date_in_cycles (n / 146097) (r400 / 36524) (r100 / 1461) (r4 / 365) (r4 % 365)

pub is_leap : ℕ → Bool
is_leap y = y % 4 == 0 && (not (y % 100 == 0) || y % 400 == 0)

-- the length of month `m` and the days of the year before it, for a month that is counted from 1
pub month_and_before : ℕ → List ℕ → ℕ × ℕ
month_and_before m [] = (0, 0)
month_and_before m (len ∷ rest) =
    let (l, before) = month_and_before (m - 1) rest in
    if m == 1 then (len, 0) else (l, len + before)

-- the day counted from 0001-01-01
pub ordinal : ℕ → ℕ → ℕ
ordinal y day_of_year = (y - 1) * 365 + (y - 1) / 4 - (y - 1) / 100 + (y - 1) / 400 + day_of_year

-- a date and a time of day, given the length of the month
pub is_datetime : ℕ → ℕ → ℕ → ℕ → ℕ → ℕ → ℕ → Bool
is_datetime len year month day hour minute second =
    leb 1 year
    && (leb year 9999
        && (leb 1 month
            && (leb month 12
                && (leb 1 day
                    && (leb day len && (ltb hour 24 && (ltb minute 60 && ltb second 60)))))))

-- `datetime(year, month, day, hour, minute, second)`, where `raised` is a ValueError
unfoldable pub instant_of : ℕ → ℕ → ℕ → ℕ → ℕ → ℕ → Result Instant
unfolding is_leap month_and_before ordinal is_datetime
instant_of year month day hour minute second =
    let (len, before) = month_and_before month (month_lengths (is_leap year)) in
    let seconds = hour * 3600 + minute * 60 + second in
    if is_datetime len year month day hour minute second
    then returned ((ordinal year (before + (day - 1)) * 86400 + seconds) * micros_per_second)
    else raised

-- `t.strftime('%Y-%m-%d %H:%M:%S UTC')`, for years from 1000 on
unfoldable pub strftime : Instant → Text
unfolding civil decimal two_digits
strftime t =
    let secs = t / micros_per_second in
    let date = civil (secs / 86400) in
    let clock = secs % 86400 in
    decimal date.year
    ++ (codes "-"
        ++ (two_digits date.month
            ++ (codes "-"
                ++ (two_digits date.day
                    ++ (codes " "
                        ++ (two_digits (clock / 3600)
                            ++ (codes ":"
                                ++ (two_digits (clock / 60 % 60)
                                    ++ (codes ":"
                                        ++ (two_digits (clock % 60) ++ codes " UTC"))))))))))
