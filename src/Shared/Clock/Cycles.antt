-- ===== src/Shared/Clock/Cycles.antt =====
-- The cycles of the calendar in Shared/Clock: the lemmas on the date of a day that is counted by them.
use mathlib.Core.Path.{subst}
use wan_router_notifications.Common.{
  ℕ, ◌+◌, ◌-◌, ◌*◌, ◌/◌, ◌%◌, ◌≤◌, ◌<◌, ◌≡◌, ◌≢◌, refl, ap, ◌∙◌, Bool, true, false, ◌&&◌, ◌||◌, not,
  List, [], ◌∷◌, arith, Bool-cases, inl, inr, ltb, ◌==◌, length,
}
use wan_router_notifications.Shared.Clock.{
  month_lengths, month_day, date_of, month_and_before, date_in_cycles, civil,
}

month_day-head :
    (first day len : ℕ) (rest : List ℕ)
    → day < len
    → month_day first day (len ∷ rest) ≡ (first, day + 1)
unfolding month_day
month_day-head first day len rest h = ground arith

month_day-tail :
    (first day len : ℕ) (rest : List ℕ)
    → month_day first (len + day) (len ∷ rest) ≡ month_day (first + 1) day rest
unfolding month_day
month_day-tail first day len rest =
    let back : len + day - len ≡ day = omega arith in
    let over : ltb (len + day) len ≡ false = ground arith in rw (over, back) refl

-- The month and day of a date are found again from its day of the year.
pub month_day-before :
    (lens : List ℕ) (first m d : ℕ)
    → 1 ≤ m
    → m ≤ length lens
    → 1 ≤ d
    → d ≤ (month_and_before m lens).0
    → month_day (first + 1) ((month_and_before m lens).1 + (d - 1)) lens ≡ (first + m, d)
unfolding month_and_before
month_day-before [] first m d h1 h2 h3 h4 = ground arith
month_day-before (len ∷ rest) first m d h1 h2 h3 h4 = elim (Bool-cases (m == 1)) [
  | inl e ↦
      let here : month_and_before m (len ∷ rest) ≡ (len, 0) = rw e refl in
      let room : d ≤ len = subst (λ p. d ≤ p.0) here h4 in
      let one : m ≡ 1 = ground arith in
      let day : 0 + (d - 1) + 1 ≡ d = omega arith in
      rw (here, one)
        (month_day-head (first + 1) (0 + (d - 1)) len rest (omega arith)
          ∙ ap (λ x. (first + 1, x)) day)
  | inr e ↦
      let later = month_and_before (m - 1) rest in
      let there : month_and_before m (len ∷ rest) ≡ (later.0, len + later.1) = rw e refl in
      let room : d ≤ later.0 = subst (λ p. d ≤ p.0) there h4 in
      let not_one : m ≢ 1 = ground arith in
      let assoc : len + later.1 + (d - 1) ≡ len + (later.1 + (d - 1)) = omega arith in
      let month : first + 1 + (m - 1) ≡ first + m = omega arith in
      rw (there, assoc)
        (month_day-tail (first + 1) (later.1 + (d - 1)) len rest
          ∙ (month_day-before rest (first + 1) (m - 1) d (omega arith) (omega arith) h3 room
              ∙ ap (λ x. (x, d)) month))
]

abbrev pub total : List ℕ → ℕ
total [] = 0
total (len ∷ rest) = len + total rest

pub before_bound :
    (lens : List ℕ) (m : ℕ) → (month_and_before m lens).0 + (month_and_before m lens).1 ≤ total lens
unfolding month_and_before
before_bound [] m = omega arith
before_bound (len ∷ rest) m = ground (arith, before_bound rest (m - 1))

-- one day more in a leap year
abbrev pub leap_in : ℕ → ℕ → ℕ → Bool
leap_in b c e = e == 3 && (not (c == 24) || b == 3)

civil-parts :
    (a b c e day : ℕ)
    → 36524 * b + (1461 * c + (365 * e + day)) < 146097
    → 1461 * c + (365 * e + day) < 36524
    → 365 * e + day < 1461
    → day < 365
    → civil (146097 * a + (36524 * b + (1461 * c + (365 * e + day)))) ≡ date_in_cycles a b c e day
unfolding civil
civil-parts a b c e day h1 h2 h3 h4 =
    let r4 = 365 * e + day in
    let r100 = 1461 * c + r4 in
    let r400 = 36524 * b + r100 in
    let n = 146097 * a + r400 in
    let q400 : n / 146097 ≡ a = omega arith in
    let m400 : n % 146097 ≡ r400 = omega arith in
    let q100 : r400 / 36524 ≡ b = omega arith in
    let m100 : r400 % 36524 ≡ r100 = omega arith in
    let q4 : r100 / 1461 ≡ c = omega arith in
    let m4 : r100 % 1461 ≡ r4 = omega arith in
    let q1 : r4 / 365 ≡ e = omega arith in
    let m1 : r4 % 365 ≡ day = omega arith in rw (q400, m400, q100, m100, q4, m4, q1, m1) refl

unfoldable pub year_of : ℕ → ℕ → ℕ → ℕ → ℕ
year_of a b c e = a * 400 + b * 100 + c * 4 + e + 1

day_in_cycles :
    (a b c e day : ℕ)
    → b ≤ 3
    → e ≤ 3
    → date_in_cycles a b c e day
      ≡ date_of (year_of a b c e) (month_day 1 day (month_lengths (leap_in b c e)))
unfolding date_in_cycles year_of
day_in_cycles a b c e day hb he =
    let inner : e == 4 ≡ false = ground arith in
    let outer : b == 4 ≡ false = ground arith in rw (inner, outer) refl

-- the last day of a leap year, by the cycle that is its own
last_day :
    (a b c : ℕ)
    → b ≤ 3
    → c ≤ 24
    → leap_in b c 3 ≡ true
    → civil (146097 * a + (36524 * b + (1461 * c + (365 * 3 + 365))))
      ≡ record { year = year_of a b c 3; month = 12; day = 31 }
unfolding date_in_cycles year_of
last_day a b c hb hc leap = elim (Bool-cases (c == 24)) [
  | inl e ↦
      let c24 : c ≡ 24 = ground arith in
      let b3 : b ≡ 3 = ground arith in
      let year : a * 400 + 4 * 100 + 0 * 4 + 0 + 1 - 1 ≡ a * 400 + 3 * 100 + 24 * 4 + 3 + 1 =
        omega arith in
      rw (c24, b3)
        (civil-parts a 4 0 0 0 (omega arith) (omega arith) (omega arith) (omega arith)
          ∙ ap (λ y. record { year = y; month = 12; day = 31 }) year)
  | inr e ↦
      let c_ne : c ≢ 24 = ground arith in
      let next : 365 * 3 + 365 ≡ 365 * 4 + 0 = omega arith in
      let year : a * 400 + b * 100 + c * 4 + 4 + 1 - 1 ≡ a * 400 + b * 100 + c * 4 + 3 + 1 =
        omega arith in
      rw next (
        civil-parts a b c 4 0 (omega arith) (omega arith) (omega arith) (omega arith)
        ∙ ap (λ y. record { year = y; month = 12; day = 31 }) year)
]

long_year :
    (leap : Bool) (day : ℕ)
    → 365 ≤ day
    → day < total (month_lengths leap)
    → (leap ≡ true) × (day ≡ 365)
long_year true day h1 h2 = (refl, omega arith)
long_year false day h1 h2 = ground arith

pub civil-cycles :
    (a b c e day : ℕ)
    → b ≤ 3
    → c ≤ 24
    → e ≤ 3
    → day < total (month_lengths (leap_in b c e))
    → civil (146097 * a + (36524 * b + (1461 * c + (365 * e + day))))
      ≡ date_of (year_of a b c e) (month_day 1 day (month_lengths (leap_in b c e)))
unfolding date_of month_day
civil-cycles a b c e day hb hc he hd = elim (Bool-cases (ltb day 365)) [
  | inl h ↦
      let short : day < 365 = ground arith in
      civil-parts a b c e day (omega arith) (omega arith) (omega arith) short
      ∙ day_in_cycles a b c e day hb he
  | inr h ↦
      let long : 365 ≤ day = ground arith in
      let (leap, d365) = long_year (leap_in b c e) day long hd in
      let e3 : e ≡ 3 = ground arith in
      rw (leap, d365, e3) (last_day a b c hb hc (subst (λ k. leap_in b c k ≡ true) e3 leap))
]
