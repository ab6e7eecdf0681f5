-- ===== src/Shared/Telegram/Duration/RoundTrip.antt =====
-- A formatted duration is read back as its seconds.
use wan_router_notifications.Common.{
  ℕ, zero, suc, ◌+◌, ◌-◌, ◌*◌, ◌/◌, ◌%◌, ◌≤◌, ◌≡◌, refl, ◌∙◌, ap, false, ◌&&◌, List, [], ◌∷◌, ◌++◌,
  map, arith, ◌==◌, leb, if◌then◌else◌,
}
use wan_router_notifications.Common.Int.{pos}
use wan_router_notifications.Common.Text.{
  Text, codes, decimal, join, read_from, read_from-decimal, IsDigits, decimal-IsDigits,
}
use wan_router_notifications.Shared.Telegram.Duration.{format_duration, duration_parts}

-- An independent reader: digits gather a number, and a letter adds it in its unit.
abbrev unit_seconds : ℕ → ℕ
unit_seconds c =
    if c == b'd'
    then 86400
    else if c == b'h'
    then 3600
    else if c == b'm'
    then 60
    else if c == b's'
    then 1
    else 0

abbrev read_step : ℕ × ℕ → ℕ → ℕ × ℕ
read_step (total, n) c =
    if leb 48 c && leb c 57 then (total, n * 10 + (c - 48)) else (total + n * unit_seconds c, 0)

scan : ℕ × ℕ → Text → ℕ × ℕ
scan s [] = s
scan s (c ∷ cs) = scan (read_step s c) cs

pub read_duration : Text → ℕ
unfolding scan
read_duration t = (scan (0, 0) t).0

scan-append : (s : ℕ × ℕ) (t u : Text) → scan s (t ++ u) ≡ scan (scan s t) u
unfolding scan
scan-append s [] u = refl
scan-append s (c ∷ cs) u = scan-append (read_step s c) cs u

scan_digits : (total n : ℕ) (t : Text) → IsDigits t → scan (total, n) t ≡ (total, read_from n t)
unfolding scan
scan_digits total n [] h = refl
scan_digits total n (c ∷ cs) h =
    ap (λ s. scan s cs) (digit h.0 h.1) ∙ scan_digits total (n * 10 + (c - 48)) cs h.2
  where
    digit : 48 ≤ c → c ≤ 57 → read_step (total, n) c ≡ (total, n * 10 + (c - 48))
    digit low high = ground arith

-- a number and its unit
abbrev part : ℕ × ℕ → Text
part (n, u) = decimal n ++ u ∷ []

abbrev IsUnit : ℕ → Type 0
IsUnit u = 58 ≤ u

abbrev part_seconds : List (ℕ × ℕ) → ℕ
part_seconds [] = 0
part_seconds ((n, u) ∷ ps) = n * unit_seconds u + part_seconds ps

abbrev AreUnits : List (ℕ × ℕ) → Type 0
AreUnits [] = Unit {0}
AreUnits ((n, u) ∷ ps) = IsUnit u × AreUnits ps

is_letter : (u : ℕ) → IsUnit u → (leb 48 u && leb u 57) ≡ false
is_letter u h = ground arith

scan-part :
    (total n u : ℕ) → IsUnit u → scan (total, 0) (part (n, u)) ≡ (total + n * unit_seconds u, 0)
scan-part total n u h =
    rw
      (
        scan-append (total, 0) (decimal n) (u ∷ []),
        scan_digits total 0 (decimal n) (decimal-IsDigits n),
        read_from-decimal n,
      )
      (unfold scan in rw (is_letter u h) refl)

scan-join :
    (total : ℕ) (ps : List (ℕ × ℕ))
    → AreUnits ps
    → scan (total, 0) (join (codes " ") (map part ps)) ≡ (total + part_seconds ps, 0)
unfolding join
scan-join total [] h = unfold scan in ap (λ t. (t, 0)) (omega arith)
scan-join total ((n, u) ∷ []) h = scan-part total n u h.0 ∙ ap (λ t. (t, 0)) (omega arith)
scan-join total ((n, u) ∷ p ∷ ps) h =
    rw
      (
        scan-append (total, 0) (part (n, u)) (codes " " ++ join (codes " ") (map part (p ∷ ps))),
        scan-part total n u h.0,
      )
      (blank ∙ scan-join (total + n * unit_seconds u) (p ∷ ps) h.1 ∙ ap (λ t. (t, 0)) (omega arith))
  where
    blank :
        scan (total + n * unit_seconds u, 0) (codes " " ++ join (codes " ") (map part (p ∷ ps)))
        ≡ scan (total + n * unit_seconds u, 0) (join (codes " ") (map part (p ∷ ps)))
    blank =
        unfold scan in ap (λ t. scan (t, 0) (join (codes " ") (map part (p ∷ ps)))) (omega arith)

-- the parts that are written, as numbers with their units
parts_of : ℕ → ℕ → ℕ → ℕ → List (ℕ × ℕ)
parts_of zero zero zero zero = (0, b's') ∷ []
parts_of zero zero zero (suc s) = (suc s, b's') ∷ []
parts_of zero zero (suc m) zero = (suc m, b'm') ∷ []
parts_of zero zero (suc m) (suc s) = (suc m, b'm') ∷ (suc s, b's') ∷ []
parts_of zero (suc h) zero zero = (suc h, b'h') ∷ []
parts_of zero (suc h) zero (suc s) = (suc h, b'h') ∷ (suc s, b's') ∷ []
parts_of zero (suc h) (suc m) zero = (suc h, b'h') ∷ (suc m, b'm') ∷ []
parts_of zero (suc h) (suc m) (suc s) = (suc h, b'h') ∷ (suc m, b'm') ∷ (suc s, b's') ∷ []
parts_of (suc d) zero zero zero = (suc d, b'd') ∷ []
parts_of (suc d) zero zero (suc s) = (suc d, b'd') ∷ (suc s, b's') ∷ []
parts_of (suc d) zero (suc m) zero = (suc d, b'd') ∷ (suc m, b'm') ∷ []
parts_of (suc d) zero (suc m) (suc s) = (suc d, b'd') ∷ (suc m, b'm') ∷ (suc s, b's') ∷ []
parts_of (suc d) (suc h) zero zero = (suc d, b'd') ∷ (suc h, b'h') ∷ []
parts_of (suc d) (suc h) zero (suc s) = (suc d, b'd') ∷ (suc h, b'h') ∷ (suc s, b's') ∷ []
parts_of (suc d) (suc h) (suc m) zero = (suc d, b'd') ∷ (suc h, b'h') ∷ (suc m, b'm') ∷ []
parts_of (suc d) (suc h) (suc m) (suc s) =
    (suc d, b'd') ∷ (suc h, b'h') ∷ (suc m, b'm') ∷ (suc s, b's') ∷ []

duration_parts-parts_of : (d h m s : ℕ) → duration_parts (pos d) h m s ≡ map part (parts_of d h m s)
unfolding duration_parts parts_of
duration_parts-parts_of zero zero zero zero = ground arith
duration_parts-parts_of zero zero zero (suc s) = ground arith
duration_parts-parts_of zero zero (suc m) zero = ground arith
duration_parts-parts_of zero zero (suc m) (suc s) = ground arith
duration_parts-parts_of zero (suc h) zero zero = ground arith
duration_parts-parts_of zero (suc h) zero (suc s) = ground arith
duration_parts-parts_of zero (suc h) (suc m) zero = ground arith
duration_parts-parts_of zero (suc h) (suc m) (suc s) = ground arith
duration_parts-parts_of (suc d) zero zero zero = ground arith
duration_parts-parts_of (suc d) zero zero (suc s) = ground arith
duration_parts-parts_of (suc d) zero (suc m) zero = ground arith
duration_parts-parts_of (suc d) zero (suc m) (suc s) = ground arith
duration_parts-parts_of (suc d) (suc h) zero zero = ground arith
duration_parts-parts_of (suc d) (suc h) zero (suc s) = ground arith
duration_parts-parts_of (suc d) (suc h) (suc m) zero = ground arith
duration_parts-parts_of (suc d) (suc h) (suc m) (suc s) = ground arith

parts_of_units : (d h m s : ℕ) → AreUnits (parts_of d h m s)
unfolding parts_of
parts_of_units zero zero zero zero = omega arith
parts_of_units zero zero zero (suc s) = omega arith
parts_of_units zero zero (suc m) zero = omega arith
parts_of_units zero zero (suc m) (suc s) = omega arith
parts_of_units zero (suc h) zero zero = omega arith
parts_of_units zero (suc h) zero (suc s) = omega arith
parts_of_units zero (suc h) (suc m) zero = omega arith
parts_of_units zero (suc h) (suc m) (suc s) = omega arith
parts_of_units (suc d) zero zero zero = omega arith
parts_of_units (suc d) zero zero (suc s) = omega arith
parts_of_units (suc d) zero (suc m) zero = omega arith
parts_of_units (suc d) zero (suc m) (suc s) = omega arith
parts_of_units (suc d) (suc h) zero zero = omega arith
parts_of_units (suc d) (suc h) zero (suc s) = omega arith
parts_of_units (suc d) (suc h) (suc m) zero = omega arith
parts_of_units (suc d) (suc h) (suc m) (suc s) = omega arith

part_seconds-parts_of :
    (d h m s : ℕ) → part_seconds (parts_of d h m s) ≡ d * 86400 + h * 3600 + m * 60 + s
unfolding parts_of
part_seconds-parts_of zero zero zero zero = omega arith
part_seconds-parts_of zero zero zero (suc s) = omega arith
part_seconds-parts_of zero zero (suc m) zero = omega arith
part_seconds-parts_of zero zero (suc m) (suc s) = omega arith
part_seconds-parts_of zero (suc h) zero zero = omega arith
part_seconds-parts_of zero (suc h) zero (suc s) = omega arith
part_seconds-parts_of zero (suc h) (suc m) zero = omega arith
part_seconds-parts_of zero (suc h) (suc m) (suc s) = omega arith
part_seconds-parts_of (suc d) zero zero zero = omega arith
part_seconds-parts_of (suc d) zero zero (suc s) = omega arith
part_seconds-parts_of (suc d) zero (suc m) zero = omega arith
part_seconds-parts_of (suc d) zero (suc m) (suc s) = omega arith
part_seconds-parts_of (suc d) (suc h) zero zero = omega arith
part_seconds-parts_of (suc d) (suc h) zero (suc s) = omega arith
part_seconds-parts_of (suc d) (suc h) (suc m) zero = omega arith
part_seconds-parts_of (suc d) (suc h) (suc m) (suc s) = omega arith

read_parts :
    (d h m s : ℕ)
    → read_duration (join (codes " ") (duration_parts (pos d) h m s))
      ≡ d * 86400 + h * 3600 + m * 60 + s
unfolding read_duration
read_parts d h m s = rw (duration_parts-parts_of d h m s) (
    ap (λ p. p.0) (scan-join 0 (parts_of d h m s) (parts_of_units d h m s))
    ∙ omega (arith, part_seconds-parts_of d h m s))

-- For a difference that is not negative, the formatted text, read back unit by unit, gives its whole
-- seconds: nothing but the fraction of a second is lost.
pub read_duration-format_duration :
    (micros : ℕ) → read_duration (format_duration (pos micros)) ≡ micros / 1000000
unfolding format_duration
read_duration-format_duration micros =
    let n = micros / 1000000 in
    read_parts (n / 86400) (n % 86400 / 3600) (n % 86400 % 3600 / 60) (n % 86400 % 3600 % 60)
    ∙ omega arith
