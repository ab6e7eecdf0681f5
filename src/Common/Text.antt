-- ===== src/Common/Text.antt =====
-- Python's `str` as the list of its code points, and the parts of `str` that the program uses.
use Prim.Native.Char.{code}
use Prim.Native.String.{String}
use wan_router_notifications.Common.{
  ℕ, zero, suc, ◌+◌, ◌-◌, ◌*◌, ◌/◌, ◌%◌, ◌≤◌, ◌<◌, ◌≡◌, refl, ◌↔◌, ◌≢◌, Bool, true, false, ◌&&◌,
  List, [], ◌∷◌, ◌++◌, arith, ◌==◌, ltb, Bool-cases, inl, inr, if◌then◌else◌,
}

abbrev pub Text : Type 0
Text = List ℕ

-- A literal of the source.
abbrev pub codes : String → Text
codes String.[] = []
codes (String.◌∷◌ c s) = code c ∷ codes s

-- `a == b` on two strings
unfoldable pub text_eq : Text → Text → Bool
text_eq [] [] = true
text_eq [] (b ∷ bs) = false
text_eq (a ∷ as') [] = false
text_eq (a ∷ as') (b ∷ bs) = a == b && text_eq as' bs

text_eq→eq : (a b : Text) → text_eq a b ≡ true → a ≡ b
unfolding text_eq
text_eq→eq [] [] h = refl
text_eq→eq [] (b ∷ bs) h = ground arith
text_eq→eq (a ∷ as') [] h = ground arith
text_eq→eq (a ∷ as') (b ∷ bs) h = ground (arith, text_eq→eq as' bs)

pub text_eq_refl : (a : Text) → text_eq a a ≡ true
unfolding text_eq
text_eq_refl [] = refl
text_eq_refl (a ∷ as') = ground (arith, text_eq_refl as')

pub text_eq_iff : (a b : Text) → (text_eq a b ≡ true) ↔ (a ≡ b)
text_eq_iff a b = (text_eq→eq a b, λ e. rw e (text_eq_refl b))

pub text_eq_ne : (a b : Text) → a ≢ b → text_eq a b ≡ false
text_eq_ne a b h = ground (arith, text_eq_iff a b)

-- `s.startswith(p)`, with the prefix first
unfoldable pub starts_with : Text → Text → Bool
starts_with [] s = true
starts_with (a ∷ p) [] = false
starts_with (a ∷ p) (b ∷ s) = a == b && starts_with p s

-- `bool(s)`
unfoldable pub is_truthy : Text → Bool
is_truthy [] = false
is_truthy (c ∷ s) = true

-- `sep.join(parts)`
unfoldable pub join : Text → List Text → Text
join sep [] = []
join sep (t ∷ []) = t
join sep (t ∷ u ∷ us) = t ++ (sep ++ join sep (u ∷ us))

-- `str(n)` for `n` at least 0; the fuel is more than the number of digits
decimal_go : ℕ → ℕ → Text
decimal_go zero n = []
decimal_go (suc f) n =
    let front = decimal_go f (n / 10) in
    if ltb n 10 then (48 + n) ∷ [] else front ++ (48 + n % 10) ∷ []

unfoldable pub decimal : ℕ → Text
unfolding decimal_go
decimal n = decimal_go (suc n) n

-- `f"{n:02d}"` for `n` below 100
unfoldable pub two_digits : ℕ → Text
two_digits n = (48 + n / 10) ∷ (48 + n % 10) ∷ []

-- The number that a row of decimal digits stands for.
abbrev pub read_from : ℕ → Text → ℕ
read_from acc [] = acc
read_from acc (d ∷ ds) = read_from (acc * 10 + (d - 48)) ds

read_from-append : (acc : ℕ) (s t : Text) → read_from acc (s ++ t) ≡ read_from (read_from acc s) t
read_from-append acc [] t = refl
read_from-append acc (d ∷ ds) t = read_from-append (acc * 10 + (d - 48)) ds t

read_from-decimal_go : (f n : ℕ) → n < f → read_from 0 (decimal_go f n) ≡ n
unfolding decimal_go
read_from-decimal_go zero n h = elim h [ ]
read_from-decimal_go (suc f) n h = elim (Bool-cases (ltb n 10)) [
  | inl small ↦ rw small (omega arith)
  | inr large ↦
      rw (large, read_from-append 0 (decimal_go f (n / 10)) ((48 + n % 10) ∷ []))
        (omega (arith, read_from-decimal_go f (n / 10) (ground arith)))
]

-- `str` of a number is read back as that number.
pub read_from-decimal : (n : ℕ) → read_from 0 (decimal n) ≡ n
unfolding decimal
read_from-decimal n = read_from-decimal_go (suc n) n (omega arith)

abbrev pub IsDigits : Text → Type 0
IsDigits [] = Unit {0}
IsDigits (d ∷ ds) = (48 ≤ d) × (d ≤ 57) × IsDigits ds

IsDigits-append : (s t : Text) → IsDigits s → IsDigits t → IsDigits (s ++ t)
IsDigits-append [] t hs ht = ht
IsDigits-append (d ∷ ds) t hs ht = (hs.0, hs.1, IsDigits-append ds t hs.2 ht)

decimal_go-IsDigits : (f n : ℕ) → IsDigits (decimal_go f n)
unfolding decimal_go
decimal_go-IsDigits zero n = tt
decimal_go-IsDigits (suc f) n = elim (Bool-cases (ltb n 10)) [
  | inl small ↦ rw small (omega arith, ground arith, tt)
  | inr large ↦ rw large (
      IsDigits-append (decimal_go f (n / 10)) ((48 + n % 10) ∷ []) (decimal_go-IsDigits f (n / 10))
        (omega arith, omega arith, tt))
]

pub decimal-IsDigits : (n : ℕ) → IsDigits (decimal n)
unfolding decimal
decimal-IsDigits n = decimal_go-IsDigits (suc n) n
