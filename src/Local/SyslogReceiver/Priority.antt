-- ===== src/Local/SyslogReceiver/Priority.antt =====
-- The priority of a message in local/syslog_receiver.py: the only part whose reading may raise.
use mathlib.Core.Path.{subst}
use mathlib.Core.Option
use wan_router_notifications.Common.{
  ℕ, ◌≡◌, refl, sym, ap, ◌∙◌, ◌↔◌, ◌<◌, ◌+◌, ◌*◌, Bool, true, false, List, [], ◌∷◌, Option, none,
  some, arith, length, ltb, Bool-cases, Option-cases, inl, inr,
}
use wan_router_notifications.Common.Result.{Result, returned, raised, ◌>>=◌}
use wan_router_notifications.Common.Text.{Text}
use wan_router_notifications.Common.Regex.{CharClass, Item, match_at}
use wan_router_notifications.Common.Regex.Decides.{AllIn, FitsPlus, FitsItem, Fits, match_at-Fits}
use wan_router_notifications.Shared.Clock.{Instant}
use wan_router_notifications.Local.SyslogReceiver.Patterns.{
  Unicode, is_digit, Groups, piece, groups, syslog_pattern, match_syslog,
}
use wan_router_notifications.Local.SyslogReceiver.Strings.{strip, digits_value, int_of}
use wan_router_notifications.Local.SyslogReceiver.{event_of, parse_syslog_message}

-- the second item of a pattern has the second piece
abbrev SecondFits : List Item → List Text → Type 0
SecondFits (i ∷ j ∷ is) ps = FitsItem j (piece 1 ps)
SecondFits _ ps = Unit {0}

Fits-SecondFits : (is : List Item) (ps : List Text) (s : Text) → Fits is ps s → SecondFits is ps
Fits-SecondFits [] ps s h = tt
Fits-SecondFits (i ∷ []) ps s h = tt
Fits-SecondFits (i ∷ j ∷ is) [] s h = elim h [ ]
Fits-SecondFits (i ∷ j ∷ is) (p ∷ []) s (h, (rest, e, fits)) = elim fits [ ]
Fits-SecondFits (i ∷ j ∷ is) (p ∷ q ∷ qs) s (h, (rest, e, fits)) = fits.0

false-true : ¬ (◌≡◌ {A = Bool} false true)
false-true e = cc

none-some : {A : Type 0} (a : A) → ¬ (◌≡◌ {A = Option A} none (some a))
none-some a e = cc

returned-raised : {A : Type 0} (a : A) → ¬ (◌≡◌ {A = Result A} (returned a) raised)
returned-raised a e = cc

digits_value-some :
    (u : Unicode) (acc : ℕ) (s : Text)
    → AllIn (is_digit u) s
    → (v : ℕ) × (digits_value u acc s ≡ some v)
unfolding digits_value
digits_value-some u acc [] h = (acc, refl)
digits_value-some u acc (c ∷ s) h = elim (Option-cases (u.digit_value c)) [
  | inl miss ↦
      elim (false-true (sym (ap (λ o. elim o [ none ↦ false | some v ↦ true ]) miss) ∙ h.0)) [ ]
  | inr (v, hit) ↦ rw (hit, digits_value) (digits_value-some u (acc * 10 + v) s h.1)
]

FitsPlus-AllIn : (cls : CharClass) (s : Text) → FitsPlus cls s → AllIn cls s
FitsPlus-AllIn cls [] h = elim h [ ]
FitsPlus-AllIn cls (c ∷ s) h = h

match_syslog-digits :
    (u : Unicode) (s : Text) (g : Groups)
    → match_syslog u s ≡ some g
    → AllIn (is_digit u) g.priority
unfolding match_syslog syslog_pattern groups
match_syslog-digits u s g e = elim (Option-cases (match_at (syslog_pattern u) s)) [
  | inl miss ↦ elim (none-some g (sym (ap (Option.map groups) miss) ∙ e)) [ ]
  | inr (ps, hit) ↦
      let fits = match_at-Fits (syslog_pattern u) s ps hit in
      let same = Option.some-injective (groups ps) g (sym (ap (Option.map groups) hit) ∙ e) in
      subst (λ q. AllIn (is_digit u) q.priority) same
        (FitsPlus-AllIn (is_digit u) (piece 1 ps) (Fits-SecondFits (syslog_pattern u) ps s fits))
]

int_of-raised_iff :
    (u : Unicode) (s : Text) → AllIn (is_digit u) s → (int_of u s ≡ raised) ↔ (4300 < length s)
unfolding int_of
int_of-raised_iff u s h =
    let (v, e) = digits_value-some u 0 s h in
    elim (Bool-cases (ltb 4300 (length s))) [
      | inl long ↦ rw long (λ r. ground arith, λ l. refl)
      | inr short ↦
          rw (short, e)
            (λ r. elim (returned-raised v r) [ ], λ l. elim (false-true (ground arith)) [ ])
    ]

-- For every text and instants: the parser raises exactly where the stripped text matches and its
-- priority has more than 4300 digits.
pub parse_raises_iff :
    (u : Unicode) (now again : Instant) (raw : Text)
    → (parse_syslog_message u now again raw ≡ raised)
      ↔ ((g : Groups) × ((match_syslog u (strip u raw) ≡ some g) × (4300 < length g.priority)))
unfolding parse_syslog_message
parse_raises_iff u now again raw = elim (Option-cases (match_syslog u (strip u raw))) [
  | inl miss ↦
      rw miss (λ r. elim (returned-raised none r) [ ], λ (g, (e, long)). elim (none-some g e) [ ])
  | inr (g, hit) ↦
      rw hit (matched g (match_syslog-digits u (strip u raw) g hit) (int_of u g.priority) refl)
]
  where
    matched :
        (g : Groups)
        → AllIn (is_digit u) g.priority
        → (r : Result ℕ) → int_of u g.priority ≡ r
        → (r >>= (λ pri. returned (some (event_of u now again raw g pri))) ≡ raised)
          ↔ ((f : Groups) × ((some g ≡ some f) × (4300 < length f.priority)))
    matched g digits (returned pri) e = (
      λ r. elim (returned-raised _ r) [ ],
      λ (f, (same, long)).
          elim (returned-raised pri (
            sym e
            ∙ (int_of-raised_iff u g.priority digits).1 (
                subst (λ q. 4300 < length q.priority) (sym (Option.some-injective g f same))
                  long))) [ ],
    )
    matched g digits raised e =
        (λ r. (g, (refl, (int_of-raised_iff u g.priority digits).0 e)), λ y. refl)
