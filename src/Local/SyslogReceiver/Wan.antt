-- ===== src/Local/SyslogReceiver/Wan.antt =====
-- What the WAN patterns of local/syslog_receiver.py and the alert engine make of a message.
use mathlib.Core.Path.{subst}
use wan_router_notifications.Common.{
  ◌≡◌, refl, ap, ◌↔◌, ◌⊎◌, inl, inr, false, List, [], ◌∷◌, Option, none, some, arith, Bool-cases,
  Option-cases,
}
use wan_router_notifications.Common.Text.{Text, codes, text_eq, text_eq_refl}
use wan_router_notifications.Common.Regex.{Item, search_in}
use wan_router_notifications.Common.Regex.Decides.{Occurs, search_in-Occurs}
use wan_router_notifications.Common.Regex.Complete.{IsHit, search_in-IsHit}
use wan_router_notifications.Local.SyslogReceiver.Patterns.{Unicode, wan_patterns}
use wan_router_notifications.Local.SyslogReceiver.Categories.{
  any_in, auth_keywords, firewall_keywords, vpn_keywords, system_keywords, first_wan,
  keyword_category, categorize_message,
}

-- A pattern stands somewhere in a message; one of several does.
abbrev pub InText : List Item → Text → Type 0
InText is m = (ps : List Text) × Occurs is ps m

abbrev pub InSome : List (List Item × Text) → Text → Type 0
InSome [] m = ⊥
InSome ((is, event_type) ∷ others) m = InText is m ⊎ InSome others m

missed : (is : List Item) (m : Text) → search_in is m ≡ none → ¬ InText is m
missed is m e (ps, h) = subst (λ o. IsHit o) e (search_in-IsHit is ps m h)

pub search-cases :
    (is : List Item) (m : Text)
    → ((search_in is m ≡ none) × ¬ InText is m)
      ⊎ ((ps : List Text) × ((search_in is m ≡ some ps) × InText is m))
search-cases is m = elim (Option-cases (search_in is m)) [
  | inl miss ↦ inl (miss, missed is m miss)
  | inr (ps, hit) ↦ inr (ps, (hit, (ps, search_in-Occurs is m ps hit)))
]

abbrev Decided : Option (Text × Text) → Type 0 → Type 0
Decided none P = ¬ P
Decided (some r) P = P

first_wan-Decided :
    (patterns : List (List Item × Text)) (m : Text)
    → Decided (first_wan patterns m) (InSome patterns m)
unfolding first_wan
first_wan-Decided [] m = λ h. h
first_wan-Decided ((is, event_type) ∷ others) m = elim (search-cases is m) [
  | inl (miss, absent) ↦ rw miss (neither (first_wan others m) (first_wan-Decided others m) absent)
  | inr (ps, (hit, present)) ↦ rw hit (inl present)
]
  where
    neither :
        (o : Option (Text × Text))
        → Decided o (InSome others m)
        → ¬ InText is m
        → Decided o (InText is m ⊎ InSome others m)
    neither none h absent = λ y. elim y [ inl a ↦ absent a | inr b ↦ h b ]
    neither (some r) h absent = inr h

pub keyword_category-not_wan : (t : Text) → text_eq (keyword_category t) (codes "wan") ≡ false
unfolding keyword_category text_eq
keyword_category-not_wan t = elim (Bool-cases (any_in auth_keywords t)) [
  | inl a ↦ rw a refl
  | inr a ↦ rw a (elim (Bool-cases (any_in firewall_keywords t)) [
    | inl f ↦ rw f refl
    | inr f ↦ rw f (elim (Bool-cases (any_in vpn_keywords t)) [
      | inl v ↦ rw v refl
      | inr v ↦
          rw v
            (elim (Bool-cases (any_in system_keywords t)) [ inl s ↦ rw s refl | inr s ↦ rw s refl ])
    ])
  ])
]

not_wan : (t : Text) → ¬ (keyword_category t ≡ codes "wan")
not_wan t e = ground (
  arith,
  ap (λ c. text_eq c (codes "wan")) e,
  keyword_category-not_wan t,
  text_eq_refl (codes "wan"),
)

-- For every message: its category is `wan` exactly where one of the four WAN patterns stands
-- somewhere in it.
wan_iff :
    (u : Unicode) (m : Text) → ((categorize_message u m).0 ≡ codes "wan") ↔ InSome wan_patterns m
unfolding categorize_message
wan_iff u m =
    let P = InSome wan_patterns m in
    let decided = first_wan-Decided wan_patterns m in
    elim (Option-cases (first_wan wan_patterns m)) [
      | inl miss ↦
          let absent : ¬ P = subst (λ o. Decided o P) miss decided in
          rw miss (λ e. elim (not_wan (u.lower m) e) [ ], λ y. elim (absent y) [ ])
      | inr ((t, i), hit) ↦
          let present : P = subst (λ o. Decided o P) hit decided in rw hit (λ e. present, λ y. refl)
    ]
