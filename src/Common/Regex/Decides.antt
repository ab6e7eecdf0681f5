-- ===== src/Common/Regex/Decides.antt =====
-- What a pattern of `re` means in terms of pieces, and the lemmas on what a match gives.
use mathlib.Core.Option
use mathlib.Core.Path.{subst}
use wan_router_notifications.Common.{
  ℕ, ◌≡◌, refl, sym, ap, ◌∙◌, ◌⊎◌, inl, inr, true, List, [], ◌∷◌, ◌++◌, Option, none, some,
  Bool-cases, Option-cases,
}
use wan_router_notifications.Common.Text.{Text}
use wan_router_notifications.Common.Regex.{
  CharClass, Item, choice, greedy_star, greedy_plus, lazy_plus, take_row, Pieces, longer, shut,
  or_else, after_row, match_choice, match_greedy, match_lazy, first_of_class, match_item, joined,
  match_at, or_search, search_in,
}

-- A text fits a row, a repetition, a choice, an item.
abbrev pub FitsRow : List CharClass → Text → Type 0
FitsRow [] [] = Unit {0}
FitsRow (cls ∷ row) (c ∷ t) = (cls c ≡ true) × FitsRow row t
FitsRow _ _ = ⊥

abbrev pub AllIn : CharClass → Text → Type 0
AllIn cls [] = Unit {0}
AllIn cls (c ∷ t) = (cls c ≡ true) × AllIn cls t

abbrev pub FitsSome : List (List CharClass) → Text → Type 0
FitsSome [] t = ⊥
FitsSome (row ∷ rows) t = FitsRow row t ⊎ FitsSome rows t

abbrev pub FitsPlus : CharClass → Text → Type 0
FitsPlus cls [] = ⊥
FitsPlus cls (c ∷ t) = (cls c ≡ true) × AllIn cls t

abbrev pub FitsItem : Item → Text → Type 0
FitsItem (choice rows) t = FitsSome rows t
FitsItem (greedy_star cls) t = AllIn cls t
FitsItem (greedy_plus cls) t = FitsPlus cls t
FitsItem (lazy_plus cls) t = FitsPlus cls t

-- The pieces fit the items one by one, and with some rest make up the text.
abbrev pub Fits : List Item → List Text → Text → Type 0
Fits [] [] s = Unit {0}
Fits (i ∷ is) (p ∷ ps) s = FitsItem i p × ((rest : Text) × (s ≡ p ++ rest) × Fits is ps rest)
Fits _ _ s = ⊥

-- What the rest of the pattern promises of the pieces that it finds.
abbrev pub Sound : (Text → Option (List Text)) → (List Text → Text → Type 0) → Type 0
Sound k Q = (s : Text) (ps : List Text) → k s ≡ some ps → Q ps s

-- An item's result: the piece is of the kind `F`, and the pieces after it satisfy `Q` on the rest.
abbrev Found : (Text → Type 0) → (List Text → Text → Type 0) → Pieces → Text → Type 0
Found F Q none s = Unit {0}
Found F Q (some (p, ps)) s = F p × ((rest : Text) × (s ≡ p ++ rest) × Q ps rest)

-- what a row takes, and what it leaves
abbrev TakenBy : List CharClass → Option (Text × Text) → Text → Type 0
TakenBy row none s = Unit {0}
TakenBy row (some (t, u)) s = FitsRow row t × (s ≡ t ++ u)

take_row-TakenBy : (row : List CharClass) (s : Text) → TakenBy row (take_row row s) s
unfolding take_row
take_row-TakenBy [] s = (tt, refl)
take_row-TakenBy (cls ∷ row) [] = tt
take_row-TakenBy (cls ∷ row) (c ∷ s) = elim (Bool-cases (cls c)) [
  | inl inside ↦ rw inside (one_more (take_row row s) (take_row-TakenBy row s) inside)
  | inr outside ↦ rw outside tt
]
  where
    one_more :
        (o : Option (Text × Text))
        → TakenBy row o s
        → cls c ≡ true
        → TakenBy (cls ∷ row) (elim o [ none ↦ none | some (t, u) ↦ some (c ∷ t, u) ]) (c ∷ s)
    one_more none h e = tt
    one_more (some (t, u)) h e = ((e, h.0), ap (◌∷◌ c) h.1)

module _ (k : Text → Option (List Text)) (Q : List Text → Text → Type 0) (sound : Sound k Q) where
  shut-Found : (F : Text → Type 0) (s : Text) → F [] → Found F Q (shut (k s)) s
  shut-Found F s f = elim (Option-cases (k s)) [
    | inl miss ↦ rw miss tt
    | inr (ps, hit) ↦ rw hit (f, (s, refl, sound s ps hit))
  ]

  longer-Found :
      (F G : Text → Type 0) (c : ℕ) (r : Pieces) (s : Text)
      → ((p : Text) → F p → G (c ∷ p))
      → Found F Q r s
      → Found G Q (longer c r) (c ∷ s)
  longer-Found F G c none s f h = tt
  longer-Found F G c (some (p, ps)) s f h = (f p h.0, (h.1.0, ap (◌∷◌ c) h.1.1, h.1.2))

  or_else-Found :
      (F : Text → Type 0) (a b : Pieces) (s : Text)
      → Found F Q a s
      → Found F Q b s
      → Found F Q (or_else a b) s
  or_else-Found F none b s h g = g
  or_else-Found F (some r) b s h g = h

  match_greedy-Found : (cls : CharClass) (s : Text) → Found (AllIn cls) Q (match_greedy k cls s) s
  unfolding match_greedy
  match_greedy-Found cls [] = shut-Found (AllIn cls) [] tt
  match_greedy-Found cls (c ∷ s) =
      let stop = shut-Found (AllIn cls) (c ∷ s) tt in
      let more = match_greedy-Found cls s in
      elim (Bool-cases (cls c)) [
        | inl inside ↦ rw inside (
            or_else-Found (AllIn cls) (longer c (match_greedy k cls s)) (shut (k (c ∷ s))) (c ∷ s)
              (longer-Found (AllIn cls) (AllIn cls) c (match_greedy k cls s) s (λ p h. (inside, h))
                more)
              stop)
        | inr outside ↦ rw outside stop
      ]

  match_lazy-Found : (cls : CharClass) (s : Text) → Found (AllIn cls) Q (match_lazy k cls s) s
  unfolding match_lazy
  match_lazy-Found cls [] = shut-Found (AllIn cls) [] tt
  match_lazy-Found cls (c ∷ s) =
      let stop = shut-Found (AllIn cls) (c ∷ s) tt in
      let more = match_lazy-Found cls s in
      elim (Bool-cases (cls c)) [
        | inl inside ↦ rw inside (
            or_else-Found (AllIn cls) (shut (k (c ∷ s))) (longer c (match_lazy k cls s)) (c ∷ s)
              stop
              (longer-Found (AllIn cls) (AllIn cls) c (match_lazy k cls s) s (λ p h. (inside, h))
                more))
        | inr outside ↦
            rw outside (or_else-Found (AllIn cls) (shut (k (c ∷ s))) none (c ∷ s) stop tt)
      ]

  first_of_class-Found :
      (cls : CharClass) (more : Text → Pieces) (s : Text)
      → ((t : Text) → Found (AllIn cls) Q (more t) t)
      → Found (FitsPlus cls) Q (first_of_class cls more s) s
  first_of_class-Found cls more [] h = tt
  first_of_class-Found cls more (c ∷ s) h = elim (Bool-cases (cls c)) [
    | inl inside ↦
        rw inside (longer-Found (AllIn cls) (FitsPlus cls) c (more s) s (λ p f. (inside, f)) (h s))
    | inr outside ↦ rw outside tt
  ]

  after_row-Found :
      (row : List CharClass) (s : Text) (o : Option (Text × Text))
      → TakenBy row o s
      → Found (FitsRow row) Q (after_row k o) s
  after_row-Found row s none h = tt
  after_row-Found row s (some (t, u)) h = elim (Option-cases (k u)) [
    | inl miss ↦ rw miss tt
    | inr (ps, hit) ↦ rw hit (h.0, (u, h.1, sound u ps hit))
  ]

  weaken :
      (F G : Text → Type 0) (r : Pieces) (s : Text)
      → ((p : Text) → F p → G p)
      → Found F Q r s
      → Found G Q r s
  weaken F G none s f h = tt
  weaken F G (some (p, ps)) s f h = (f p h.0, h.1)

  match_choice-Found :
      (rows : List (List CharClass)) (s : Text) → Found (FitsSome rows) Q (match_choice k rows s) s
  unfolding match_choice
  match_choice-Found [] s = tt
  match_choice-Found (row ∷ rows) s =
      or_else-Found (FitsSome (row ∷ rows)) (after_row k (take_row row s)) (match_choice k rows s) s
        (weaken (FitsRow row) (FitsSome (row ∷ rows)) (after_row k (take_row row s)) s
          (λ p f. inl f) (after_row-Found row s (take_row row s) (take_row-TakenBy row s)))
        (weaken (FitsSome rows) (FitsSome (row ∷ rows)) (match_choice k rows s) s (λ p f. inr f)
          (match_choice-Found rows s))

  match_item-Found : (i : Item) (s : Text) → Found (FitsItem i) Q (match_item i k s) s
  unfolding match_item
  match_item-Found (choice rows) s = match_choice-Found rows s
  match_item-Found (greedy_star cls) s = match_greedy-Found cls s
  match_item-Found (greedy_plus cls) s =
      first_of_class-Found cls (match_greedy k cls) s (match_greedy-Found cls)
  match_item-Found (lazy_plus cls) s =
      first_of_class-Found cls (match_lazy k cls) s (match_lazy-Found cls)

joined-Fits :
    (i : Item) (is : List Item) (r : Pieces) (s : Text) (qs : List Text)
    → Found (FitsItem i) (Fits is) r s
    → joined r ≡ some qs
    → Fits (i ∷ is) qs s
joined-Fits i is none s qs h e = cc
joined-Fits i is (some (p, ps)) s qs h e =
    subst (λ q. Fits (i ∷ is) q s) (Option.some-injective (p ∷ ps) qs e) h

-- What the matcher finds are pieces that fit the items and begin the text.
pub match_at-Fits : (is : List Item) → Sound (match_at is) (Fits is)
unfolding match_at
match_at-Fits [] s ps e = subst (λ q. Fits [] q s) (Option.some-injective [] ps e) tt
match_at-Fits (i ∷ is) s ps e =
    joined-Fits i is (match_item i (match_at is) s) s ps
      (match_item-Found (match_at is) (Fits is) (match_at-Fits is) i s) e

-- The pieces stand somewhere in the text.
abbrev pub Occurs : List Item → List Text → Text → Type 0
Occurs is ps s = (before : Text) × ((rest : Text) × (s ≡ before ++ rest) × Fits is ps rest)

later-Occurs :
    (is : List Item) (ps : List Text) (c : ℕ) (s : Text) → Occurs is ps s → Occurs is ps (c ∷ s)
later-Occurs is ps c s (before, (rest, e, fits)) = (c ∷ before, (rest, ap (◌∷◌ c) e, fits))

pub search_in-Occurs : (is : List Item) → Sound (search_in is) (Occurs is)
unfolding search_in
search_in-Occurs is [] ps e = ([], ([], refl, match_at-Fits is [] ps e))
search_in-Occurs is (c ∷ s) ps e = elim (Option-cases (match_at is (c ∷ s))) [
  | inl miss ↦
      later-Occurs is ps c s
        (search_in-Occurs is s ps (ap (λ o. or_search o (search_in is s)) (sym miss) ∙ e))
  | inr (qs, hit) ↦ (
    [],
    (
      c ∷ s,
      refl,
      match_at-Fits is (c ∷ s) ps (hit ∙ (ap (λ o. or_search o (search_in is s)) (sym hit) ∙ e)),
    ),
  )
]
