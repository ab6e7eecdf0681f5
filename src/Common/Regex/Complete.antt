-- ===== src/Common/Regex/Complete.antt =====
-- The lemmas from pieces that fit a pattern to a match that is found.
use wan_router_notifications.Common.{
  ℕ, ◌≡◌, refl, inl, inr, List, [], ◌∷◌, ◌++◌, Option, none, some, Bool-cases,
}
use wan_router_notifications.Common.Text.{Text}
use wan_router_notifications.Common.Regex.{
  CharClass, Item, choice, greedy_star, greedy_plus, lazy_plus, take_row, Pieces, longer, shut,
  with_piece, or_else, match_choice, match_greedy, match_lazy, match_item, joined, match_at,
  or_search, search_in,
}
use wan_router_notifications.Common.Regex.Decides.{FitsRow, AllIn, FitsSome, FitsItem, Fits, Occurs}

abbrev pub IsHit {ℓ} : {A : Type ℓ} → Option A → Type 0
IsHit none = ⊥
IsHit (some x) = Unit {0}

or_else_left : (a b : Pieces) → IsHit a → IsHit (or_else a b)
or_else_left none b h = elim h [ ]
or_else_left (some r) b h = tt

or_else_right : (a b : Pieces) → IsHit b → IsHit (or_else a b)
or_else_right none b h = h
or_else_right (some r) b h = tt

longer-IsHit : (c : ℕ) (r : Pieces) → IsHit r → IsHit (longer c r)
longer-IsHit c none h = h
longer-IsHit c (some (p, ps)) h = tt

shut-IsHit : (o : Option (List Text)) → IsHit o → IsHit (shut o)
shut-IsHit none h = h
shut-IsHit (some ps) h = tt

with_piece-IsHit : (t : Text) (o : Option (List Text)) → IsHit o → IsHit (with_piece t o)
with_piece-IsHit t none h = h
with_piece-IsHit t (some ps) h = tt

joined-IsHit : (r : Pieces) → IsHit r → IsHit (joined r)
joined-IsHit none h = h
joined-IsHit (some (p, ps)) h = tt

take_row-fits :
    (row : List CharClass) (p rest : Text)
    → FitsRow row p
    → take_row row (p ++ rest) ≡ some (p, rest)
unfolding take_row
take_row-fits [] [] rest h = refl
take_row-fits [] (c ∷ p) rest h = elim h [ ]
take_row-fits (cls ∷ row) [] rest h = elim h [ ]
take_row-fits (cls ∷ row) (c ∷ p) rest h = rw (h.0, take_row-fits row p rest h.1) refl

module _ (k : Text → Option (List Text)) where
  match_choice-IsHit :
      (rows : List (List CharClass)) (p rest : Text)
      → FitsSome rows p
      → IsHit (k rest)
      → IsHit (match_choice k rows (p ++ rest))
  unfolding match_choice
  match_choice-IsHit [] p rest h hit = elim h [ ]
  match_choice-IsHit (row ∷ rows) p rest (inl h) hit = rw (take_row-fits row p rest h) (
      or_else_left (with_piece p (k rest)) (match_choice k rows (p ++ rest))
        (with_piece-IsHit p (k rest) hit))
  match_choice-IsHit (row ∷ rows) p rest (inr h) hit =
      or_else_right _ (match_choice k rows (p ++ rest)) (match_choice-IsHit rows p rest h hit)

  greedy_stop : (cls : CharClass) (s : Text) → IsHit (k s) → IsHit (match_greedy k cls s)
  unfolding match_greedy
  greedy_stop cls [] hit = shut-IsHit (k []) hit
  greedy_stop cls (c ∷ s) hit =
      let stop = shut-IsHit (k (c ∷ s)) hit in
      elim (Bool-cases (cls c)) [
        | inl inside ↦
            rw inside (or_else_right (longer c (match_greedy k cls s)) (shut (k (c ∷ s))) stop)
        | inr outside ↦ rw outside stop
      ]

  match_greedy-IsHit :
      (cls : CharClass) (p rest : Text)
      → AllIn cls p
      → IsHit (k rest)
      → IsHit (match_greedy k cls (p ++ rest))
  unfolding match_greedy
  match_greedy-IsHit cls [] rest h hit = greedy_stop cls rest hit
  match_greedy-IsHit cls (c ∷ p) rest h hit =
      let more = match_greedy k cls (p ++ rest) in
      rw h.0 (
        or_else_left (longer c more) (shut (k (c ∷ p ++ rest)))
          (longer-IsHit c more (match_greedy-IsHit cls p rest h.1 hit)))

  lazy_stop : (cls : CharClass) (s : Text) → IsHit (k s) → IsHit (match_lazy k cls s)
  unfolding match_lazy
  lazy_stop cls [] hit = shut-IsHit (k []) hit
  lazy_stop cls (c ∷ s) hit = or_else_left (shut (k (c ∷ s))) _ (shut-IsHit (k (c ∷ s)) hit)

  match_lazy-IsHit :
      (cls : CharClass) (p rest : Text)
      → AllIn cls p
      → IsHit (k rest)
      → IsHit (match_lazy k cls (p ++ rest))
  unfolding match_lazy
  match_lazy-IsHit cls [] rest h hit = lazy_stop cls rest hit
  match_lazy-IsHit cls (c ∷ p) rest h hit =
      let more = match_lazy k cls (p ++ rest) in
      rw h.0 (
        or_else_right (shut (k (c ∷ p ++ rest))) (longer c more)
          (longer-IsHit c more (match_lazy-IsHit cls p rest h.1 hit)))

  match_item-IsHit :
      (i : Item) (p rest : Text)
      → FitsItem i p
      → IsHit (k rest)
      → IsHit (match_item i k (p ++ rest))
  unfolding match_item
  match_item-IsHit (choice rows) p rest h hit = match_choice-IsHit rows p rest h hit
  match_item-IsHit (greedy_star cls) p rest h hit = match_greedy-IsHit cls p rest h hit
  match_item-IsHit (greedy_plus cls) [] rest h hit = elim h [ ]
  match_item-IsHit (greedy_plus cls) (c ∷ p) rest h hit =
      rw h.0
        (longer-IsHit c (match_greedy k cls (p ++ rest)) (match_greedy-IsHit cls p rest h.1 hit))
  match_item-IsHit (lazy_plus cls) [] rest h hit = elim h [ ]
  match_item-IsHit (lazy_plus cls) (c ∷ p) rest h hit =
      rw h.0 (longer-IsHit c (match_lazy k cls (p ++ rest)) (match_lazy-IsHit cls p rest h.1 hit))

pub match_at-IsHit :
    (is : List Item) (ps : List Text) (s : Text) → Fits is ps s → IsHit (match_at is s)
unfolding match_at
match_at-IsHit [] ps s h = tt
match_at-IsHit (i ∷ is) [] s h = elim h [ ]
match_at-IsHit (i ∷ is) (p ∷ ps) s (h, (rest, e, fits)) = rw e (
    joined-IsHit (match_item i (match_at is) (p ++ rest))
      (match_item-IsHit (match_at is) i p rest h (match_at-IsHit is ps rest fits)))

or_search_left : (a b : Option (List Text)) → IsHit a → IsHit (or_search a b)
or_search_left none b h = elim h [ ]
or_search_left (some r) b h = tt

or_search_right : (a b : Option (List Text)) → IsHit b → IsHit (or_search a b)
or_search_right none b h = h
or_search_right (some r) b h = tt

search_at_start : (is : List Item) (s : Text) → IsHit (match_at is s) → IsHit (search_in is s)
unfolding search_in
search_at_start is [] h = h
search_at_start is (c ∷ s) h = or_search_left (match_at is (c ∷ s)) (search_in is s) h

search_from :
    (is : List Item) (before s : Text) → IsHit (match_at is s) → IsHit (search_in is (before ++ s))
unfolding search_in
search_from is [] s h = search_at_start is s h
search_from is (c ∷ before) s h =
    or_search_right (match_at is (c ∷ before ++ s)) (search_in is (before ++ s))
      (search_from is before s h)

-- Where pieces that fit stand somewhere in the text, the search finds some.
pub search_in-IsHit :
    (is : List Item) (ps : List Text) (s : Text) → Occurs is ps s → IsHit (search_in is s)
search_in-IsHit is ps s (before, (rest, e, fits)) =
    rw e (search_from is before rest (match_at-IsHit is ps rest fits))
