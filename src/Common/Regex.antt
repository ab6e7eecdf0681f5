-- ===== src/Common/Regex.antt =====
-- The part of Python's `re` that the program uses: a pattern is a row of items, each a choice of
-- fixed rows of characters or a repetition of one class of characters, and is matched by
-- backtracking. A match gives the piece of the text that each item took; a group is one piece or
-- several in a row.
pub mod Decides
pub mod Complete
mod Tests
use wan_router_notifications.Common.{
  ℕ, ◌+◌, length, Bool, true, false, List, [], ◌∷◌, ◌++◌, Option, none, some, if◌then◌else◌, ◌==◌,
  map,
}
use wan_router_notifications.Common.Text.{Text}

abbrev pub CharClass : Type 0
CharClass = ℕ → Bool

pub data Item : Type 0 where
  choice : List (List CharClass) → Item
  greedy_star : CharClass → Item
  greedy_plus : CharClass → Item
  lazy_plus : CharClass → Item

-- A text that stands for itself.
abbrev pub literal : Text → List CharClass
literal [] = []
literal (c ∷ cs) = (λ d. d == c) ∷ literal cs

abbrev pub exactly : Text → Item
exactly t = choice (literal t ∷ [])

-- What a row of classes takes from the front of a text, and the rest.
unfoldable pub take_row : List CharClass → Text → Option (Text × Text)
take_row [] s = some ([], s)
take_row (cls ∷ row) [] = none
take_row (cls ∷ row) (c ∷ s) =
    let rest = take_row row s in
    if cls c then elim rest [ none ↦ none | some (t, u) ↦ some (c ∷ t, u) ] else none

abbrev pub Pieces : Type 0
Pieces = Option (Text × List Text)

-- the item took one character more
abbrev pub longer : ℕ → Pieces → Pieces
longer c none = none
longer c (some (p, ps)) = some (c ∷ p, ps)

-- the item took nothing more
abbrev pub shut : Option (List Text) → Pieces
shut none = none
shut (some ps) = some ([], ps)

-- the item took this row
abbrev pub with_piece : Text → Option (List Text) → Pieces
with_piece t none = none
with_piece t (some ps) = some (t, ps)

abbrev pub or_else : Pieces → Pieces → Pieces
or_else none other = other
or_else (some r) other = some r

-- The rest of the pattern, `k`, is tried after each choice of the item, in the order of `re`.
module _ (k : Text → Option (List Text)) where
  abbrev pub after_row : Option (Text × Text) → Pieces
  after_row none = none
  after_row (some (t, u)) = with_piece t (k u)

  pub match_choice : List (List CharClass) → Text → Pieces
  match_choice [] s = none
  match_choice (row ∷ rows) s = or_else (after_row (take_row row s)) (match_choice rows s)

  pub match_greedy : CharClass → Text → Pieces
  match_greedy cls [] = shut (k [])
  match_greedy cls (c ∷ s) =
      let more = match_greedy cls s in
      if cls c then or_else (longer c more) (shut (k (c ∷ s))) else shut (k (c ∷ s))

  pub match_lazy : CharClass → Text → Pieces
  match_lazy cls [] = shut (k [])
  match_lazy cls (c ∷ s) =
      let more = match_lazy cls s in
      or_else (shut (k (c ∷ s))) (if cls c then longer c more else none)

abbrev first_of_class : CharClass → (Text → Pieces) → Text → Pieces
first_of_class cls more [] = none
first_of_class cls more (c ∷ s) = if cls c then longer c (more s) else none

pub match_item : Item → (Text → Option (List Text)) → Text → Pieces
unfolding match_choice match_greedy match_lazy
match_item (choice rows) k s = match_choice k rows s
match_item (greedy_star cls) k s = match_greedy k cls s
match_item (greedy_plus cls) k s = first_of_class cls (match_greedy k cls) s
match_item (lazy_plus cls) k s = first_of_class cls (match_lazy k cls) s

abbrev joined : Pieces → Option (List Text)
joined none = none
joined (some (p, ps)) = some (p ∷ ps)

-- `pattern.match(s)`: the pieces from the start of the text
unfoldable pub match_at : List Item → Text → Option (List Text)
unfolding match_item
match_at [] s = some []
match_at (i ∷ is) s = joined (match_item i (match_at is) s)

abbrev pub or_search : Option (List Text) → Option (List Text) → Option (List Text)
or_search none other = other
or_search (some ps) other = some ps

-- `pattern.search(s)`: those from the first place where it matches
unfoldable pub search_in : List Item → Text → Option (List Text)
search_in is [] = match_at is []
search_in is (c ∷ s) = let later = search_in is s in or_search (match_at is (c ∷ s)) later

-- how much of the text the pieces take
unfoldable pub total_length : List Text → ℕ
total_length [] = 0
total_length (p ∷ ps) = length p + total_length ps
