-- ===== src/Local/AlertEngine/Failover.antt =====
-- The failover target that a DOWN alert names.
use wan_router_notifications.Common.{
  ◌≡◌, refl, ◌≢◌, inl, inr, ap, true, false, not, ◌&&◌, [], ◌∷◌, ◌++◌, Option, none, some, arith,
  Bool-cases,
}
use wan_router_notifications.Common.Text.{Text, text_eq, text_eq_iff}
use wan_router_notifications.Common.Dict.{Dict}
use wan_router_notifications.Shared.Models.{WanState, up, status_eq}
use wan_router_notifications.Local.AlertEngine.Messages.{first_other_up}

-- Another interface than `i`, which is up.
abbrev pub IsTarget : Text → Text × WanState → Type 0
IsTarget i (name, s) = (s.status ≡ up) × (name ≢ i)

abbrev pub NoTarget : Text → Dict WanState → Type 0
NoTarget i [] = Unit {0}
NoTarget i (entry ∷ d) = ¬ (IsTarget i entry) × NoTarget i d

-- The search answers `none` exactly where no other interface is up, and otherwise with the first
-- other interface that is up, in the order of the dictionary.
abbrev pub FirstTarget : Text → Dict WanState → Option Text → Type 0
FirstTarget i d none = NoTarget i d
FirstTarget i d (some name) =
    (front : Dict WanState) × (s : WanState) × (rest : Dict WanState) × (d
      ≡ front ++ (name, s) ∷ rest)
    × NoTarget i front
    × IsTarget i (name, s)

extend_front :
    (i : Text) (entry : Text × WanState) (d : Dict WanState) (o : Option Text)
    → ¬ (IsTarget i entry)
    → FirstTarget i d o
    → FirstTarget i (entry ∷ d) o
extend_front i entry d none h f = (h, f)
extend_front i entry d (some name) h (front, s, rest, e, before, target) =
    (entry ∷ front, s, rest, ap (◌∷◌ entry) e, (h, before), target)

test_IsTarget :
    (i name : Text) (s : WanState)
    → (status_eq s.status up && not (text_eq name i)) ≡ true
    → IsTarget i (name, s)
test_IsTarget i name s h = (ground arith, ground (arith, text_eq_iff name i))

test_not-IsTarget :
    (i name : Text) (s : WanState)
    → (status_eq s.status up && not (text_eq name i)) ≡ false
    → ¬ (IsTarget i (name, s))
test_not-IsTarget i name s h t = ground (arith, t.0, t.1, text_eq_iff name i)

-- The failover target of a DOWN alert is the first other interface that is up; the alert names none
-- only if no other interface is up.
first_other_up_lem : (i : Text) (d : Dict WanState) → FirstTarget i d (first_other_up i d)
unfolding first_other_up
first_other_up_lem i [] = tt
first_other_up_lem i ((name, s) ∷ d) =
    elim (Bool-cases (status_eq s.status up && not (text_eq name i))) [
      | inl hit ↦ rw hit ([], s, d, refl, tt, test_IsTarget i name s hit)
      | inr miss ↦ rw miss (
          extend_front i (name, s) d (first_other_up i d) (test_not-IsTarget i name s miss)
            (first_other_up_lem i d))
    ]
