-- ===== src/Common/Dict.antt =====
-- Python's `dict` with string keys: entries in insertion order; a write to a key that is there
-- keeps its place.
use wan_router_notifications.Common.{
  ◌≡◌, refl, Bool, true, false, List, [], ◌∷◌, Option, none, some, arith, if◌then◌else◌,
}
use wan_router_notifications.Common.Text.{Text, text_eq, text_eq_iff, text_eq_refl}

abbrev pub Dict {ℓ} : Type ℓ → Type ℓ
Dict V = List (Text × V)

module _ {ℓ} {V : Type ℓ} where
  -- `d.get(k)`
  unfoldable pub get : Dict V → Text → Option V
  get [] k = none
  get ((j, v) ∷ d) k = if text_eq j k then some v else get d k

  -- `d[k] = v`
  unfoldable pub set : Dict V → Text → V → Dict V
  set [] k v = (k, v) ∷ []
  set ((j, w) ∷ d) k v = if text_eq j k then (j, v) ∷ d else (j, w) ∷ set d k v

  -- `k in d`
  unfoldable pub contains : Dict V → Text → Bool
  contains [] k = false
  contains ((j, v) ∷ d) k = if text_eq j k then true else contains d k

  abbrev pub keys : Dict V → List Text
  keys [] = []
  keys ((k, v) ∷ d) = k ∷ keys d

  abbrev pub values : Dict V → List V
  values [] = []
  values ((k, v) ∷ d) = v ∷ values d

  pub get-set :
      (d : Dict V) (k j : Text) (v : V)
      → get (set d k v) j ≡ (if text_eq k j then some v else get d j)
  unfolding get set
  get-set [] k j v = refl
  get-set ((i, w) ∷ d) k j v =
      ground (arith, text_eq_iff k j, text_eq_iff i k, text_eq_iff i j, get-set d k j v)

  pub get-set_self : (d : Dict V) (k : Text) (v : V) → get (set d k v) k ≡ some v
  get-set_self d k v = rw (get-set d k k v, text_eq_refl k)

  pub contains-get :
      (d : Dict V) (k : Text) → contains d k ≡ elim (get d k) [ none ↦ false | some v ↦ true ]
  unfolding get contains
  contains-get [] k = refl
  contains-get ((j, v) ∷ d) k = ground (arith, contains-get d k)
