-- ===== src/Common/Lists.antt =====
-- Lists measured by native numbers, under the library's names, and Python's slice `xs[-n:]`.
use Prim.Native.Nat.{ℕ, zero, suc, ◌+◌, ◌-◌, ◌≤◌, min}
use mathlib.Core.Path.{◌≡◌, refl, ap}
use mathlib.Core.List.{List, [], ◌∷◌, ◌++◌}
use native.Mathlib.Omega.{arith}

module _ {ℓ} {A : Type ℓ} where
  abbrev pub length : List A → ℕ
  length [] = 0
  length (x ∷ xs) = suc (length xs)

  abbrev pub drop : ℕ → List A → List A
  drop zero xs = xs
  drop (suc n) [] = []
  drop (suc n) (x ∷ xs) = drop n xs

  abbrev pub replicate : ℕ → A → List A
  replicate zero a = []
  replicate (suc n) a = a ∷ replicate n a

  pub length-append : (xs ys : List A) → length (xs ++ ys) ≡ length xs + length ys
  length-append [] ys = omega arith
  length-append (x ∷ xs) ys = omega (arith, length-append xs ys)

  pub length-drop : (n : ℕ) (xs : List A) → length (drop n xs) ≡ length xs - n
  length-drop zero xs = omega arith
  length-drop (suc n) [] = omega arith
  length-drop (suc n) (x ∷ xs) = omega (arith, length-drop n xs)

module _ {ℓ} {A : Type ℓ} where
  -- `xs[-n:]`: the last `n` items, or all of them where there are fewer
  unfoldable pub last_items : ℕ → List A → List A
  last_items n xs = drop (length xs - n) xs

  drop-append : (xs ys : List A) → drop (length xs) (xs ++ ys) ≡ ys
  drop-append [] ys = refl
  drop-append (x ∷ xs) ys = drop-append xs ys

  pub last_items-append : (n : ℕ) (xs ys : List A) → length ys ≡ n → last_items n (xs ++ ys) ≡ ys
  unfolding last_items
  last_items-append n xs ys e =
      let k : length (xs ++ ys) - n ≡ length xs = omega (arith, length-append xs ys) in
      rw k (drop-append xs ys)

  pub last_items_all : (n : ℕ) (xs : List A) → length xs ≤ n → last_items n xs ≡ xs
  unfolding last_items
  last_items_all n xs h = let k : length xs - n ≡ 0 = omega arith in rw k refl

  pub length-last_items : (n : ℕ) (xs : List A) → length (last_items n xs) ≡ min n (length xs)
  unfolding last_items
  length-last_items n xs = omega (arith, length-drop (length xs - n) xs)

  take-drop : (n : ℕ) (xs : List A) → (front : List A) × (front ++ drop n xs ≡ xs)
  take-drop zero xs = ([], refl)
  take-drop (suc n) [] = ([], refl)
  take-drop (suc n) (x ∷ xs) = let (front, e) = take-drop n xs in (x ∷ front, ap (◌∷◌ x) e)

  -- what `last_items` drops stands in front
  pub last_items_suffix : (n : ℕ) (xs : List A) → (front : List A) × (front ++ last_items n xs ≡ xs)
  unfolding last_items
  last_items_suffix n xs = take-drop (length xs - n) xs
