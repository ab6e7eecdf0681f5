-- ===== src/Common/Result.antt =====
-- What a call that may raise gives: a value or an exception. The handlers of the program catch
-- every exception alike (`except Exception`), so one constructor stands for all of them.
use mathlib.Core.Path.{◌≡◌, refl, ap}

pub data Result {ℓ} (A : Type ℓ) : Type ℓ where
  returned : A → Result A
  raised : Result A

infixl 5 ◌>>=◌
abbrev pub ◌>>=◌ {ℓ κ} : {A : Type ℓ} {B : Type κ} → Result A → (A → Result B) → Result B
returned a >>= f = f a
raised >>= f = raised

abbrev value_or {ℓ} : {A : Type ℓ} → A → Result A → A
value_or a (returned b) = b
value_or a raised = a

pub returned-injective {ℓ} : {A : Type ℓ} (a b : A) → returned a ≡ returned b → a ≡ b
returned-injective a b e = ap (value_or a) e

-- a chain that returns has returned at each of its calls
pub bind-returned {ℓ κ} :
    {A : Type ℓ} {B : Type κ} (r : Result A) (f : A → Result B) (b : B)
    → (r >>= f) ≡ returned b
    → (a : A) × ((r ≡ returned a) × (f a ≡ returned b))
bind-returned (returned a) f b e = (a, (refl, e))
bind-returned raised f b e = cc
