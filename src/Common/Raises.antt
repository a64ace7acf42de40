-- ===== src/Common/Raises.antt =====
-- The outcome of a function that raises: its value, or the text of the exception.
use Prim.Native.String.{String}
use mathlib.Core.Path.{◌≡◌, refl, ap}
use mathlib.Core.Logic.{◌⊎◌, inl, inr}

pub data Checked {ℓ} (A : Type ℓ) : Type ℓ where
  ok : A → Checked A
  err : String → Checked A

-- `abbrev`, so that `ok a >>= f` computes.
infixl 5 ◌>>=◌
abbrev pub ◌>>=◌ {ℓ κ} : {A : Type ℓ} {B : Type κ} → Checked A → (A → Checked B) → Checked B
Checked.ok a >>= f = f a
Checked.err e >>= f = Checked.err e

-- What a successful bind went through.
pub bind_ok {ℓ κ} :
    {A : Type ℓ} {B : Type κ} (m : Checked A) (f : A → Checked B) (b : B)
    → (m >>= f) ≡ Checked.ok b
    → (a : A) × (m ≡ Checked.ok a) × (f a ≡ Checked.ok b)
bind_ok (Checked.ok a) f b h = (a, refl, h)
bind_ok (Checked.err e) f b h = cc

abbrev value_or {ℓ} : {A : Type ℓ} → A → Checked A → A
value_or d (Checked.ok a) = a
value_or d (Checked.err e) = d

pub ok_inj {ℓ} : {A : Type ℓ} (a b : A) → Checked.ok a ≡ Checked.ok b → a ≡ b
ok_inj a b h = ap (value_or a) h

-- The outcome of a check: nothing, or its exception.
abbrev pub Passed : Type 0
Passed = Checked (Unit {0})

-- To split on an outcome and keep the equation.
pub Checked-cases {ℓ} :
    {A : Type ℓ} (m : Checked A)
    → ((e : String) × (m ≡ Checked.err e)) ⊎ ((a : A) × (m ≡ Checked.ok a))
Checked-cases (Checked.err e) = inl (e, refl)
Checked-cases (Checked.ok a) = inr (a, refl)
