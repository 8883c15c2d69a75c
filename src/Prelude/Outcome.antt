-- ===== src/Prelude/Outcome.antt =====
-- What a call of JavaScript code comes to: it returns, throws, or uses up the fuel of the model.
pub data Outcome {ℓ} (A : Type ℓ) : Type ℓ where
  returns : A → Outcome A
  throws : Outcome A
  out_of_fuel : Outcome A

infixl 5 ◌>>=◌
abbrev pub ◌>>=◌ {ℓ κ} : {A : Type ℓ} {B : Type κ} → Outcome A → (A → Outcome B) → Outcome B
returns a >>= f = f a
throws >>= f = throws
out_of_fuel >>= f = out_of_fuel

-- The run ends, with a result or an exception.
abbrev pub Ends {ℓ} : {A : Type ℓ} → Outcome A → Type 0
Ends (returns a) = Unit
Ends throws = Unit
Ends out_of_fuel = ⊥

pub bind-Ends {ℓ κ} :
    {A : Type ℓ} {B : Type κ} (o : Outcome A) (f : A → Outcome B)
    → Ends o
    → ((a : A) → Ends (f a))
    → Ends (o >>= f)
bind-Ends (returns a) f h each = each a
bind-Ends throws f h each = tt
bind-Ends out_of_fuel f h each = absurd h
