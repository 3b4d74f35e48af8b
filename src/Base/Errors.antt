-- ===== src/Base/Errors.antt =====
-- Calls that may raise: a value, or an exception of Python, whose kind no caller looks at.

pub data Result {ℓ} (A : Type ℓ) : Type ℓ where
  ok : A → Result A
  raise : Result A

infixl 5 ◌>>=◌
abbrev pub ◌>>=◌ {ℓ κ} : {A : Type ℓ} {B : Type κ} → Result A → (A → Result B) → Result B
ok a >>= f = f a
raise >>= f = raise
