-- ===== src/Prelude/Results.antt =====
-- Computations that may raise: the value, or the exception.
pub data Result (E A : Type 0) : Type 0 where
  ok : A → Result E A
  raise : E → Result E A

-- `abbrev`, so that `ok a >>= f` computes wherever it stands.
infixl 5 ◌>>=◌
abbrev pub ◌>>=◌ : {E A B : Type 0} → Result E A → (A → Result E B) → Result E B
ok a >>= f = f a
raise e >>= f = raise e
