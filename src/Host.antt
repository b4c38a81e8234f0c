-- ===== src/Host.antt =====
-- The agent on a host: agent/internal/kvm. A run ends with a value or an error; `out_of_fuel` stands
-- for a loop of Go that goes on past the rounds that the model gives it.
pub mod Words
pub mod Network
pub mod Storage
pub mod Clone

pub data Run (E A : Type 0) : Type 0 where
  ok : A → Run E A
  err : E → Run E A
  out_of_fuel : Run E A

infixl 5 ◌>>=◌
abbrev pub ◌>>=◌ : {E A B : Type 0} → Run E A → (A → Run E B) → Run E B
ok a >>= f = f a
err e >>= f = err e
out_of_fuel >>= f = out_of_fuel
