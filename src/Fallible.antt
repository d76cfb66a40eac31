-- ===== src/Fallible.antt =====
-- Chains of pure calls that may fail or panic.
use research_cosmos.Prelude.{Option, none, some}
use research_cosmos.Types.{Outcome, ok, err, panic}

infixl 5 ◌>>=◌ ◌>>◌
abbrev pub ◌>>=◌ : {A B : Type 0} → Outcome A → (A → Outcome B) → Outcome B
ok a >>= f = f a
err e >>= f = err e
panic >>= f = panic

abbrev pub ◌>>◌ : {A B : Type 0} → Outcome A → Outcome B → Outcome B
m >> n = m >>= λ _. n

-- An index or a slice out of range panics.
abbrev pub in_range : {A : Type 0} → Option A → Outcome A
in_range none = panic
in_range (some a) = ok a
