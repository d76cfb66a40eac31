-- ===== src/Ctx.antt =====
-- `sdk.Context` as an explicit state, and Go's calls over it: an error or a panic leaves what was
-- written before it written.
pub mod Keeps
pub mod Leads
use research_cosmos.Prelude.{ℕ, Bool, true, false, Option, none, some, List, [], ◌∷◌, ◌++◌}
use research_cosmos.Prelude.Int.{ℤ}
use research_cosmos.KvStore.{KvStore}
use research_cosmos.Types.{Error, Outcome, ok, err, panic, Event}

-- The side of the context that belongs to other modules: their state and the gas meter.
pub record Env (E : Type 0) : Type 0 where
  pub state : E
  pub gas_used : ℕ
  pub gas_limit : Option ℕ

pub record World (E : Type 0) : Type 0 where
  pub store : KvStore
  pub mem : KvStore
  pub env : Env E
  pub events : List Event
  pub height : ℕ
  pub time : ℤ

abbrev pub M : Type 0 → Type 0 → Type 0
M E A = World E → Outcome A × World E

-- A call of another module, which reaches only that module's side.
abbrev pub Call : Type 0 → Type 0 → Type 0
Call E A = Env E → Outcome A × Env E

abbrev pub continue : {E A B : Type 0} → Outcome A → (A → M E B) → M E B
continue (ok a) f w = f a w
continue (err e) f w = (err e, w)
continue panic f w = (panic, w)

infixl 5 ◌>>=◌ ◌>>◌
abbrev pub ◌>>=◌ : {E A B : Type 0} → M E A → (A → M E B) → M E B
◌>>=◌ m f w = let (r, w') = m w in continue r f w'

abbrev pub ◌>>◌ : {E A B : Type 0} → M E A → M E B → M E B
m >> n = m >>= λ _. n

module _ {E : Type 0} where
  abbrev pub pure : {A : Type 0} → A → M E A
  pure a w = (ok a, w)

  abbrev pub fail : {A : Type 0} → Error → M E A
  fail e w = (err e, w)

  abbrev pub lift : {A : Type 0} → Outcome A → M E A
  lift r w = (r, w)

  -- `if err != nil { return err }`
  abbrev pub check : Option Error → M E Unit
  check none w = (ok tt, w)
  check (some e) w = (err e, w)

  abbrev pub fail_if : Bool → Error → M E Unit
  fail_if true e w = (err e, w)
  fail_if false e w = (ok tt, w)

  -- A value that may be missing, with the error for that case.
  abbrev pub or_fail : {A : Type 0} → Option A → Error → M E A
  or_fail none e w = (err e, w)
  or_fail (some a) e w = (ok a, w)

  abbrev pub or_panic : {A : Type 0} → Option A → M E A
  or_panic none w = (panic, w)
  or_panic (some a) w = (ok a, w)

  -- a call whose error is turned into a panic
  abbrev pub must : {A : Type 0} → Outcome A → M E A
  must (ok a) w = (ok a, w)
  must (err e) w = (panic, w)
  must panic w = (panic, w)

  abbrev pub gets : {A : Type 0} → (World E → A) → M E A
  gets f w = (ok (f w), w)

  abbrev pub modify : (World E → World E) → M E Unit
  modify f w = (ok tt, f w)

  abbrev pub call : {A : Type 0} → Call E A → M E A
  call m w = let (r, v) = m w.env in (r, record w { env = v })

  -- `ctx.EventManager().EmitEvent`
  abbrev pub emit : Event → M E Unit
  emit e w = (ok tt, record w { events = w.events ++ e ∷ [] })

  -- A context with the gas meter of another one: a cached context shares its parent's meter.
  abbrev pub with_gas_of : World E → World E → World E
  with_gas_of v w = record w { env = record w.env { gas_used = v.env.gas_used } }

  -- What `cacheCtx, done := ctx.CacheContext()` keeps: everything if the function reaches `done()`,
  -- and nothing but the gas that was used if it returns or panics before.
  abbrev pub keep_if_ok : {A : Type 0} → World E → Outcome A × World E → Outcome A × World E
  keep_if_ok w (ok a, w') = (ok a, w')
  keep_if_ok w (err e, w') = (err e, with_gas_of w' w)
  keep_if_ok w (panic, w') = (panic, with_gas_of w' w)

  abbrev pub in_cache : {A : Type 0} → M E A → M E A
  in_cache m w = keep_if_ok w (m w)
