-- ===== src/Ctx/Leads.antt =====
-- Calls that, where they succeed, lead from one predicate of the context to another.
use research_cosmos.Types.{Outcome, ok, err, panic}
use research_cosmos.Ctx.{World, M, continue, ◌>>=◌}
use research_cosmos.Ctx.Keeps.{Keeps}

-- What holds of the context of a success.
abbrev pub OnSuccess : {E A : Type 0} → (World E → Type 0) → Outcome A × World E → Type 0
OnSuccess Q (ok a, v) = Q v
OnSuccess Q (err e, v) = Unit
OnSuccess Q (panic, v) = Unit

module _ {E : Type 0} (P Q : World E → Type 0) where
  abbrev pub Leads : {A : Type 0} → M E A → Type 0
  Leads m = (w : World E) → P w → OnSuccess Q (m w)

module _ {E : Type 0} where
  success :
      {A : Type 0} (P : World E → Type 0) (r : Outcome A) (v : World E) → P v → OnSuccess P (r, v)
  success P (ok a) v h = h
  success P (err e) v h = tt
  success P panic v h = tt

  pub Keeps-Leads : {A : Type 0} (P : World E → Type 0) (m : M E A) → Keeps P m → Leads P P m
  Keeps-Leads P m hm w h = success P (m w).0 (m w).1 (hm w h)

  module _ (P Q R : World E → Type 0) where
    Leads-continue :
        {A B : Type 0} (f : A → M E B) (r : Outcome A) (v : World E)
        → ((a : A) → Leads Q R (f a))
        → OnSuccess Q (r, v)
        → OnSuccess R (continue r f v)
    Leads-continue f (ok a) v hf h = hf a v h
    Leads-continue f (err e) v hf h = tt
    Leads-continue f panic v hf h = tt

    pub Leads-bind :
        {A B : Type 0} (m : M E A) (f : A → M E B)
        → Leads P Q m
        → ((a : A) → Leads Q R (f a))
        → Leads P R (m >>= f)
    Leads-bind m f hm hf w h = Leads-continue f (m w).0 (m w).1 hf (hm w h)
