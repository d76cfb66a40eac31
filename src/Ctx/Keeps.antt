-- ===== src/Ctx/Keeps.antt =====
-- Calls that keep a predicate of the context, however they end.
use research_cosmos.Prelude.{◌≡◌, refl, if◌then◌else◌, Bool, true, false, Option, none, some}
use research_cosmos.Types.{Error, Outcome, ok, err, panic}
use research_cosmos.Ctx.{
  World, M, continue, ◌>>=◌, check, or_fail, or_panic, must, fail_if, keep_if_ok, in_cache,
  with_gas_of, Env,
}

module _ {E : Type 0} (P : World E → Type 0) where
  abbrev pub Keeps : {A : Type 0} → M E A → Type 0
  Keeps m = (w : World E) → P w → P (m w).1

  pub Keeps-continue :
      {A B : Type 0} (f : A → M E B) (r : Outcome A) (w : World E)
      → ((a : A) → Keeps (f a))
      → P w
      → P (continue r f w).1
  Keeps-continue f (ok a) w hf h = hf a w h
  Keeps-continue f (err e) w hf h = h
  Keeps-continue f panic w hf h = h

  pub Keeps-bind :
      {A B : Type 0} (m : M E A) (f : A → M E B)
      → Keeps m
      → ((a : A) → Keeps (f a))
      → Keeps (m >>= f)
  Keeps-bind m f hm hf w h = Keeps-continue f (m w).0 (m w).1 hf (hm w h)

  pub Keeps-check : (e : Option Error) → Keeps (check e)
  Keeps-check none w h = h
  Keeps-check (some e) w h = h

  -- What follows a check may use that it has passed.
  pub Keeps-valid :
      {A : Type 0} (e : Option Error) (f : Unit → M E A)
      → (e ≡ none → Keeps (f tt))
      → Keeps (check e >>= f)
  Keeps-valid none f hf w h = hf refl w h
  Keeps-valid (some e) f hf w h = h

  pub Keeps-or_fail : {A : Type 0} (o : Option A) (e : Error) → Keeps (or_fail o e)
  Keeps-or_fail none e w h = h
  Keeps-or_fail (some a) e w h = h

  pub Keeps-given :
      {A B : Type 0} (o : Option A) (e : Error) (f : A → M E B)
      → ((a : A) → o ≡ some a → Keeps (f a))
      → Keeps (or_fail o e >>= f)
  Keeps-given none e f hf w h = h
  Keeps-given (some a) e f hf w h = hf a refl w h

  pub Keeps-or_panic : {A : Type 0} (o : Option A) → Keeps (or_panic o)
  Keeps-or_panic none w h = h
  Keeps-or_panic (some a) w h = h

  pub Keeps-must : {A : Type 0} (r : Outcome A) → Keeps (must r)
  Keeps-must (ok a) w h = h
  Keeps-must (err e) w h = h
  Keeps-must panic w h = h

  pub Keeps-fail_if : (b : Bool) (e : Error) → Keeps (fail_if b e)
  Keeps-fail_if true e w h = h
  Keeps-fail_if false e w h = h

  pub Keeps-if :
      {A : Type 0} (b : Bool) (m n : M E A) → Keeps m → Keeps n → Keeps (if b then m else n)
  Keeps-if true m n hm hn = hm
  Keeps-if false m n hm hn = hn

  Keeps-keep_if_ok :
      {A : Type 0} (w : World E) (r : Outcome A) (v : World E)
      → P (with_gas_of v w)
      → P v
      → P (keep_if_ok w (r, v)).1
  Keeps-keep_if_ok w (ok a) v h i = i
  Keeps-keep_if_ok w (err e) v h i = h
  Keeps-keep_if_ok w panic v h i = h

  -- A predicate that does not look at the side of the other modules.
  pub Keeps-in_cache :
      {A : Type 0} (m : M E A)
      → ((w : World E) (v : Env E) → P w → P (record w { env = v }))
      → Keeps m
      → Keeps (in_cache m)
  Keeps-in_cache m env hm w h =
      let (r, v) = m w in Keeps-keep_if_ok w r v (env w (with_gas_of v w).env h) (hm w h)
