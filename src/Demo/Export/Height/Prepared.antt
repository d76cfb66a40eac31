-- ===== src/Demo/Export/Height/Prepared.antt =====
-- The preparation of demo/app/export.go for a genesis at height zero, and the block height.
use research_cosmos.Prelude.{
  ℕ, ◌≡◌, refl, sym, ap, ◌∙◌, List, [], ◌∷◌, Option, none, some, ◌==◌, if◌then◌else◌,
}
use mathlib.Core.Path.{fun_ext}
use research_cosmos.Bytes.{Bytes}
use research_cosmos.Types.{Outcome, ok, err, panic}
use research_cosmos.Ctx.{World, M, ◌>>=◌, continue, gets, modify, or_panic}
use research_cosmos.Ctx.Keeps.{Keeps}
use research_cosmos.Demo.Export.{
  or_stop, Delegation, ExportKeepers, for_each, check_allowed, withdraw_commission,
  withdraw_rewards, reset_redelegation, reset_unbonding_delegation, reset_validators,
  reset_validator, reset_signing_info, is_jailed, reinitialize_validator, reinitialize_delegation,
  prep_for_zero_height_genesis,
}
use research_cosmos.Demo.Export.Height.{
  Keeps-or_stop, Keeps-for_each, Keeps-reinitialize_validator, Keeps-reinitialize_delegation,
  last_part, KeepsHeight,
}
use research_cosmos.Demo.Export.Height.Kept.{height_kept}

-- A call that panics unless it is made at height zero.
abbrev pub only_at_zero : {E : Type 0} → M E Unit → M E Unit
only_at_zero m w = if w.height == 0 then m w else (panic, w)

-- The same keepers, with calls for the set-up of validators and delegations that panic at any other
-- height than zero.
abbrev pub zero_only : {E : Type 0} → ExportKeepers E → ExportKeepers E
zero_only k = record k {
  set_community_pool = λ c. only_at_zero (k.set_community_pool c);
  after_validator_created = λ a. only_at_zero (k.after_validator_created a);
  before_delegation_created = λ d v. only_at_zero (k.before_delegation_created d v);
  after_delegation_modified = λ d v. only_at_zero (k.after_delegation_modified d v);
}

module _ {E : Type 0} (k : ExportKeepers E) (allowed : List Bytes) where
  -- The preparation from the height zero on, and the whole of it around that part.
  abbrev set_up : List Delegation → ℕ → M E Unit
  set_up dels height = modify (λ w. record w { height = 0 }) >>= λ _. gets k.validators >>= λ vs.
      for_each (reinitialize_validator k) vs >>= λ _.
      for_each (reinitialize_delegation k) dels >>= λ _.
      modify (λ w. record w { height = height }) >>= λ _. last_part k allowed

  abbrev prepare_around : (List Delegation → ℕ → M E Unit) → M E Unit
  prepare_around z = check_allowed k allowed >>= λ _. k.assert_invariants >>= λ _.
      gets k.validators >>= λ vs. for_each (withdraw_commission k) vs >>= λ _.
      gets k.get_all_delegations >>= λ dels. for_each (withdraw_rewards k) dels >>= λ _.
      k.delete_all_validator_slash_events >>= λ _.
      k.delete_all_validator_historical_rewards >>= λ _.
      gets (λ w. w.height) >>= λ height. z dels height

  prepared_around : prep_for_zero_height_genesis k allowed ≡ prepare_around set_up
  unfolding prep_for_zero_height_genesis
  prepared_around = refl

module _ {E : Type 0} (k : ExportKeepers E) (keeps : KeepsHeight k 0) where
  -- Calls that agree at height zero.
  abbrev Agree : {A : Type 0} → M E A → M E A → Type 0
  Agree m n = (w : World E) → w.height ≡ 0 → m w ≡ n w

  only_at_zero-Agree : (m : M E Unit) → Agree (only_at_zero m) m
  only_at_zero-Agree m w h = rw h refl

  or_stop-Agree : (m n : M E Unit) → Agree m n → Agree (or_stop m) (or_stop n)
  or_stop-Agree m n h w at = rw (h w at) refl

  continue-Agree :
      {A B : Type 0} (r : Outcome A) (v : World E) (f g : A → M E B)
      → v.height ≡ 0
      → ((a : A) → Agree (f a) (g a))
      → continue r f v ≡ continue r g v
  continue-Agree (ok a) v f g at h = h a v at
  continue-Agree (err e) v f g at h = refl
  continue-Agree panic v f g at h = refl

  bind-Agree :
      {A B : Type 0} (m n : M E A) (f g : A → M E B)
      → Agree m n
      → Keeps (λ w. w.height ≡ 0) n
      → ((a : A) → Agree (f a) (g a))
      → Agree (m >>= f) (n >>= g)
  bind-Agree m n f g same keep h w at =
      rw (same w at) (continue-Agree (n w).0 (n w).1 f g (keep w at) h)

  for_each-Agree :
      {A : Type 0} (f g : A → M E Unit) (l : List A)
      → ((a : A) → Agree (f a) (g a))
      → ((a : A) → Keeps (λ w. w.height ≡ 0) (g a))
      → Agree (for_each f l) (for_each g l)
  unfolding for_each
  for_each-Agree f g [] h keep = λ w at. refl
  for_each-Agree f g (a ∷ l) h keep =
      bind-Agree (f a) (g a) (λ _. for_each f l) (λ _. for_each g l) (h a) (keep a)
        (λ _. for_each-Agree f g l h keep)

  validator-Agree :
      (a : Bytes) → Agree (reinitialize_validator (zero_only k) a) (reinitialize_validator k a)
  unfolding reinitialize_validator
  validator-Agree a w at =
      let pool =
        k.set_community_pool (k.add_coins (k.community_pool w) (k.outstanding_rewards w a)) in
      bind-Agree (only_at_zero pool) pool
        (λ _. or_stop (only_at_zero (k.after_validator_created a)))
        (λ _. or_stop (k.after_validator_created a)) (only_at_zero-Agree pool)
        (keeps.set_community_pool _)
        (λ _.
          or_stop-Agree (only_at_zero (k.after_validator_created a)) (k.after_validator_created a)
            (only_at_zero-Agree (k.after_validator_created a)))
        w at

  delegation-Agree :
      (d : Delegation)
      → Agree (reinitialize_delegation (zero_only k) d) (reinitialize_delegation k d)
  unfolding reinitialize_delegation
  delegation-Agree d w at =
      go (k.val_address_from_bech32 d.validator_address)
        (k.acc_address_from_bech32 d.delegator_address) w at
    where
      hooks :
          (Bytes → Bytes → M E Unit)
          → (Bytes → Bytes → M E Unit)
          → Option Bytes
          → Option Bytes
          → M E (Unit {0})
      hooks f g val del =
          or_panic val >>= λ v. or_panic del >>= λ a. or_stop (f a v) >>= λ _. or_stop (g a v)

      go :
          (val del : Option Bytes)
          → Agree
              (hooks
                (zero_only k).before_delegation_created
                (zero_only k).after_delegation_modified
                val
                del)
              (hooks k.before_delegation_created k.after_delegation_modified val del)
      go none del w at = refl
      go (some v) none w at = refl
      go (some v) (some a) w at =
          let before = k.before_delegation_created a v in
          let after = k.after_delegation_modified a v in
          bind-Agree (or_stop (only_at_zero before)) (or_stop before)
            (λ _. or_stop (only_at_zero after)) (λ _. or_stop after)
            (or_stop-Agree (only_at_zero before) before (only_at_zero-Agree before))
            (Keeps-or_stop (λ w. w.height ≡ 0) before (keeps.before_delegation_created a v))
            (λ _. or_stop-Agree (only_at_zero after) after (only_at_zero-Agree after)) w at

  set_up-Agree :
      (allowed : List Bytes) (dels : List Delegation) (height : ℕ) (w : World E)
      → set_up (zero_only k) allowed dels height w ≡ set_up k allowed dels height w
  unfolding reset_redelegation reset_unbonding_delegation reset_validators reset_validator
      reset_signing_info is_jailed
  set_up-Agree allowed dels height w =
      let zero = record w { height = 0 } in
      let last : Unit {0} → M E (Unit {0}) =
        λ _. modify (λ v. record v { height = height }) >>= λ _. last_part k allowed in
      bind-Agree (for_each (reinitialize_validator (zero_only k)) (k.validators zero))
        (for_each (reinitialize_validator k) (k.validators zero))
        (λ _. for_each (reinitialize_delegation (zero_only k)) dels >>= last)
        (λ _. for_each (reinitialize_delegation k) dels >>= last)
        (for_each-Agree (reinitialize_validator (zero_only k)) (reinitialize_validator k)
          (k.validators zero) validator-Agree (Keeps-reinitialize_validator k 0 keeps))
        (Keeps-for_each (λ v. v.height ≡ 0) (reinitialize_validator k) (k.validators zero)
          (Keeps-reinitialize_validator k 0 keeps))
        (λ _.
          bind-Agree (for_each (reinitialize_delegation (zero_only k)) dels)
            (for_each (reinitialize_delegation k) dels) last last
            (for_each-Agree (reinitialize_delegation (zero_only k)) (reinitialize_delegation k) dels
              delegation-Agree (Keeps-reinitialize_delegation k 0 keeps))
            (Keeps-for_each (λ v. v.height ≡ 0) (reinitialize_delegation k) dels
              (Keeps-reinitialize_delegation k 0 keeps))
            (λ _ v at. refl))
        zero refl

  around_zero_only :
      (allowed : List Bytes) (z : List Delegation → ℕ → M E Unit)
      → prepare_around (zero_only k) allowed z ≡ prepare_around k allowed z
  unfolding check_allowed withdraw_commission withdraw_rewards
  around_zero_only allowed z = refl

  prepared_zero_only :
      (allowed : List Bytes)
      → prep_for_zero_height_genesis (zero_only k) allowed ≡ prep_for_zero_height_genesis k allowed
  prepared_zero_only allowed =
      let set_up_same : set_up (zero_only k) allowed ≡ set_up k allowed =
        fun_ext (λ dels. fun_ext (λ height. fun_ext (λ w. set_up-Agree allowed dels height w))) in
      prepared_around (zero_only k) allowed
      ∙ around_zero_only allowed (set_up (zero_only k) allowed)
      ∙ ap (prepare_around k allowed) set_up_same
      ∙ sym (prepared_around k allowed)

-- With keepers of the SDK that leave the block height alone: if the preparation of a genesis at
-- height zero succeeds, the context is at the height that it had before. The same result comes from
-- keepers whose calls that set up validators and delegations (the community pool and the hooks of
-- the distribution keeper) panic at any other height than zero: these calls are made at height zero.
pub prep_for_zero_height_genesis-height :
    {E : Type 0} (k : ExportKeepers E) (keeps : (n : ℕ) → KeepsHeight k n) (allowed : List Bytes)
    (w v : World E)
    → prep_for_zero_height_genesis k allowed w ≡ (ok tt, v)
    → (v.height ≡ w.height) × (prep_for_zero_height_genesis (zero_only k) allowed w ≡ (ok tt, v))
prep_for_zero_height_genesis-height k keeps allowed w v e = (
  height_kept k keeps allowed w.height w v refl e,
  ap (λ (m : M _ Unit). m w) (prepared_zero_only k (keeps 0) allowed) ∙ e,
)
