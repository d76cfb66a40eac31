-- ===== src/Demo/Export/Height.antt =====
-- The block height that demo/app/export.go sets and sets back.
pub mod Prepared
pub mod Kept
use research_cosmos.Prelude.{ℕ, ◌≡◌, refl, Option, List, [], ◌∷◌}
use research_cosmos.Prelude.Int.{ℤ}
use research_cosmos.Bytes.{Bytes}
use research_cosmos.Types.{Outcome, ok, err, panic}
use research_cosmos.Ctx.{World, M, ◌>>=◌, pure, gets, modify, or_panic}
use research_cosmos.Ctx.Keeps.{Keeps, Keeps-bind, Keeps-or_panic}
use research_cosmos.Ctx.Leads.{OnSuccess, Leads, Keeps-Leads, Leads-bind}
use research_cosmos.Demo.Export.{
  Delegation, Redelegation, UnbondingDelegation, StakingValidator, SigningInfo, ExportKeepers,
  DecCoins, for_each, drop_error, panic_on_error, or_stop, check_allowed, withdraw_commission,
  withdraw_rewards, reinitialize_validator, reinitialize_delegation, reset_redelegation,
  reset_unbonding_delegation, reset_validator, reset_validators, reset_signing_info,
  prep_for_zero_height_genesis, reset_entries, reset_fields, is_jailed,
}

-- The SDK's keepers do not change the block height of a context.
pub record KeepsHeight {E : Type 0} (k : ExportKeepers E) (n : ℕ) : Type 0 where
  pub assert_invariants : Keeps (λ w. w.height ≡ n) k.assert_invariants
  pub withdraw_validator_commission :
      (a : Bytes) → Keeps (λ w. w.height ≡ n) (k.withdraw_validator_commission a)
  pub withdraw_delegation_rewards :
      (d v : Bytes) → Keeps (λ w. w.height ≡ n) (k.withdraw_delegation_rewards d v)
  pub delete_all_validator_slash_events :
      Keeps (λ w. w.height ≡ n) k.delete_all_validator_slash_events
  pub delete_all_validator_historical_rewards :
      Keeps (λ w. w.height ≡ n) k.delete_all_validator_historical_rewards
  pub set_community_pool : (c : DecCoins) → Keeps (λ w. w.height ≡ n) (k.set_community_pool c)
  pub after_validator_created :
      (a : Bytes) → Keeps (λ w. w.height ≡ n) (k.after_validator_created a)
  pub before_delegation_created :
      (d v : Bytes) → Keeps (λ w. w.height ≡ n) (k.before_delegation_created d v)
  pub after_delegation_modified :
      (d v : Bytes) → Keeps (λ w. w.height ≡ n) (k.after_delegation_modified d v)
  pub set_redelegation : (r : Redelegation) → Keeps (λ w. w.height ≡ n) (k.set_redelegation r)
  pub set_unbonding_delegation :
      (u : UnbondingDelegation) → Keeps (λ w. w.height ≡ n) (k.set_unbonding_delegation u)
  pub set_validator : (v : StakingValidator) → Keeps (λ w. w.height ≡ n) (k.set_validator v)
  pub apply_and_return_validator_set_updates :
      Keeps (λ w. w.height ≡ n) k.apply_and_return_validator_set_updates
  pub set_validator_signing_info :
      (a : Bytes) (i : SigningInfo) → Keeps (λ w. w.height ≡ n) (k.set_validator_signing_info a i)

module _ {E : Type 0} (P : World E → Type 0) where
  pub Keeps-for_each :
      {A : Type 0} (f : A → M E Unit) (l : List A)
      → ((a : A) → Keeps P (f a))
      → Keeps P (for_each f l)
  unfolding for_each
  Keeps-for_each f [] hf = λ w h. h
  Keeps-for_each f (a ∷ l) hf =
      Keeps-bind P (f a) (λ _. for_each f l) (hf a) (λ _. Keeps-for_each f l hf)

  Keeps-drop_error : (m : M E Unit) → Keeps P m → Keeps P (λ w. drop_error (m w))
  Keeps-drop_error m hm w h = go (m w).0 (m w).1 (hm w h)
    where
      go : (r : Outcome (Unit {0})) (v : World E) → P v → P (drop_error (r, v)).1
      go (ok u) v i = i
      go (err e) v i = i
      go panic v i = i

  pub Keeps-or_stop : (m : M E Unit) → Keeps P m → Keeps P (or_stop m)
  Keeps-or_stop m hm w h = go (m w).0 (m w).1 (hm w h)
    where
      go : (r : Outcome (Unit {0})) (v : World E) → P v → P (panic_on_error (r, v)).1
      go (ok u) v i = i
      go (err e) v i = i
      go panic v i = i

module _ {E : Type 0} (k : ExportKeepers E) where
  -- What follows once the height is set back.
  abbrev infos : Unit {0} → M E (Unit {0})
  infos _ = gets k.signing_infos >>= λ is. for_each (reset_signing_info k) is

  abbrev updates : Unit {0} → M E (Unit {0})
  updates _ = or_stop k.apply_and_return_validator_set_updates >>= infos

  abbrev validators : List Bytes → Unit {0} → M E (Unit {0})
  validators allowed _ = gets k.validator_keys >>= λ ks. reset_validators k allowed ks >>= updates

  abbrev unbondings : List Bytes → Unit {0} → M E (Unit {0})
  unbondings allowed _ = gets k.unbonding_delegations >>= λ us.
      for_each (reset_unbonding_delegation k) us >>= validators allowed

  abbrev pub last_part : List Bytes → M E (Unit {0})
  last_part allowed =
      gets k.redelegations >>= λ rs. for_each (reset_redelegation k) rs >>= unbondings allowed

module _ {E : Type 0} (k : ExportKeepers E) (n : ℕ) (keeps : KeepsHeight k n) where
  abbrev At : World E → Type 0
  At w = w.height ≡ n

  pub Keeps-check_allowed : (l : List Bytes) → Keeps At (check_allowed k l)
  unfolding check_allowed
  Keeps-check_allowed l =
      Keeps-for_each At (λ addr. or_panic (k.val_address_from_bech32 addr) >>= λ _. pure tt) l
        (λ addr.
          Keeps-bind At (or_panic (k.val_address_from_bech32 addr)) (λ _. pure tt)
            (Keeps-or_panic At (k.val_address_from_bech32 addr)) (λ _ w h. h))

  pub Keeps-withdraw_commission : (a : Bytes) → Keeps At (withdraw_commission k a)
  unfolding withdraw_commission
  Keeps-withdraw_commission a =
      Keeps-drop_error At (k.withdraw_validator_commission a)
        (keeps.withdraw_validator_commission a)

  -- Two addresses are read, and a call is made with them.
  Keeps-addresses :
      (val del : Bytes) (f : Bytes → Bytes → M E Unit)
      → ((v d : Bytes) → Keeps At (f v d))
      → Keeps At (
          or_panic (k.val_address_from_bech32 val) >>= λ v.
          or_panic (k.acc_address_from_bech32 del) >>= λ d. f v d)
  Keeps-addresses val del f hf =
      let inner : Bytes → M E Unit = λ v. or_panic (k.acc_address_from_bech32 del) >>= λ d. f v d in
      Keeps-bind At (or_panic (k.val_address_from_bech32 val)) inner
        (Keeps-or_panic At (k.val_address_from_bech32 val))
        (λ v.
          Keeps-bind At (or_panic (k.acc_address_from_bech32 del)) (λ d. f v d)
            (Keeps-or_panic At (k.acc_address_from_bech32 del)) (λ d. hf v d))

  pub Keeps-withdraw_rewards : (d : Delegation) → Keeps At (withdraw_rewards k d)
  unfolding withdraw_rewards
  Keeps-withdraw_rewards d =
      Keeps-addresses d.validator_address d.delegator_address
        (λ v a. or_stop (k.withdraw_delegation_rewards a v))
        (λ v a.
          Keeps-or_stop At (k.withdraw_delegation_rewards a v)
            (keeps.withdraw_delegation_rewards a v))

  pub Keeps-reinitialize_validator : (a : Bytes) → Keeps At (reinitialize_validator k a)
  unfolding reinitialize_validator
  Keeps-reinitialize_validator a w h =
      let pool =
        k.set_community_pool (k.add_coins (k.community_pool w) (k.outstanding_rewards w a)) in
      Keeps-bind At pool (λ _. or_stop (k.after_validator_created a))
        (keeps.set_community_pool (k.add_coins (k.community_pool w) (k.outstanding_rewards w a)))
        (λ _. Keeps-or_stop At (k.after_validator_created a) (keeps.after_validator_created a)) w h

  pub Keeps-reinitialize_delegation : (d : Delegation) → Keeps At (reinitialize_delegation k d)
  unfolding reinitialize_delegation
  Keeps-reinitialize_delegation d =
      let last = λ (v a : Bytes) (u : Unit). or_stop (k.after_delegation_modified a v) in
      Keeps-addresses d.validator_address d.delegator_address
        (λ v a. or_stop (k.before_delegation_created a v) >>= last v a)
        (λ v a.
          Keeps-bind At (or_stop (k.before_delegation_created a v)) (last v a)
            (Keeps-or_stop At (k.before_delegation_created a v)
              (keeps.before_delegation_created a v))
            (λ _.
              Keeps-or_stop At (k.after_delegation_modified a v)
                (keeps.after_delegation_modified a v)))

  Keeps-reset_validators :
      (allowed addrs : List Bytes) → Keeps At (reset_validators k allowed addrs)
  unfolding reset_validators reset_validator
  Keeps-reset_validators allowed addrs =
      Keeps-for_each At (reset_validator k allowed) addrs (λ a w h.
        Keeps-bind At (or_panic (k.get_validator w a))
          (λ v. k.set_validator (reset_fields (is_jailed k allowed a) v))
          (Keeps-or_panic At (k.get_validator w a))
          (λ v. keeps.set_validator (reset_fields (is_jailed k allowed a) v)) w h)

  Keeps-infos : Keeps At (infos k tt)
  unfolding reset_signing_info
  Keeps-infos w h =
      Keeps-for_each At (reset_signing_info k) (k.signing_infos w)
        (λ (a, i). keeps.set_validator_signing_info a _) w h

  Keeps-validators : (allowed : List Bytes) → Keeps At (validators k allowed tt)
  Keeps-validators allowed w h =
      Keeps-bind At (reset_validators k allowed (k.validator_keys w)) (updates k)
        (Keeps-reset_validators allowed (k.validator_keys w))
        (λ _.
          Keeps-bind At (or_stop k.apply_and_return_validator_set_updates) (infos k)
            (Keeps-or_stop At k.apply_and_return_validator_set_updates
              keeps.apply_and_return_validator_set_updates)
            (λ _. Keeps-infos))
        w h

  pub Keeps-last_part : (allowed : List Bytes) → Keeps At (last_part k allowed)
  unfolding reset_redelegation reset_unbonding_delegation
  Keeps-last_part allowed w h =
      Keeps-bind At (for_each (reset_redelegation k) (k.redelegations w)) (unbondings k allowed)
        (Keeps-for_each At (reset_redelegation k) (k.redelegations w)
          (λ red. keeps.set_redelegation _))
        (λ _ v i.
          Keeps-bind At (for_each (reset_unbonding_delegation k) (k.unbonding_delegations v))
            (validators k allowed)
            (Keeps-for_each At (reset_unbonding_delegation k) (k.unbonding_delegations v)
              (λ ubd. keeps.set_unbonding_delegation _))
            (λ _. Keeps-validators allowed) v i)
        w h
