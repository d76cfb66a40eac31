-- ===== src/Demo/Export.antt =====
-- demo/app/export.go: the export of the state, and its preparation for a genesis at height zero.
pub mod Validators
pub mod Height
use research_cosmos.Prelude.{
  ℕ, ◌+◌, Bool, true, false, not, ◌&&◌, Option, none, some, List, [], ◌∷◌, ◌==◌, ltb, length,
  if◌then◌else◌,
}
use research_cosmos.Prelude.Int.{ℤ, pos}
use research_cosmos.Bytes.{Bytes, equal}
use research_cosmos.Types.{Outcome, ok, err, panic}
use research_cosmos.Ctx.{World, M, ◌>>=◌, ◌>>◌, pure, lift, gets, modify, or_panic}

-- What the code reads or writes of the SDK's types: a delegation's two bech32 texts, an entry of a
-- redelegation or of an unbonding delegation, a validator by its operator, and a signing info.
pub record Delegation : Type 0 where
  pub delegator_address : Bytes
  pub validator_address : Bytes

pub record Entry : Type 0 where
  pub creation_height : ℤ
  pub completion_time : ℤ

pub record Redelegation : Type 0 where
  pub delegator_address : Bytes
  pub validator_src_address : Bytes
  pub validator_dst_address : Bytes
  pub entries : List Entry

pub record UnbondingDelegation : Type 0 where
  pub delegator_address : Bytes
  pub validator_address : Bytes
  pub entries : List Entry

pub record StakingValidator : Type 0 where
  pub operator : Bytes
  pub jailed : Bool
  pub tokens : ℤ
  pub unbonding_height : ℤ

pub record SigningInfo : Type 0 where
  pub start_height : ℤ
  pub index_offset : ℤ
  pub tombstoned : Bool

-- `DecCoins`, by denomination and amount
abbrev pub DecCoins : Type 0
DecCoins = List (Bytes × ℤ)

-- The calls of the crisis, staking, distribution and slashing keepers. An iteration is the list of
-- what it visits, read at its start.
pub record ExportKeepers (E : Type 0) : Type 0 where
  pub assert_invariants : M E Unit
  pub validators : World E → List Bytes
  pub withdraw_validator_commission : Bytes → M E Unit
  pub get_all_delegations : World E → List Delegation
  pub withdraw_delegation_rewards : Bytes → Bytes → M E Unit
  pub delete_all_validator_slash_events : M E Unit
  pub delete_all_validator_historical_rewards : M E Unit
  pub outstanding_rewards : World E → Bytes → DecCoins
  pub community_pool : World E → DecCoins
  pub set_community_pool : DecCoins → M E Unit
  pub add_coins : DecCoins → DecCoins → DecCoins
  pub after_validator_created : Bytes → M E Unit
  pub before_delegation_created : Bytes → Bytes → M E Unit
  pub after_delegation_modified : Bytes → Bytes → M E Unit
  pub redelegations : World E → List Redelegation
  pub set_redelegation : Redelegation → M E Unit
  pub unbonding_delegations : World E → List UnbondingDelegation
  pub set_unbonding_delegation : UnbondingDelegation → M E Unit
  -- the addresses of the validator keys of the staking store, in reverse key order
  pub validator_keys : World E → List Bytes
  pub get_validator : World E → Bytes → Option StakingValidator
  pub set_validator : StakingValidator → M E Unit
  pub apply_and_return_validator_set_updates : M E Unit
  pub signing_infos : World E → List (Bytes × SigningInfo)
  pub set_validator_signing_info : Bytes → SigningInfo → M E Unit
  pub val_address_from_bech32 : Bytes → Option Bytes
  pub acc_address_from_bech32 : Bytes → Option Bytes
  pub val_string : Bytes → Bytes

-- Is the text one of the list? (`allowedAddrsMap[addr]`)
unfoldable pub is_member : Bytes → List Bytes → Bool
is_member a [] = false
is_member a (b ∷ bs) = if equal b a then true else is_member a bs

-- `for i := range red.Entries { red.Entries[i].CreationHeight = 0 }`
unfoldable pub reset_entries : List Entry → List Entry
reset_entries [] = []
reset_entries (e ∷ es) = record e { creation_height = pos 0 } ∷ reset_entries es

-- A validator with its unbonding height reset, jailed if there is a list and it is not on it.
unfoldable pub reset_fields : Bool → StakingValidator → StakingValidator
reset_fields jail validator = record validator {
  unbonding_height = pos 0;
  jailed = if jail then true else validator.jailed;
}

module _ {E : Type 0} where
  -- A loop over what an iteration visits.
  unfoldable pub for_each : {A : Type 0} → (A → M E Unit) → List A → M E Unit
  for_each f [] = pure tt
  for_each f (a ∷ rest) = do f a; for_each f rest

  -- `_, _ = f()`, and `if err != nil { panic(err) }`
  abbrev pub drop_error : Outcome Unit × World E → Outcome (Unit {0}) × World E
  drop_error (ok u, w) = (ok tt, w)
  drop_error (err e, w) = (ok tt, w)
  drop_error (panic, w) = (panic, w)

  abbrev pub panic_on_error : Outcome Unit × World E → Outcome (Unit {0}) × World E
  panic_on_error (ok u, w) = (ok tt, w)
  panic_on_error (err e, w) = (panic, w)
  panic_on_error (panic, w) = (panic, w)

  abbrev pub or_stop : M E Unit → M E (Unit {0})
  or_stop m w = panic_on_error (m w)

module _ {E : Type 0} (k : ExportKeepers E) where
  -- The check of the allowed addresses; `log.Fatal` ends the process, here as a panic.
  unfoldable pub check_allowed : List Bytes → M E Unit
  unfolding for_each
  check_allowed jail_allowed_addrs =
      for_each (λ addr. do or_panic (k.val_address_from_bech32 addr); pure tt) jail_allowed_addrs

  unfoldable pub withdraw_commission : Bytes → M E Unit
  withdraw_commission operator w = drop_error (k.withdraw_validator_commission operator w)

  unfoldable pub withdraw_rewards : Delegation → M E Unit
  withdraw_rewards delegation = do
    val_addr ← or_panic (k.val_address_from_bech32 delegation.validator_address)
    del_addr ← or_panic (k.acc_address_from_bech32 delegation.delegator_address)
    or_stop (k.withdraw_delegation_rewards del_addr val_addr)

  unfoldable pub reinitialize_validator : Bytes → M E Unit
  reinitialize_validator operator = do
    scraps ← gets (λ w. k.outstanding_rewards w operator)
    community_pool ← gets k.community_pool
    k.set_community_pool (k.add_coins community_pool scraps)
    or_stop (k.after_validator_created operator)

  unfoldable pub reinitialize_delegation : Delegation → M E Unit
  reinitialize_delegation del = do
    val_addr ← or_panic (k.val_address_from_bech32 del.validator_address)
    del_addr ← or_panic (k.acc_address_from_bech32 del.delegator_address)
    or_stop (k.before_delegation_created del_addr val_addr)
    or_stop (k.after_delegation_modified del_addr val_addr)

  unfoldable pub reset_redelegation : Redelegation → M E Unit
  unfolding reset_entries
  reset_redelegation red = k.set_redelegation (record red { entries = reset_entries red.entries })

  unfoldable pub reset_unbonding_delegation : UnbondingDelegation → M E Unit
  unfolding reset_entries
  reset_unbonding_delegation ubd =
      k.set_unbonding_delegation (record ubd { entries = reset_entries ubd.entries })

  -- `applyAllowedAddrs && !allowedAddrsMap[addr.String()]`
  unfoldable pub is_jailed : List Bytes → Bytes → Bool
  unfolding is_member
  is_jailed jail_allowed_addrs addr =
      ltb 0 (length jail_allowed_addrs) && not (is_member (k.val_string addr) jail_allowed_addrs)

  -- The body of the loop over the keys of the validators.
  unfoldable pub reset_validator : List Bytes → Bytes → M E Unit
  unfolding is_jailed reset_fields
  reset_validator jail_allowed_addrs addr = do
    validator ← or_panic (← gets (λ w. k.get_validator w addr))
    k.set_validator (reset_fields (is_jailed jail_allowed_addrs addr) validator)

  unfoldable pub reset_validators : List Bytes → List Bytes → M E Unit
  unfolding for_each reset_validator
  reset_validators jail_allowed_addrs addrs = for_each (reset_validator jail_allowed_addrs) addrs

  unfoldable pub reset_signing_info : Bytes × SigningInfo → M E Unit
  reset_signing_info (addr, info) =
      k.set_validator_signing_info addr (record info { start_height = pos 0 })

  unfoldable pub prep_for_zero_height_genesis : List Bytes → M E Unit
  unfolding check_allowed withdraw_commission withdraw_rewards reinitialize_validator
      reinitialize_delegation reset_redelegation reset_unbonding_delegation reset_validators
      reset_signing_info
  prep_for_zero_height_genesis jail_allowed_addrs = do
    check_allowed jail_allowed_addrs
    k.assert_invariants
    for_each withdraw_commission (← gets k.validators)
    dels ← gets k.get_all_delegations
    for_each withdraw_rewards dels
    k.delete_all_validator_slash_events
    k.delete_all_validator_historical_rewards
    height ← gets (λ w. w.height)
    modify (λ w. record w { height = 0 })
    for_each reinitialize_validator (← gets k.validators)
    for_each reinitialize_delegation dels
    modify (λ w. record w { height = height })
    for_each reset_redelegation (← gets k.redelegations)
    for_each reset_unbonding_delegation (← gets k.unbonding_delegations)
    reset_validators jail_allowed_addrs (← gets k.validator_keys)
    or_stop k.apply_and_return_validator_set_updates
    for_each reset_signing_info (← gets k.signing_infos)

-- `servertypes.ExportedApp`
pub record ExportedApp (V C : Type 0) : Type 0 where
  pub app_state : Bytes
  pub validators : V
  pub height : ℕ
  pub consensus_params : C

-- The module manager's export and its JSON text, and the other values that are exported.
pub record Exporter (E G V C : Type 0) : Type 0 where
  pub export_genesis_for_modules : List Bytes → M E G
  pub marshal_indent : G → Outcome Bytes
  pub write_validators : M E V
  pub get_consensus_params : World E → C

-- `ExportAppStateAndValidators`, in a context at the last block height
unfoldable pub export_app_state_and_validators :
    {E G V C : Type 0}
    → ExportKeepers E
    → Exporter E G V C
    → ℕ
    → Bool
    → List Bytes
    → List Bytes
    → M E (ExportedApp V C)
unfolding prep_for_zero_height_genesis
export_app_state_and_validators k x last_block_height for_zero_height jail_allowed_addrs
      modules_to_export =
    do
      let height = if for_zero_height then 0 else last_block_height + 1
      if for_zero_height then prep_for_zero_height_genesis k jail_allowed_addrs else pure tt
      gen_state ← x.export_genesis_for_modules modules_to_export
      app_state ← lift (x.marshal_indent gen_state)
      validators ← x.write_validators
      consensus_params ← gets x.get_consensus_params
      pure (record {
        app_state = app_state;
        validators = validators;
        height = height;
        consensus_params = consensus_params;
      })
