-- ===== src/Keeper/Adapter.antt =====
-- x/meshsecurity/keeper/adapter.go: the bank and staking adapters, and the decorators of the
-- slashing and staking keepers that capture tombstone, slash, jail and unjail events.
pub mod Reported
use research_cosmos.Prelude.{Option, none, some, List, if◌then◌else◌}
use research_cosmos.Prelude.Int.{ℤ}
use research_cosmos.Bytes.{Bytes}
use research_cosmos.Types.{Outcome, ok, err, panic, Coin, Validator, no_delegator_for_address}
use research_cosmos.Sdk.{Sdk}
use research_cosmos.Ctx.{World, Env, Call, M, ◌>>=◌, ◌>>◌, pure, gets, call}
use research_cosmos.Keeper.{
  SdkBankKeeper, XBankKeeper, SdkStakingKeeper, XStakingKeeper, Keeper, WasmKeeper,
}
use research_cosmos.Keeper.Valset.{
  schedule_slashed, schedule_jailed, schedule_tombstoned, schedule_unjailed,
}

module _ {E : Type 0} where
  -- Chains of calls of other modules.
  abbrev pub then_call : {A B : Type 0} → Outcome A × Env E → (A → Call E B) → Outcome B × Env E
  then_call (ok a, v) f = f a v
  then_call (err e, v) f = (err e, v)
  then_call (panic, v) f = (panic, v)

  -- `BankKeeperAdapter.AddSupplyOffset`
  abbrev pub no_supply_offset : Bytes → ℤ → Call E Unit
  no_supply_offset denom offset_amount v = (ok tt, v)

  unfoldable pub new_bank_keeper_adapter : SdkBankKeeper E → XBankKeeper E
  new_bank_keeper_adapter b = record { base = b; add_supply_offset = no_supply_offset }

  module _ (sdk : Sdk) (s : SdkStakingKeeper E) (bank : SdkBankKeeper E) where
    -- stakingtypes.NotBondedPoolName and BondedPoolName
    module _ (not_bonded_pool bonded_pool : Bytes) where
      -- The coins are paid out of the pool that the validator's status names.
      abbrev pub pay_out : Bytes → Validator → List Coin → Call E (List Coin)
      pay_out del_addr validator res v =
          then_call
            (bank.undelegate_coins_from_module_to_account
              (if validator.bonded then bonded_pool else not_bonded_pool) del_addr res v)
            (λ u v'. (ok res, v'))

      abbrev pub unbond_from : Bytes → Bytes → ℤ → Option Validator → Call E (List Coin)
      unbond_from del_addr val_addr shares_amount none v = (err no_delegator_for_address, v)
      unbond_from del_addr val_addr shares_amount (some validator) v =
          then_call (s.unbond del_addr val_addr shares_amount v) (λ return_amount v₁.
            then_call (sdk.new_coin (s.bond_denom v₁) return_amount, v₁)
              (λ amt v₂. then_call (sdk.new_coins amt, v₂) (λ res. pay_out del_addr validator res)))

      unfoldable pub instant_undelegate : Bytes → Bytes → ℤ → Call E (List Coin)
      instant_undelegate del_addr val_addr shares_amount v =
          unbond_from del_addr val_addr shares_amount (s.get_validator v val_addr) v

      unfoldable pub new_staking_keeper_adapter : XStakingKeeper E
      unfolding instant_undelegate
      new_staking_keeper_adapter = record { base = s; instant_undelegate = instant_undelegate }

      -- `NewKeeper`
      unfoldable pub new_keeper : WasmKeeper E → Bytes → Keeper E
      unfolding new_staking_keeper_adapter new_bank_keeper_adapter
      new_keeper wasm authority = record {
        sdk = sdk;
        bank = new_bank_keeper_adapter bank;
        staking = new_staking_keeper_adapter;
        wasm = wasm;
        authority = authority;
      }

-- The decorated SDK methods.
pub record SlashingTarget (E : Type 0) : Type 0 where
  pub validator_by_cons_addr : Env E → Bytes → Option Validator
  pub tombstone : Bytes → Call E Unit
  pub slash : Bytes → ℤ → ℤ → ℤ → Call E ℤ
  pub jail : Bytes → Call E Unit
  pub unjail : Bytes → Call E Unit

module _ {E : Type 0} where
  -- An error of the scheduling is logged, and the call goes on.
  abbrev pub logged : Outcome Unit × World E → Outcome (Unit {0}) × World E
  logged (ok u, w) = (ok tt, w)
  logged (err e, w) = (ok tt, w)
  logged (panic, w) = (panic, w)

  abbrev pub log_error : M E Unit → M E (Unit {0})
  log_error m w = logged (m w)

  -- A validator that is not found is logged too.
  abbrev pub propagate : Option Validator → (Bytes → M E Unit) → M E (Unit {0})
  propagate none schedule = pure tt
  propagate (some v) schedule = log_error (schedule v.operator_address)

module _ {E : Type 0} (k : Keeper E) (s : SlashingTarget E) where
  abbrev pub find_validator : Bytes → M E (Option Validator)
  find_validator addr = gets (λ w. s.validator_by_cons_addr w.env addr)

  unfoldable pub tombstone : Bytes → M E Unit
  unfolding schedule_tombstoned
  tombstone address = do
    v ← gets (λ w. k.staking.get_validator_by_cons_addr w.env address)
    propagate v (schedule_tombstoned k)
    call (s.tombstone address)

  unfoldable pub slash : Bytes → ℤ → ℤ → ℤ → M E ℤ
  unfolding schedule_slashed
  slash cons_addr power height slash_ratio = do
    val ← find_validator cons_addr
    total_slash_amount ← call (s.slash cons_addr power height slash_ratio)
    propagate val (λ op. schedule_slashed k op power height total_slash_amount slash_ratio)
    pure total_slash_amount

  -- The arguments are passed in the order of this method.
  unfoldable pub slash_with_infraction_reason : Bytes → ℤ → ℤ → ℤ → M E ℤ
  unfolding slash
  slash_with_infraction_reason cons_addr infraction_height power slash_factor =
      slash cons_addr infraction_height power slash_factor

  unfoldable pub jail : Bytes → M E Unit
  unfolding schedule_jailed
  jail cons_addr = do
    val ← find_validator cons_addr
    propagate val (schedule_jailed k)
    call (s.jail cons_addr)

  unfoldable pub unjail : Bytes → M E Unit
  unfolding schedule_unjailed
  unjail cons_addr = do
    val ← find_validator cons_addr
    propagate val (schedule_unjailed k)
    call (s.unjail cons_addr)
