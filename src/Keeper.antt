-- ===== src/Keeper.antt =====
-- x/meshsecurity/types/expected_keepers.go and the `Keeper` struct of x/meshsecurity/keeper/keeper.go.
-- The other modules' keepers are records of operations on their own side of the context.
pub mod Writes
pub mod Safe
pub mod Genesis
pub mod Steps
pub mod Params
pub mod Caps
pub mod Scheduler
pub mod Stake
pub mod Ledger
pub mod Piped
pub mod Valset
pub mod Adapter
pub mod Hooks
pub mod Messages
pub mod MsgServer
pub mod Queries
use research_cosmos.Prelude.{true, ◌≡◌, ℕ, Bool, Option, List}
use research_cosmos.Prelude.Int.{ℤ}
use research_cosmos.Bytes.{Bytes}
use research_cosmos.Types.{Coin, Validator}
use research_cosmos.Sdk.{Sdk, Laws}
use research_cosmos.Ctx.{Env, Call, M}

-- `types.SDKBankKeeper`, by the module or account names and the coins
pub record SdkBankKeeper (E : Type 0) : Type 0 where
  pub mint_coins : Bytes → List Coin → Call E Unit
  pub burn_coins : Bytes → List Coin → Call E Unit
  pub send_coins_from_module_to_account : Bytes → Bytes → List Coin → Call E Unit
  pub send_coins_from_account_to_module : Bytes → Bytes → List Coin → Call E Unit
  pub undelegate_coins_from_module_to_account : Bytes → Bytes → List Coin → Call E Unit

-- `types.XBankKeeper`
pub record XBankKeeper (E : Type 0) : Type 0 where
  pub base : SdkBankKeeper E
  pub open base use *
  pub add_supply_offset : Bytes → ℤ → Call E Unit

-- `types.SDKStakingKeeper`; shares are `sdk.Dec` values
pub record SdkStakingKeeper (E : Type 0) : Type 0 where
  pub bond_denom : Env E → Bytes
  pub get_validator : Env E → Bytes → Option Validator
  pub get_validator_by_cons_addr : Env E → Bytes → Option Validator
  pub get_delegation : Env E → Bytes → Bytes → Option ℤ
  pub delegate : Bytes → ℤ → Validator → Call E ℤ
  pub validate_unbond_amount : Bytes → Bytes → ℤ → Call E ℤ
  pub unbond : Bytes → Bytes → ℤ → Call E ℤ

-- `types.XStakingKeeper`
pub record XStakingKeeper (E : Type 0) : Type 0 where
  pub base : SdkStakingKeeper E
  pub open base use *
  pub instant_undelegate : Bytes → Bytes → ℤ → Call E (List Coin)

-- `types.WasmKeeper`; a sudo call runs a contract, which may call back into this module
pub record WasmKeeper (E : Type 0) : Type 0 where
  pub sudo : Bytes → Bytes → M E Unit
  pub has_contract_info : Env E → Bytes → Bool

-- `Keeper`; the store keys are the fields `store` and `mem` of the context
pub record Keeper (E : Type 0) : Type 0 where
  pub sdk : Sdk
  pub bank : XBankKeeper E
  pub staking : XStakingKeeper E
  pub wasm : WasmKeeper E
  pub authority : Bytes

-- Documented behaviour of the foreign functions and of the staking params, whose bond denomination
-- is validated.
pub record KeeperLaws {E : Type 0} (k : Keeper E) : Type 0 where
  pub sdk_laws : Laws k.sdk
  pub open sdk_laws use *
  pub bond_denom_valid : (v : Env E) → k.sdk.valid_denom (k.staking.bond_denom v) ≡ true
