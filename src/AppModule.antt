-- ===== src/AppModule.antt =====
-- x/meshsecurity/module.go and types/genesis.go: what the SDK's module manager calls.
pub mod Genesis
use research_cosmos.Prelude.{ℕ, Option, none, some, List, []}
use research_cosmos.Bytes.{Bytes}
use research_cosmos.Types.{Error, Outcome, ok, err, panic, Params}
use research_cosmos.Messages.{MsgSetVirtualStakingMaxCap}
use research_cosmos.Sdk.{Sdk}
use research_cosmos.Ctx.{World, M, ◌>>=◌, ◌>>◌, pure, must}
use research_cosmos.Keeper.{Keeper}
use research_cosmos.Keeper.Params.{default_params, validate_basic, init_genesis, export_genesis}
use research_cosmos.Keeper.MsgServer.{set_virtual_staking_max_cap}
use research_cosmos.Abci.{ResponseHandler, default_execution_response_handler, end_blocker}

-- The JSON codec of the genesis state, which has the params as its only field.
pub record JsonCodec : Type 0 where
  pub marshal_json : Params → Outcome Bytes
  pub unmarshal_json : Bytes → Outcome Params

-- `abci.ValidatorUpdate`: a public key and a power
pub record ValidatorUpdate : Type 0 where
  pub pub_key : Bytes
  pub power : ℕ

-- `AppModule`; its own codec is only passed on to the queries
pub record AppModule (E : Type 0) : Type 0 where
  pub k : Keeper E
  pub async_task_rsp_handler : ResponseHandler E

-- A `Must` function: an error panics.
abbrev pub or_die : {A : Type 0} → Outcome A → Outcome A
or_die (ok a) = ok a
or_die (err e) = panic
or_die panic = panic

abbrev pub and_then : {A B : Type 0} → Outcome A → (A → Outcome B) → Outcome B
and_then (ok a) f = f a
and_then (err e) f = err e
and_then panic f = panic

-- `if err != nil { return err }` at the end of a function
abbrev pub succeed_unless : Option Error → Outcome Unit
succeed_unless none = ok tt
succeed_unless (some e) = err e

module _ (cdc : JsonCodec) (sdk : Sdk) where
  -- `AppModuleBasic.DefaultGenesis`, by the default bond denomination
  unfoldable pub default_genesis : Bytes → Outcome Bytes
  unfolding default_params
  default_genesis default_bond_denom =
      and_then (default_params sdk default_bond_denom) (λ params. or_die (cdc.marshal_json params))

  -- `types.ValidateGenesis`
  unfoldable pub validate_genesis_state : Params → Option Error
  unfolding validate_basic
  validate_genesis_state gs_params = validate_basic sdk gs_params

  -- `AppModuleBasic.ValidateGenesis`
  unfoldable pub validate_genesis : Bytes → Outcome Unit
  unfolding validate_genesis_state
  validate_genesis bz =
      and_then (cdc.unmarshal_json bz) (λ gs. succeed_unless (validate_genesis_state gs))

module _ {E : Type 0} where
  unfoldable pub new_app_module_x : Keeper E → ResponseHandler E → AppModule E
  new_app_module_x k h = record { k = k; async_task_rsp_handler = h }

  unfoldable pub new_app_module : Keeper E → AppModule E
  unfolding new_app_module_x
  new_app_module k = new_app_module_x k default_execution_response_handler

  unfoldable pub set_async_task_rsp_handler : AppModule E → ResponseHandler E → AppModule E
  set_async_task_rsp_handler am h = record am { async_task_rsp_handler = h }

  -- The message server that `RegisterServices` registers.
  unfoldable pub handle_message : AppModule E → MsgSetVirtualStakingMaxCap → M E Unit
  handle_message am req = set_virtual_staking_max_cap am.k req

  unfoldable pub app_init_genesis : AppModule E → JsonCodec → Bytes → M E (List ValidatorUpdate)
  unfolding init_genesis
  app_init_genesis am cdc bz = do gs ← must (cdc.unmarshal_json bz); init_genesis am.k gs; pure []

  unfoldable pub app_export_genesis : AppModule E → JsonCodec → M E Bytes
  unfolding export_genesis
  app_export_genesis am cdc = do gs ← export_genesis am.k; must (cdc.marshal_json gs)

  unfoldable pub begin_block : AppModule E → M E Unit
  begin_block am = pure tt

  unfoldable pub end_block : AppModule E → M E (List ValidatorUpdate)
  unfolding end_blocker
  end_block am = do end_blocker am.k am.async_task_rsp_handler; pure []

abbrev pub consensus_version : ℕ
consensus_version = 1
