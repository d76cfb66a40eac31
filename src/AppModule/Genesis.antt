-- ===== src/AppModule/Genesis.antt =====
-- The genesis calls of x/meshsecurity/module.go, and a chain that starts with them.
use research_cosmos.Prelude.{◌+◌, ◌^◌, ◌<◌, ◌≡◌, refl, true, none, [], arith}
use research_cosmos.Prelude.Int.{pos, ◌≤ℤ◌}
use research_cosmos.Bytes.{Bytes}
use research_cosmos.Types.{ok, Params}
use research_cosmos.Sdk.{Sdk, Laws}
use research_cosmos.Ctx.{World}
use research_cosmos.Keeper.{Keeper}
use research_cosmos.Keeper.Params.{default_params, validate_basic}
use research_cosmos.Keeper.Params.Stored.{export_genesis-init_genesis}
use research_cosmos.Keeper.Adapter.{SlashingTarget}
use research_cosmos.Keeper.Genesis.{init_genesis-IsSafe}
use research_cosmos.Keeper.Safe.{IsSafe}
use research_cosmos.Keeper.Steps.{SudoReaches}
use research_cosmos.Abci.{default_execution_response_handler}
use research_cosmos.Abci.Failures.{default_silent}
use research_cosmos.Abci.Blocks.{Chain, Chain-IsSafe, end_blocker-returns}
use research_cosmos.AppModule.{
  JsonCodec, default_genesis, validate_genesis_state, validate_genesis, new_app_module_x,
  new_app_module, app_init_genesis, app_export_genesis, end_block,
}

-- Documented behaviour of the codec: what it marshals it reads back.
abbrev pub IsCodec : JsonCodec → Type 0
IsCodec cdc =
    (p : Params) → (bz : Bytes) × (cdc.marshal_json p ≡ ok bz) × (cdc.unmarshal_json bz ≡ ok p)

module _ (sdk : Sdk) (laws : Laws sdk) (denom : Bytes) (valid : sdk.valid_denom denom ≡ true) where
  abbrev defaults : Params
  defaults = record {
    total_contracts_max_cap = record { denom = denom; amount = pos 10_000_000_000 };
    epoch_length = 1_000;
    max_gas_end_blocker = 500_000;
  }

  default_params_ok : default_params sdk denom ≡ ok defaults
  unfolding default_params
  default_params_ok =
      ground (arith, laws.new_coin_ok denom (pos 10_000_000_000) valid (omega arith))

  validate_basic-defaults : validate_basic sdk defaults ≡ none
  unfolding validate_basic
  validate_basic-defaults =
      ground (arith, laws.validate_coin_ok denom (pos 10_000_000_000) valid (omega arith))

module _ (cdc : JsonCodec) (codec : IsCodec cdc) where
  -- With a codec that reads back what it marshals and the laws of the SDK: for a valid denomination
  -- `DefaultGenesis` returns bytes, and `ValidateGenesis` accepts them.
  pub validate_genesis-default_genesis :
      (sdk : Sdk)
      → Laws sdk
      → (denom : Bytes) → sdk.valid_denom denom ≡ true
      → (bz : Bytes) × (default_genesis cdc sdk denom ≡ ok bz)
        × (validate_genesis cdc sdk bz ≡ ok tt)
  unfolding default_genesis validate_genesis validate_genesis_state
  validate_genesis-default_genesis sdk laws denom valid =
      let (bz, m, u) = codec (defaults sdk laws denom valid) in
      (
        bz,
        rw (default_params_ok sdk laws denom valid, m) refl,
        rw (u, validate_basic-defaults sdk laws denom valid) refl,
      )

  module _ {E : Type 0} (k : Keeper E) (laws : Laws k.sdk) where
    -- With a codec that reads back what it marshals and the laws of the SDK: genesis bytes with
    -- params of 32 bits are initialised without validator updates, whatever was stored before, and
    -- the bytes that are exported then decode to the same params.
    pub app_export_genesis-app_init_genesis :
        (gs : Bytes) (p : Params) (w : World E)
        → cdc.unmarshal_json gs ≡ ok p
        → p.epoch_length < 2 ^ 32
        → p.max_gas_end_blocker < 2 ^ 32
        → let am = new_app_module k in
          (v : World E) × (bz : Bytes) × (app_init_genesis am cdc gs w ≡ (ok [], v))
          × (app_export_genesis am cdc v ≡ (ok bz, v))
          × (cdc.unmarshal_json bz ≡ ok p)
    unfolding new_app_module new_app_module_x app_init_genesis app_export_genesis
    app_export_genesis-app_init_genesis gs p w decoded epoch gas =
        let (v, done, exported) = export_genesis-init_genesis k laws p w epoch gas in
        let (bz, m, u) = codec p in (v, bz, rw (decoded, done) refl, rw (exported, m) refl, u)

module _ {E : Type 0} (k : Keeper E) (s : SlashingTarget E) (laws : Laws k.sdk)
    (reaches : SudoReaches k s) (cdc : JsonCodec) where
  -- With the laws of the SDK and contracts that call this module only in the modelled ways: on an
  -- empty store, from genesis bytes with params of 32 bits and a total cap of at least zero, after
  -- any chain of calls, end blockers and new blocks, `EndBlock` of a module with the default
  -- handler returns no validator updates, no error and no panic, and leaves a safe store; the
  -- height must fit in 64 bits together with the epoch length.
  pub end_block_after_genesis :
      (gs : Bytes) (p : Params) (w v : World E)
      → cdc.unmarshal_json gs ≡ ok p
      → p.epoch_length < 2 ^ 32
      → p.max_gas_end_blocker < 2 ^ 32
      → pos 0 ≤ℤ p.total_contracts_max_cap.amount
      → w.store ≡ []
      → let am = new_app_module k in
        Chain k s default_execution_response_handler (app_init_genesis am cdc gs w).1 v
        → v.height + p.epoch_length < 2 ^ 64
        → (u : World E) × (end_block am v ≡ (ok [], u)) × IsSafe k.sdk p u.store
  unfolding new_app_module new_app_module_x app_init_genesis end_block
  end_block_after_genesis gs p w v decoded epoch gas nonneg empty chain fits =
      let (g, done, safe) = init_genesis-IsSafe k laws p w empty epoch gas nonneg in
      let began : IsSafe k.sdk p (app_init_genesis (new_app_module k) cdc gs w).1.store =
        rw (decoded, done) safe in
      let now =
        Chain-IsSafe k p s laws reaches default_execution_response_handler default_silent began
          chain in
      let (u, ended, kept, height) = end_blocker-returns k p s laws reaches v now fits in
      (u, rw ended refl, kept)
