-- ===== src/Provider/AppModule.antt =====
-- x/meshsecurityprovider/module.go, types/genesis.go and types/params.go: what the SDK's module
-- manager calls.
use research_cosmos.Prelude.{List, []}
use research_cosmos.Bytes.{Bytes}
use research_cosmos.Types.{Outcome}
use research_cosmos.Ctx.{M, ◌>>=◌, ◌>>◌, pure, must}
use research_cosmos.AppModule.{ValidatorUpdate, or_die, and_then, succeed_unless}
use research_cosmos.Provider.{
  ProviderKeeper, ProviderParams, no_fields, validate_params, init_provider_genesis,
  get_provider_params,
}

-- The JSON codec of the genesis state, which has the params as its only field.
pub record ProviderJsonCodec : Type 0 where
  pub marshal_json : ProviderParams → Outcome Bytes
  pub unmarshal_json : Bytes → Outcome ProviderParams

-- `DefaultGenesis`: the struct with no field
abbrev pub default_provider_params : ProviderParams
default_provider_params = no_fields

module _ (cdc : ProviderJsonCodec) where
  unfoldable pub default_provider_genesis : Outcome Bytes
  default_provider_genesis = or_die (cdc.marshal_json default_provider_params)

  unfoldable pub validate_provider_genesis : Bytes → Outcome Unit
  unfolding validate_params
  validate_provider_genesis bz =
      and_then (cdc.unmarshal_json bz) (λ gs. succeed_unless (validate_params gs))

  module _ {E : Type 0} (k : ProviderKeeper) where
    unfoldable pub provider_app_init_genesis : Bytes → M E (List ValidatorUpdate)
    unfolding init_provider_genesis
    provider_app_init_genesis gs = do
      genesis_state ← must (cdc.unmarshal_json gs)
      init_provider_genesis k genesis_state
      pure []

    unfoldable pub provider_app_export_genesis : M E Bytes
    unfolding get_provider_params
    provider_app_export_genesis = do
      gen_state ← get_provider_params k
      must (cdc.marshal_json gen_state)

abbrev pub provider_end_block : {E : Type 0} → M E (List ValidatorUpdate)
provider_end_block = pure []
