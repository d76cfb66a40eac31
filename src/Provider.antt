-- ===== src/Provider.antt =====
-- x/meshsecurityprovider: the keeper, the message server and the genesis of the provider module.
-- `types.Params` has no field.
pub mod Genesis
pub mod AppModule
pub mod Client
use research_cosmos.Prelude.{not, Option, none, some, [], ◌∷◌}
use research_cosmos.Bytes.{Bytes, equal}
use research_cosmos.KvStore.{get, set}
use research_cosmos.Types.{Error, Outcome, ok, err, panic, invalid_address, invalid_signer}
use research_cosmos.Ctx.{World, M, ◌>>=◌, ◌>>◌, pure, lift, modify, check, fail_if, or_panic}

-- `types.Params`, a struct with no field, and `types.GenesisState`
pub data ProviderParams : Type 0 where
  no_fields : ProviderParams

abbrev pub provider_params_key : Bytes
provider_params_key = 0x2 ∷ []

-- The codec and the authority of the provider's `Keeper`.
pub record ProviderKeeper : Type 0 where
  pub marshal : ProviderParams → Outcome Bytes
  pub unmarshal : Bytes → Option ProviderParams
  pub acc_address_from_bech32 : Bytes → Option Bytes
  pub authority : Bytes

-- `Params.Validate` and `GenesisState.Validate`
unfoldable pub validate_params : ProviderParams → Option Error
validate_params p = none

module _ {E : Type 0} (k : ProviderKeeper) where
  unfoldable pub set_provider_params : ProviderParams → M E Unit
  unfolding validate_params
  set_provider_params params = do
    check (validate_params params)
    bz ← lift (k.marshal params)
    modify (λ w. record w { store = set provider_params_key bz w.store })

  abbrev pub decode_provider_params : Option Bytes → M E ProviderParams
  decode_provider_params none = pure no_fields
  decode_provider_params (some bz) = or_panic (k.unmarshal bz)

  unfoldable pub get_provider_params : M E ProviderParams
  get_provider_params w = decode_provider_params (get provider_params_key w.store) w

  -- `InitGenesis` panics for an invalid state, and drops the error of `SetParams`.
  abbrev pub drop_error : Outcome Unit × World E → Outcome (Unit {0}) × World E
  drop_error (ok u, w) = (ok tt, w)
  drop_error (err e, w) = (ok tt, w)
  drop_error (panic, w) = (panic, w)

  abbrev pub init_valid : Option Error → ProviderParams → M E (Unit {0})
  unfolding set_provider_params
  init_valid (some e) params w = (panic, w)
  init_valid none params w = drop_error (set_provider_params params w)

  unfoldable pub init_provider_genesis : ProviderParams → M E (Unit {0})
  unfolding init_valid
  init_provider_genesis params = init_valid (validate_params params) params

  -- `msgServer.UpdateParams`, by the authority and the params of the message
  unfoldable pub update_params : Bytes → ProviderParams → M E Unit
  unfolding set_provider_params
  update_params msg_authority params = do
    fail_if (not (equal k.authority msg_authority)) invalid_signer
    set_provider_params params

-- `MsgTest.ValidateBasic`
unfoldable pub validate_test_msg : ProviderKeeper → Bytes → Option Error
validate_test_msg k sender = elim (k.acc_address_from_bech32 sender) [
  | none ↦ some invalid_address
  | some a ↦ none
]
