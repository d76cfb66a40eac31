-- ===== src/Keeper/Params.antt =====
-- x/meshsecurity/keeper/params.go, types/params.go and the genesis functions.
pub mod Stored
use research_cosmos.Prelude.{ℕ, Option, none, some, ◌==◌, if◌then◌else◌, []}
use research_cosmos.Prelude.Int.{pos}
use research_cosmos.Bytes.{Bytes}
use research_cosmos.KvStore.{get, set}
use research_cosmos.Types.{Error, Outcome, ok, err, panic, invalid, Coin, Params}
use research_cosmos.Sdk.{Sdk}
use research_cosmos.Ctx.{World, M, ◌>>=◌, pure, lift, modify, or_panic}
use research_cosmos.Keys.{params_key}
use research_cosmos.Keeper.{Keeper}

-- the zero value of `types.Params`
abbrev pub no_params : Params
no_params = record {
  total_contracts_max_cap = record { denom = []; amount = pos 0 };
  epoch_length = 0;
  max_gas_end_blocker = 0;
}

module _ {E : Type 0} (k : Keeper E) where
  unfoldable pub set_params : Params → M E Unit
  set_params params = do
    bz ← lift (k.sdk.marshal_params params)
    modify (λ w. record w { store = set params_key bz w.store })

  -- what `store.Get(ParamsKey)` decodes to; `MustUnmarshal` panics
  abbrev pub decode_params : Option Bytes → M E Params
  decode_params none = pure no_params
  decode_params (some bz) = or_panic (k.sdk.unmarshal_params bz)

  unfoldable pub get_params : M E Params
  get_params w = decode_params (get params_key w.store) w

  unfoldable pub get_max_sudo_gas : M E ℕ
  unfolding get_params
  get_max_sudo_gas = do p ← get_params; pure p.max_gas_end_blocker

  unfoldable pub get_rebalance_epoch_length : M E ℕ
  unfolding get_params
  get_rebalance_epoch_length = do p ← get_params; pure p.epoch_length

  unfoldable pub get_total_contracts_max_cap : M E Coin
  unfolding get_params
  get_total_contracts_max_cap = do p ← get_params; pure p.total_contracts_max_cap

  -- `InitGenesis`; `ExportGenesis` returns the stored params
  abbrev panic_on_error : Outcome Unit × World E → Outcome Unit × World E
  panic_on_error (ok u, w) = (ok u, w)
  panic_on_error (err e, w) = (panic, w)
  panic_on_error (panic, w) = (panic, w)

  unfoldable pub init_genesis : Params → M E Unit
  unfolding set_params
  init_genesis data_params w = panic_on_error (set_params data_params w)

  unfoldable pub export_genesis : M E Params
  unfolding get_params
  export_genesis = get_params

-- `DefaultParams`; `sdk.NewCoin` panics for an invalid denomination
unfoldable pub default_params : Sdk → (denom : Bytes) → Outcome Params
default_params sdk denom = elim (sdk.new_coin denom (pos 10_000_000_000)) [
  | ok coin ↦ ok (record {
    total_contracts_max_cap = coin;
    epoch_length = 1_000;
    max_gas_end_blocker = 500_000;
  })
  | err e ↦ err e
  | panic ↦ panic
]

-- `Params.ValidateBasic`, which `ValidateGenesis` calls
unfoldable pub validate_basic : Sdk → Params → Option Error
validate_basic sdk p = elim (sdk.validate_coin p.total_contracts_max_cap) [
  | some e ↦ some e
  | none ↦
      if p.epoch_length == 0
      then some invalid
      else if p.max_gas_end_blocker == 0
      then some invalid
      else none
]
