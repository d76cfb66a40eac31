-- ===== src/Keeper/Queries.antt =====
-- x/meshsecurity/keeper/querier.go and query_plugin.go: gRPC queries and the queries of contracts.
pub mod Listing
pub mod Shown
use research_cosmos.Prelude.{Bool, true, false, Option, none, some, List, [], ◌∷◌, ◌++◌}
use research_cosmos.Prelude.Int.{ℤ}
use research_cosmos.Bytes.{Bytes}
use research_cosmos.Types.{Coin, Params, invalid_address, bad_bech32, bad_json, unsupported_request}
use research_cosmos.Messages.{
  VirtualStakeQuery, QueryResponse, bond_status_response, slash_ratio_response,
}
use research_cosmos.Sdk.{Sdk}
use research_cosmos.Ctx.{World, M, ◌>>=◌, pure, fail, lift, gets, or_fail}
use research_cosmos.Keeper.{Keeper}
use research_cosmos.Keeper.Params.{get_params}
use research_cosmos.Keeper.Caps.{
  bond_denom, get_max_cap_limit, get_total_delegated, iterate_max_cap_limit,
}

-- `QueryVirtualStakingMaxCapLimitResponse`
pub record MaxCapLimitResponse : Type 0 where
  pub cap : Coin
  pub delegated : Coin

-- `VirtualStakingMaxCapInfo`
pub record MaxCapInfo : Type 0 where
  pub contract : Bytes
  pub delegated : Coin
  pub cap : Coin

module _ {E : Type 0} (k : Keeper E) where
  unfoldable pub virtual_staking_max_cap_limit : Bytes → M E MaxCapLimitResponse
  unfolding get_max_cap_limit get_total_delegated
  virtual_staking_max_cap_limit address = do
    acc ← or_fail (k.sdk.acc_address_from_bech32 address) bad_bech32
    cap ← get_max_cap_limit k acc
    delegated ← get_total_delegated k acc
    pure (record { cap = cap; delegated = delegated })

  abbrev pub append_info : List MaxCapInfo → Bytes → ℤ → M E (List MaxCapInfo × Bool)
  append_info infos addr max_cap = do
    delegated ← get_total_delegated k addr
    denom ← bond_denom k
    cap ← lift (k.sdk.new_coin denom max_cap)
    let info : MaxCapInfo = record {
      contract = k.sdk.acc_string addr;
      delegated = delegated;
      cap = cap;
    }
    pure (infos ++ info ∷ [], false)

  unfoldable pub virtual_staking_max_cap_limits : M E (List MaxCapInfo)
  unfolding iterate_max_cap_limit
  virtual_staking_max_cap_limits = iterate_max_cap_limit k append_info []

  unfoldable pub params : M E Params
  unfolding get_params
  params = get_params k

-- `viewKeeper`, `slashingKeeper` and the next handler in the chain
pub record QuerySource (E : Type 0) : Type 0 where
  pub sdk : Sdk
  pub get_max_cap_limit : Bytes → M E Coin
  pub get_total_delegated : Bytes → M E Coin
  pub slash_fraction_double_sign : World E → ℤ
  pub slash_fraction_downtime : World E → ℤ
  pub next : Bytes → Option Bytes → M E Bytes

module _ {E : Type 0} (s : QuerySource E) where
  abbrev pub query_response : Option Bytes → Bool → M E QueryResponse
  query_response (some contract) ratio = do
    contract_addr ← or_fail (s.sdk.acc_address_from_bech32 contract) invalid_address
    max_cap ← s.get_max_cap_limit contract_addr
    delegated ← s.get_total_delegated contract_addr
    pure (
        bond_status_response (s.sdk.convert_sdk_coin_to_wasm_coin max_cap)
          (s.sdk.convert_sdk_coin_to_wasm_coin delegated))
  query_response none true = do
    downtime ← gets s.slash_fraction_downtime
    double_sign ← gets s.slash_fraction_double_sign
    pure (slash_ratio_response (s.sdk.dec_string downtime) (s.sdk.dec_string double_sign))
  query_response none false = fail unsupported_request

  abbrev pub answer_virtual_stake : Bytes → Bytes → Option VirtualStakeQuery → M E Bytes
  answer_virtual_stake caller custom none = s.next caller (some custom)
  answer_virtual_stake caller custom (some query) = do
    res ← query_response query.bond_status query.slash_ratio
    lift (s.sdk.marshal_response res)

  -- `ChainedCustomQuerier`, by the request's custom bytes
  unfoldable pub chained_custom_querier : Bytes → Option Bytes → M E Bytes
  chained_custom_querier caller none = s.next caller none
  chained_custom_querier caller (some custom) = do
    contract_query ← or_fail (s.sdk.unmarshal_custom_query custom) bad_json
    answer_virtual_stake caller custom contract_query.virtual_stake

-- `slashingKeeper`
pub record SlashFractions (E : Type 0) : Type 0 where
  pub double_sign : World E → ℤ
  pub downtime : World E → ℤ

-- `NewQueryDecorator`: the keeper's reads before the next handler
unfoldable pub new_query_decorator :
    {E : Type 0}
    → Keeper E
    → SlashFractions E
    → (Bytes → Option Bytes → M E Bytes)
    → Bytes
    → Option Bytes
    → M E Bytes
unfolding chained_custom_querier get_max_cap_limit get_total_delegated
new_query_decorator k sk next = chained_custom_querier (record {
  sdk = k.sdk;
  get_max_cap_limit = get_max_cap_limit k;
  get_total_delegated = get_total_delegated k;
  slash_fraction_double_sign = sk.double_sign;
  slash_fraction_downtime = sk.downtime;
  next = next;
})
