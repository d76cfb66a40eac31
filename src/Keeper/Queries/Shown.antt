-- ===== src/Keeper/Queries/Shown.antt =====
-- The query of a contract's limit, by gRPC and by a contract, against the ledger of the store.
use research_cosmos.Prelude.{◌≡◌, refl, Option, some, Bool}
use research_cosmos.Bytes.{Bytes}
use research_cosmos.Types.{ok, Coin}
use research_cosmos.Messages.{bond_status_response}
use research_cosmos.Ctx.{World, M}
use research_cosmos.Keeper.{Keeper, KeeperLaws}
use research_cosmos.Keeper.Caps.Limit.{get_max_cap_limit_ok, get_total_delegated_ok}
use research_cosmos.Keeper.Ledger.{Ledger, IsLedgerOf}
use research_cosmos.Keeper.Queries.{
  SlashFractions, virtual_staking_max_cap_limit, chained_custom_querier, new_query_decorator,
}

module _ {E : Type 0} (k : Keeper E) (laws : KeeperLaws k) where
  pub grpc_shows_ledger :
      (w : World E) {l : Ledger} (address c : Bytes)
      → IsLedgerOf k.sdk w.store l
      → k.sdk.acc_address_from_bech32 address ≡ some c
      → virtual_staking_max_cap_limit k address w ≡ (
        ok (record {
          cap = record { denom = k.staking.bond_denom w.env; amount = l.limit c };
          delegated = record { denom = k.staking.bond_denom w.env; amount = l.total c };
        }),
        w,
      )
  unfolding virtual_staking_max_cap_limit
  grpc_shows_ledger w address c h found =
      rw
        (
          found,
          get_max_cap_limit_ok k laws c _ w (h.limits c) (h.limit_nonneg c),
          get_total_delegated_ok k laws c _ w (h.totals c) (h.total_nonneg c),
        )
        refl

module _ {E : Type 0} (k : Keeper E) (laws : KeeperLaws k) (sk : SlashFractions E)
    (next : Bytes → Option Bytes → M E Bytes) where
  -- With the laws of the SDK and a store that shows a ledger: for a text that is a contract's
  -- address, the gRPC query and the bond status query of any contract, once its JSON is read, leave
  -- the state alone and answer with the contract's limit and delegated total in that ledger, in the
  -- staking denomination.
  pub queries_show_ledger :
      (w : World E) {l : Ledger} (address c caller custom : Bytes) (ratio : Bool)
      → IsLedgerOf k.sdk w.store l
      → k.sdk.acc_address_from_bech32 address ≡ some c
      → k.sdk.unmarshal_custom_query custom
        ≡ some (record {
          virtual_stake = some (record { bond_status = some address; slash_ratio = ratio });
        })
      → let denom = k.staking.bond_denom w.env in
        let cap : Coin = record { denom = denom; amount = l.limit c } in
        let delegated : Coin = record { denom = denom; amount = l.total c } in
        let convert = k.sdk.convert_sdk_coin_to_wasm_coin in
        (virtual_staking_max_cap_limit k address w
          ≡ (ok (record { cap = cap; delegated = delegated }), w))
        × (new_query_decorator k sk next caller (some custom) w
            ≡ (k.sdk.marshal_response (bond_status_response (convert cap) (convert delegated)), w))
  unfolding new_query_decorator chained_custom_querier
  queries_show_ledger w address c caller custom ratio h found read =
      let cap = get_max_cap_limit_ok k laws c _ w (h.limits c) (h.limit_nonneg c) in
      let total = get_total_delegated_ok k laws c _ w (h.totals c) (h.total_nonneg c) in
      (grpc_shows_ledger k laws w address c h found, rw (read, found, cap, total) refl)
