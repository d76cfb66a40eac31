-- ===== src/Keeper/Genesis.antt =====
-- The state after the genesis of x/meshsecurity/keeper/genesis.go.
use research_cosmos.Prelude.{◌^◌, ◌<◌, ◌≡◌, refl, []}
use research_cosmos.Prelude.Int.{pos, ◌≤ℤ◌}
use research_cosmos.Bytes.{equal, strip_prefix}
use research_cosmos.KvStore.{set, entries, get}
use research_cosmos.Types.{ok, Params}
use research_cosmos.Sdk.{Laws}
use research_cosmos.Ctx.{World}
use research_cosmos.Keys.{params_key}
use research_cosmos.Keeper.{Keeper}
use research_cosmos.Keeper.Params.{set_params, init_genesis}
use research_cosmos.Keeper.Safe.{IsSafe}

module _ {E : Type 0} (k : Keeper E) (laws : Laws k.sdk) where
  -- With the laws of the SDK: on an empty store, genesis params with numbers of 32 bits and a total
  -- cap of at least zero are initialised without an error, and leave a safe store.
  pub init_genesis-IsSafe :
      (p : Params) (w : World E)
      → w.store ≡ []
      → p.epoch_length < 2 ^ 32
      → p.max_gas_end_blocker < 2 ^ 32
      → pos 0 ≤ℤ p.total_contracts_max_cap.amount
      → (v : World E) × (init_genesis k p w ≡ (ok tt, v)) × IsSafe k.sdk p v.store
  unfolding init_genesis set_params entries strip_prefix set get equal
  init_genesis-IsSafe p w empty epoch gas nonneg =
      let (bz, m, u) = laws.params_round_trip p epoch gas in
      let v : World E = record w { store = set params_key bz w.store } in
      (
        v,
        rw m refl,
        rw empty (record {
          caps = record { sorted = (tt, tt); readable = tt; params = u; within = nonneg };
          tasks = record { sorted = (tt, tt); tasks = λ tp. tt };
        }),
      )
