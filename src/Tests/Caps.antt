-- ===== src/Tests/Caps.antt =====
-- The limits and the params at concrete inputs.
use research_cosmos.Prelude.{ℕ, ◌≡◌, ◌≢◌, refl, true, [], ◌∷◌, arith}
use research_cosmos.Prelude.Int.{pos, ◌+ℤ◌}
use research_cosmos.Bytes.{Bytes, equal, before, strip_prefix}
use research_cosmos.KvStore.{get, entries}
use research_cosmos.Types.{ok, Coin}
use research_cosmos.Ctx.{World}
use research_cosmos.Sdk.{fits_int}
use research_cosmos.Keeper.Params.{get_total_contracts_max_cap}
use research_cosmos.Keeper.Params.Stored.{get_params_ok}
use research_cosmos.Keeper.Caps.{
  set_max_cap_limit, get_max_cap_limit, get_total_delegated, has_max_cap_limit,
}
use research_cosmos.Keeper.Caps.Total.{IsWithinTotal, store_cap, set_max_cap_limit_branches}
use research_cosmos.Keeper.Caps.Limit.{get_max_cap_limit-set_max_cap_limit}
use research_cosmos.Tests.Samples.{
  sample_keeper, sample-KeeperLaws, sample_sdk, sample_params, sample_store, sample_world,
  sample_contract, sample_denom,
}

pub sample_within : IsWithinTotal sample_sdk sample_params sample_store
unfolding entries strip_prefix before get equal ◌+ℤ◌
sample_within = record {
  sorted = ((refl, (refl, (refl, tt))), ((refl, (refl, tt)), ((refl, tt), (tt, tt))));
  readable = ((pos 40, refl), tt);
  params = refl;
  within = omega arith;
}

-- 60 of the sample's denomination: with no other contract the total of 100 is kept.
abbrev sample_coin : Coin
sample_coin = record { denom = sample_denom; amount = pos 60 }

abbrev stored_world : World ℕ
stored_world = store_cap sample_contract sample_coin (0 ∷ 60 ∷ []) sample_world

sample_set :
    set_max_cap_limit sample_keeper sample_contract sample_coin sample_world ≡ (ok tt, stored_world)
unfolding set_max_cap_limit get_total_contracts_max_cap equal entries strip_prefix get ◌+ℤ◌ fits_int
sample_set = refl

set_max_cap_limit_branches_example :
    set_max_cap_limit sample_keeper sample_contract sample_coin sample_world ≡ (ok tt, stored_world)
unfolding equal entries strip_prefix ◌+ℤ◌ fits_int
set_max_cap_limit_branches_example =
    set_max_cap_limit_branches sample_keeper sample-KeeperLaws.sdk_laws sample_contract sample_coin
      sample_world sample_within.readable
      (get_params_ok sample_keeper sample_params sample_world sample_within.params) refl
      (omega arith, tt) (omega arith)

get_max_cap_limit-set_max_cap_limit_example :
    (has_max_cap_limit sample_keeper sample_contract stored_world ≡ (ok true, stored_world))
    × (get_max_cap_limit sample_keeper sample_contract stored_world
        ≡ (ok sample_coin, stored_world))
    × ((d : Bytes)
        → d ≢ sample_contract
        → (get_max_cap_limit sample_keeper d stored_world).0
          ≡ (get_max_cap_limit sample_keeper d sample_world).0)
    × ((d : Bytes)
        → (get_total_delegated sample_keeper d stored_world).0
          ≡ (get_total_delegated sample_keeper d sample_world).0)
get_max_cap_limit-set_max_cap_limit_example =
    get_max_cap_limit-set_max_cap_limit sample_keeper sample-KeeperLaws sample_contract sample_coin
      sample_world stored_world sample_params sample_within (omega arith) sample_set
