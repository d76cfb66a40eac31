-- ===== src/Tests/Messages.antt =====
-- A bond of a contract with a stored limit.
use research_cosmos.Prelude.{◌≡◌, true, false, refl, some, [], ◌∷◌, arith}
use research_cosmos.Prelude.Int.{pos, ◌+ℤ◌, ◌-ℤ◌}
use research_cosmos.Bytes.{equal}
use research_cosmos.KvStore.{get, has, set}
use research_cosmos.Types.{ok, instant_delegate}
use research_cosmos.Messages.{CosmosMsg}
use research_cosmos.Keys.{build_max_cap_limit_key, build_total_delegated_amount_key}
use research_cosmos.Keeper.Caps.{get_total_delegated, get_max_cap_limit, has_max_cap_limit}
use research_cosmos.Keeper.Caps.Limit.{read_int}
use research_cosmos.Keeper.Stake.{positive_amount, delegate}
use research_cosmos.Keeper.Messages.{dispatch_msg, new_default_custom_msg_handler, handle_bond_msg}
use research_cosmos.Keeper.Messages.Accounted.{Accounted, OnlyTotal, dispatch_msg-Accounted}
use research_cosmos.Tests.Samples.{
  sample_keeper, sample-KeeperLaws, sample_sdk, sample_world, sample_contract, sample_denom,
}
use research_cosmos.Tests.Stake.{raised, sample_total, sample_limit}

abbrev pub bond_msg : CosmosMsg
bond_msg = record { custom = some (0 ∷ 0 ∷ 0 ∷ 0 ∷ []); stargate = false; staking = false }

bond_accepted :
    dispatch_msg
      (new_default_custom_msg_handler sample_keeper)
      sample_contract
      bond_msg
      sample_world
    ≡ (
      ok (
          instant_delegate
            (3 ∷ [])
            (record { denom = sample_denom; amount = pos 4 })
            sample_contract
          ∷ []),
      raised 14,
    )
unfolding dispatch_msg new_default_custom_msg_handler has_max_cap_limit has handle_bond_msg delegate
    get equal build_max_cap_limit_key build_total_delegated_amount_key ◌+ℤ◌ ◌-ℤ◌ set positive_amount
    get_total_delegated get_max_cap_limit
bond_accepted = refl

dispatch_msg-Accounted_example :
    (has (build_max_cap_limit_key sample_contract) sample_world.store ≡ true)
    × Accounted sample_sdk sample_contract
        (read_int sample_sdk
          (get (build_total_delegated_amount_key sample_contract) (raised 14).store))
        (pos 10)
        (pos 40)
        (instant_delegate (3 ∷ []) (record { denom = sample_denom; amount = pos 4 }) sample_contract
          ∷ [])
    × OnlyTotal sample_contract sample_world (raised 14)
dispatch_msg-Accounted_example =
    dispatch_msg-Accounted sample_keeper sample-KeeperLaws sample_contract (pos 10) (pos 40)
      sample_world (raised 14) sample_total sample_limit (omega arith) bond_msg
      (instant_delegate (3 ∷ []) (record { denom = sample_denom; amount = pos 4 }) sample_contract
        ∷ [])
      (omega arith) bond_accepted
