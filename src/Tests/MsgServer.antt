-- ===== src/Tests/MsgServer.antt =====
-- The handler of `MsgSetVirtualStakingMaxCap` at concrete inputs.
use research_cosmos.Prelude.{◌≡◌, refl, [], ◌∷◌, arith}
use research_cosmos.Prelude.Int.{◌+ℤ◌}
use research_cosmos.Bytes.{equal, from_big_endian, strip_prefix}
use research_cosmos.KvStore.{entries}
use research_cosmos.Types.{ok, task_handle_epoch}
use research_cosmos.Sdk.{fits_int}
use research_cosmos.Keeper.Caps.Total.{store_cap}
use research_cosmos.Keeper.Scheduler.{is_repeat, split_task_key}
use research_cosmos.Keeper.Scheduler.Refines.{one_shot, run}
use research_cosmos.Keeper.MsgServer.{validate_basic, set_virtual_staking_max_cap}
use research_cosmos.Keeper.MsgServer.Tasks.{set_virtual_staking_max_cap_lem}
use research_cosmos.Tests.Samples.{
  sample_keeper, sample-Laws, sample_params, sample_world, sample_contract,
}
use research_cosmos.Tests.Blocks.{sample_request, sample-IsSafe}

-- The contract has a repeating task, so it gets a one-shot task in this block.
set_virtual_staking_max_cap_lem_example :
    set_virtual_staking_max_cap sample_keeper sample_request sample_world ≡ (
      ok tt,
      run
          (one_shot task_handle_epoch sample_contract 20 ∷ [])
          (store_cap sample_contract sample_request.max_cap (0 ∷ 60 ∷ []) sample_world),
    )
unfolding equal from_big_endian strip_prefix entries is_repeat split_task_key validate_basic ◌+ℤ◌
    fits_int
set_virtual_staking_max_cap_lem_example =
    set_virtual_staking_max_cap_lem sample_keeper sample-Laws sample_contract sample_world
      sample_params sample_request (0 ∷ 60 ∷ []) sample-IsSafe (omega arith) (omega arith, tt) refl
      refl refl refl
