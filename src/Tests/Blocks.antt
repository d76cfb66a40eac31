-- ===== src/Tests/Blocks.antt =====
-- Sequences of scheduler calls, blocks and chains at concrete inputs.
use research_cosmos.Prelude.{
  All, ℕ, ◌≡◌, refl, sym, subst, false, none, List, [], ◌∷◌, ◌==◌, arith, inl, inr, Bool-cases,
}
use research_cosmos.Prelude.Int.{pos}
use research_cosmos.Bytes.{strip_prefix, big_endian}
use research_cosmos.KvStore.{get, entries}
use research_cosmos.Types.{ok, SchedulerTaskType, task_handle_epoch, task_valset_update}
use research_cosmos.Messages.{MsgSetVirtualStakingMaxCap}
use research_cosmos.Ctx.{World}
use research_cosmos.Keys.Scheduler.{task_key}
use research_cosmos.Keeper.Adapter.{SlashingTarget}
use research_cosmos.Keeper.MsgServer.{set_virtual_staking_max_cap}
use research_cosmos.Keeper.Safe.{IsSafe}
use research_cosmos.Keeper.Steps.{here, message}
use research_cosmos.Keeper.Scheduler.{delete_all_scheduled_tasks}
use research_cosmos.Keeper.Scheduler.Lookup.{schedule}
use research_cosmos.Keeper.Scheduler.Tasks.{IsTaskStore, IsTaskEntry}
use research_cosmos.Keeper.Scheduler.Removal.{AllRemoved, delete_all_scheduled_tasks_lem}
use research_cosmos.Keeper.Scheduler.Refines.{
  Tasks, TaskCall, one_shot, repeating, remove, remove_all, replay, run, flag, Shows, run-Shows,
}
use research_cosmos.Abci.{default_execution_response_handler, end_blocker}
use research_cosmos.Abci.Failures.{default_silent}
use research_cosmos.Abci.Blocks.{Chain, start, step, at_end, Chain-IsSafe, end_blocker-returns}
use research_cosmos.Tests.Samples.{
  sample_keeper, sample-Laws, sample_sdk, sample_params, sample_store, sample_world,
  sample_contract, sample_denom, tick,
}
use research_cosmos.Tests.Caps.{sample_within}

one_task : All IsTaskEntry (schedule 1 sample_store)
unfolding entries strip_prefix big_endian
one_task = ((20, 7 ∷ [], omega arith, refl), tt)

schedule_other : (tp : ℕ) → (tp == 1) ≡ false → schedule tp sample_store ≡ []
unfolding entries strip_prefix
schedule_other tp other = ground (arith, other)

sample-tasks : (tp : SchedulerTaskType) → All IsTaskEntry (schedule tp sample_store)
sample-tasks tp = elim (Bool-cases (tp == 1)) [
  | inl same ↦
      let e : 1 ≡ tp = ground arith in
      subst (λ (t : ℕ). All IsTaskEntry (schedule t sample_store)) e one_task
  | inr other ↦ subst (All IsTaskEntry) (sym (schedule_other tp other)) tt
]

pub sample-IsTaskStore : IsTaskStore sample_store
sample-IsTaskStore = record { sorted = sample_within.sorted; tasks = sample-tasks }

pub sample-IsSafe : IsSafe sample_sdk sample_params sample_store
sample-IsSafe = record { caps = sample_within; tasks = sample-IsTaskStore }

abbrev pub sample_target : SlashingTarget ℕ
sample_target = record {
  validator_by_cons_addr = λ v a. none;
  tombstone = λ a v. (ok tt, tick v);
  slash = λ a p h r v. (ok r, tick v);
  jail = λ a v. (ok tt, tick v);
  unjail = λ a v. (ok tt, tick v);
}

delete_all_scheduled_tasks_lem_example :
    AllRemoved task_handle_epoch sample_contract sample_world
      (delete_all_scheduled_tasks task_handle_epoch sample_contract sample_world)
delete_all_scheduled_tasks_lem_example =
    delete_all_scheduled_tasks_lem task_handle_epoch sample_contract sample_world (omega arith)
      sample-IsTaskStore

-- The sample's tasks, and calls that keep, add and remove some.
abbrev sample_tasks : Tasks
sample_tasks tp h c = flag (get (task_key tp h c) sample_store)

abbrev sample_calls : List TaskCall
sample_calls =
    one_shot task_handle_epoch sample_contract 20
    ∷ repeating task_valset_update sample_contract 25
    ∷ one_shot task_valset_update (8 ∷ []) 19
    ∷ remove_all task_handle_epoch sample_contract
    ∷ remove task_valset_update sample_contract 25
    ∷ []

run-Shows_example :
    IsTaskStore (run sample_calls sample_world).store
    × Shows (run sample_calls sample_world).store (replay 20 sample_calls sample_tasks)
run-Shows_example =
    run-Shows sample_calls sample_world sample_tasks
      (
        (omega arith, omega arith),
        (
          (omega arith, omega arith),
          ((omega arith, omega arith), (omega arith, ((omega arith, omega arith), tt))),
        ),
      )
      sample-IsTaskStore (λ tp h c fits. refl)

end_blocker-returns_example :
    (v : World ℕ) × (end_blocker sample_keeper default_execution_response_handler sample_world
      ≡ (ok tt, v))
    × IsSafe sample_sdk sample_params v.store
    × (v.height ≡ 20)
end_blocker-returns_example =
    end_blocker-returns sample_keeper sample_params sample_target sample-Laws (λ c bz w. here)
      sample_world sample-IsSafe (omega arith)

-- A limit of 60, a jailed validator, the end of the block and the next one.
abbrev pub sample_request : MsgSetVirtualStakingMaxCap
sample_request = record {
  authority = 8 ∷ [];
  contract = sample_contract;
  max_cap = record { denom = sample_denom; amount = pos 60 };
}

abbrev pub after_message : World ℕ
after_message = (set_virtual_staking_max_cap sample_keeper sample_request sample_world).1

abbrev pub after_block : World ℕ
after_block = (end_blocker sample_keeper default_execution_response_handler after_message).1

pub sample-Chain :
    Chain sample_keeper sample_target default_execution_response_handler sample_world after_block
sample-Chain = at_end (step start (message sample_request))

Chain-IsSafe_example : IsSafe sample_sdk sample_params after_block.store
Chain-IsSafe_example =
    Chain-IsSafe sample_keeper sample_params sample_target sample-Laws (λ c bz w. here)
      default_execution_response_handler default_silent sample-IsSafe sample-Chain
