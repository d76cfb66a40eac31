-- ===== src/Tests/Scheduler.antt =====
-- The scheduler at concrete inputs.
use research_cosmos.Prelude.{
  All, ℕ, ◌<◌, ◌≡◌, ◌≢◌, leb, not, ◌&&◌, ◌==◌, if◌then◌else◌, refl, true, some, none, List, [], ◌∷◌,
  map, arith,
}
use research_cosmos.Bytes.{Bytes, equal, strip_prefix, from_big_endian}
use research_cosmos.KvStore.{get, entries}
use research_cosmos.Types.{ok, err, foreign, task_handle_epoch}
use research_cosmos.Ctx.{M}
use research_cosmos.Keys.Scheduler.{task_key}
use research_cosmos.Keeper.Params.Stored.{HasParams}
use research_cosmos.Keeper.Scheduler.{
  is_repeat, split_task_key, has_scheduled_task, get_next_scheduled_task_height,
}
use research_cosmos.Keeper.Scheduler.Exec.{ExecResult, exec_task, exec_scheduled_tasks}
use research_cosmos.Keeper.Scheduler.Lookup.{
  IsSchedule, schedule, has_scheduled_task_lem, get_next_scheduled_task_height_lem,
}
use research_cosmos.Keeper.Scheduler.Due.{IsExecutor, next_run}
use research_cosmos.Keeper.Scheduler.Due.Cleared.{repeats_due, exec_scheduled_tasks-cleared}
use research_cosmos.Keeper.Scheduler.Due.Isolation.{exec_task_failure, exec_task_reschedules}
use research_cosmos.Keeper.Scheduler.Due.Order.{IsScheduled, Splits, exec_scheduled_tasks-due}
use research_cosmos.Abci.{default_execution_response_handler, rsp_handler}
use research_cosmos.Abci.Failures.{rsp_handler-exec_scheduled_tasks}
use research_cosmos.Tests.Blocks.{sample-IsTaskStore}
use research_cosmos.Tests.Samples.{
  sample_keeper, sample_sdk, sample_params, sample_world, sample_contract,
}

-- A callback that emits nothing, clears the memory store and then fails.
abbrev sample_callback : Bytes → M ℕ Unit
sample_callback c w = (err (foreign 1), record w { mem = [] })

sample-IsExecutor : IsExecutor sample_keeper sample_params sample_callback
sample-IsExecutor = record { keeps_height = λ c w. refl; keeps_params = λ c w h. h }

sample_has_params : HasParams sample_sdk sample_params sample_world.store
unfolding get equal
sample_has_params = refl

sample-Splits : Splits (schedule task_handle_epoch sample_world.store)
unfolding entries strip_prefix split_task_key from_big_endian
sample-Splits = ((20, 7 ∷ [], refl), tt)

sample_schedule : IsSchedule (schedule task_handle_epoch sample_world.store)
unfolding entries strip_prefix split_task_key from_big_endian
sample_schedule = ((20, 7 ∷ [], refl, omega arith), tt)

exec_scheduled_tasks-due_example :
    (rs : List ExecResult) × ((exec_scheduled_tasks sample_keeper task_handle_epoch 5
        sample_callback sample_world).0
      ≡ ok rs)
    × (map (λ (e : ExecResult). e.contract) rs ≡ sample_contract ∷ [])
    × All IsScheduled rs
unfolding entries strip_prefix split_task_key from_big_endian
exec_scheduled_tasks-due_example =
    exec_scheduled_tasks-due sample_keeper sample_params sample_callback sample-IsExecutor
      task_handle_epoch 5 sample_world (omega arith) sample_has_params (omega arith) sample-Splits

exec_task_failure_example :
    let r =
      exec_task sample_keeper task_handle_epoch 5 sample_callback sample_contract 20 true
        sample_world in
    ((res : ExecResult) × (r.0 ≡ ok res) × (res.exec_err ≢ none))
    × (r.1.env ≡ sample_world.env)
    × (r.1.mem ≡ sample_world.mem)
    × ((j : Bytes)
        → j ≢ task_key task_handle_epoch 20 sample_contract
        → j ≢ task_key task_handle_epoch (next_run 20 5) sample_contract
        → get j r.1.store ≡ get j sample_world.store)
exec_task_failure_example =
    exec_task_failure sample_keeper sample_params sample_callback sample-IsExecutor
      task_handle_epoch 5 sample_contract 20 true sample_world (omega arith) sample_has_params
      (omega arith) (λ e. cc)

exec_task_reschedules_example :
    let r =
      exec_task sample_keeper task_handle_epoch 5 sample_callback sample_contract 20 true
        sample_world in
    (get (task_key task_handle_epoch 20 sample_contract) r.1.store ≡ none)
    × (true ≡ true
        → 0 < 5
        → get (task_key task_handle_epoch 25 sample_contract) r.1.store ≡ some (1 ∷ []))
exec_task_reschedules_example =
    exec_task_reschedules sample_keeper sample_params sample_callback sample-IsExecutor
      task_handle_epoch 5 sample_contract 20 true sample_world (omega arith) sample_has_params
      (omega arith) (omega arith)

exec_scheduled_tasks-cleared_example :
    get
      (task_key task_handle_epoch 25 sample_contract)
      (exec_scheduled_tasks sample_keeper task_handle_epoch 5 sample_callback sample_world).1.store
    ≡ (if leb 25 20
        then none
        else if (not (5 == 0) && next_run 20 5 == 25)
            && repeats_due 20 sample_contract (schedule task_handle_epoch sample_world.store)
        then some (1 ∷ [])
        else get (task_key task_handle_epoch 25 sample_contract) sample_world.store)
exec_scheduled_tasks-cleared_example =
    exec_scheduled_tasks-cleared sample_keeper sample_params sample_callback sample-IsExecutor
      task_handle_epoch 5 (omega arith) (λ c w h a. refl) 25 sample_contract (omega arith)
      sample_world sample_has_params (omega arith) sample-IsTaskStore

-- The repeating task at the current height keeps its flag.
abbrev sample_key : Bytes
sample_key = 0x4 ∷ 1 ∷ 0 ∷ 0 ∷ 0 ∷ 0 ∷ 0 ∷ 0 ∷ 0 ∷ 20 ∷ 7 ∷ []

sample_task : get sample_key sample_world.store ≡ some (1 ∷ [])
unfolding get equal
sample_task = refl

has_scheduled_task_lem_example :
    has_scheduled_task task_handle_epoch sample_contract true sample_world ≡ (ok true, sample_world)
unfolding entries strip_prefix split_task_key from_big_endian is_repeat equal
has_scheduled_task_lem_example =
    has_scheduled_task_lem sample_contract sample_world task_handle_epoch true (omega arith)
      sample_schedule

get_next_scheduled_task_height_lem_example :
    get_next_scheduled_task_height task_handle_epoch sample_contract sample_world
    ≡ (ok (some 20), sample_world)
unfolding entries strip_prefix split_task_key from_big_endian equal
get_next_scheduled_task_height_lem_example =
    get_next_scheduled_task_height_lem sample_contract sample_world task_handle_epoch (omega arith)
      sample_schedule

rsp_handler-exec_scheduled_tasks_example :
    rsp_handler default_execution_response_handler
      (exec_scheduled_tasks sample_keeper task_handle_epoch 5 sample_callback)
      sample_world
    ≡ (
      ok tt,
      (exec_scheduled_tasks sample_keeper task_handle_epoch 5 sample_callback sample_world).1,
    )
rsp_handler-exec_scheduled_tasks_example =
    rsp_handler-exec_scheduled_tasks sample_keeper sample_params sample_callback sample-IsExecutor
      task_handle_epoch 5 sample_world (omega arith) sample_has_params (omega arith) sample-Splits
