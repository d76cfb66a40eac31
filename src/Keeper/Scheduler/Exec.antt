-- ===== src/Keeper/Scheduler/Exec.antt =====
-- `ExecScheduledTasks` of x/meshsecurity/keeper/scheduler.go: due tasks run in a cached context with
-- their own gas meter.
use research_cosmos.Prelude.{
  ℕ, ◌+◌, ◌%◌, ◌^◌, Bool, false, not, ◌&&◌, Option, none, some, List, [], ◌∷◌, ◌++◌, ◌==◌,
  if◌then◌else◌,
}
use research_cosmos.Bytes.{Bytes}
use research_cosmos.Types.{
  Outcome, ok, err, panic, Error, recovered_panic, SchedulerTaskType, scheduler_execution,
}
use research_cosmos.Ctx.{World, M, ◌>>=◌, ◌>>◌, pure, gets, emit}
use research_cosmos.Keeper.{Keeper}
use research_cosmos.Keeper.Params.{get_max_sudo_gas}
use research_cosmos.Keeper.Scheduler.{
  iterate_scheduled_tasks, schedule_repeating_task, delete_scheduled_task,
}

-- `ExecResult`, with nil errors as `none`
pub record ExecResult : Type 0 where
  pub contract : Bytes
  pub exec_err : Option Error
  pub reschedule_err : Option Error
  pub delete_task_err : Option Error
  pub gas_used : ℕ
  pub gas_limit : ℕ
  pub next_run_height : ℕ

module _ {E : Type 0} where
  -- `safeExec`: a panic of the callback becomes an error.
  abbrev pub recovered : Outcome Unit × World E → Option Error × World E
  recovered (ok u, w) = (none, w)
  recovered (err e, w) = (some e, w)
  recovered (panic, w) = (some recovered_panic, w)

  unfoldable pub safe_exec : M E Unit → World E → Option Error × World E
  safe_exec cb w = recovered (cb w)

  -- The cached context has its own meter.
  abbrev pub with_gas_meter : ℕ → World E → World E
  with_gas_meter limit w = record w { env = record w.env { gas_used = 0; gas_limit = some limit } }

  -- `done()` writes the cache to the parent context, which keeps its own meter.
  abbrev pub commit : World E → Option Error × World E → M E (Option Error × ℕ)
  commit parent (none, c) w = (
    ok (none, c.env.gas_used),
    record c {
      env = record c.env { gas_used = parent.env.gas_used; gas_limit = parent.env.gas_limit };
    },
  )
  commit parent (some e, c) w = (ok (some e, c.env.gas_used), parent)

  -- The callback in the cached context: its error, and the gas that it used.
  unfoldable pub run_cached : ℕ → M E Unit → M E (Option Error × ℕ)
  unfolding safe_exec
  run_cached gas_limit cb w = commit w (safe_exec cb (with_gas_meter gas_limit w)) w

  -- `if err := f(); err != nil { result.Err = err }`
  abbrev pub record_error : Outcome Unit × World E → Outcome (Option Error) × World E
  record_error (ok u, w) = (ok none, w)
  record_error (err e, w) = (ok (some e), w)
  record_error (panic, w) = (panic, w)

  abbrev pub attempt : M E Unit → M E (Option Error)
  attempt m w = record_error (m w)

  -- The next run height and the error of the re-scheduling; nothing is done without the flag, or
  -- with an epoch length of 0.
  unfoldable pub reschedule : SchedulerTaskType → ℕ → Bytes → Bool → M E (ℕ × Option Error)
  unfolding schedule_repeating_task
  reschedule tp epoch_length contract repeat =
      if repeat && not (epoch_length == 0)
      then (do
        height ← gets (λ w. w.height)
        let next_exec_block = (height + epoch_length) % 2 ^ 64
        e ← attempt (schedule_repeating_task tp contract next_exec_block)
        pure (next_exec_block, e))
      else pure (0, none)

module _ {E : Type 0} (k : Keeper E) where
  -- The callback of the loop: one due task.
  unfoldable pub exec_task :
      SchedulerTaskType → ℕ → (Bytes → M E Unit) → Bytes → ℕ → Bool → M E ExecResult
  unfolding run_cached reschedule delete_scheduled_task get_max_sudo_gas
  exec_task tp epoch_length cb contract scheduled_height repeat = do
    gas_limit ← get_max_sudo_gas k
    (exec_err, gas_used) ← run_cached gas_limit (cb contract)
    emit (scheduler_execution contract exec_err)
    (next_run_height, reschedule_err) ← reschedule tp epoch_length contract repeat
    delete_task_err ← attempt (delete_scheduled_task tp contract scheduled_height)
    pure (record {
      contract = contract;
      exec_err = exec_err;
      reschedule_err = reschedule_err;
      delete_task_err = delete_task_err;
      gas_used = gas_used;
      gas_limit = gas_limit;
      next_run_height = next_run_height;
    })

  abbrev pub append_result :
      SchedulerTaskType
      → ℕ
      → (Bytes → M E Unit)
      → List ExecResult
      → Bytes
      → ℕ
      → Bool
      → M E (List ExecResult × Bool)
  append_result tp epoch_length cb all_results contract scheduled_height repeat = do
    result ← exec_task tp epoch_length cb contract scheduled_height repeat
    pure (all_results ++ result ∷ [], false)

  unfoldable pub exec_scheduled_tasks :
      SchedulerTaskType → ℕ → (Bytes → M E Unit) → M E (List ExecResult)
  unfolding iterate_scheduled_tasks
  exec_scheduled_tasks tp epoch_length cb = do
    current_height ← gets (λ w. w.height)
    iterate_scheduled_tasks tp current_height (append_result tp epoch_length cb) []
