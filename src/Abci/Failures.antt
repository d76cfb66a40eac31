-- ===== src/Abci/Failures.antt =====
-- The default response handler of x/meshsecurity/abci.go over the results of the scheduler.
use research_cosmos.Prelude.{
  ℕ, ◌+◌, ◌^◌, ◌<◌, ◌≡◌, ◌≢◌, refl, List, [], ◌∷◌, All, inl, inr, Option-cases,
}
use research_cosmos.Bytes.{Bytes}
use research_cosmos.Types.{ok, Params, SchedulerTaskType, task_undefined}
use research_cosmos.Ctx.{World, M}
use research_cosmos.Keeper.{Keeper}
use research_cosmos.Keeper.Params.Stored.{HasParams}
use research_cosmos.Keeper.Scheduler.Exec.{ExecResult, exec_scheduled_tasks}
use research_cosmos.Keeper.Scheduler.Lookup.{schedule}
use research_cosmos.Keeper.Scheduler.Due.{IsExecutor}
use research_cosmos.Keeper.Scheduler.Due.Order.{IsScheduled, Splits, exec_scheduled_tasks-due}
use research_cosmos.Abci.{default_execution_response_handler, handle_all, rsp_handler}

module _ {E : Type 0} where
  handle_one :
      (r : ExecResult) (w : World E)
      → IsScheduled r
      → default_execution_response_handler r w ≡ (ok tt, w)
  unfolding default_execution_response_handler
  handle_one r w clean = elim (Option-cases r.exec_err) [
    | inl e ↦ rw (e, clean.0) refl
    | inr (x, e) ↦ rw e refl
  ]

  pub default_silent :
      (r : ExecResult) (w : World E) → (default_execution_response_handler r w).1 ≡ w
  unfolding default_execution_response_handler
  default_silent r w = elim (Option-cases r.exec_err) [
    | inl e ↦ elim (Option-cases r.reschedule_err) [
      | inl o ↦ rw (e, o) refl
      | inr (x, o) ↦ rw (e, o) refl
    ]
    | inr (x, e) ↦ rw e refl
  ]

  handle_each :
      (rs : List ExecResult) (w : World E)
      → All IsScheduled rs
      → handle_all default_execution_response_handler rs w ≡ (ok tt, w)
  handle_each [] w clean = refl
  handle_each (r ∷ rs) w clean = rw (handle_one r w clean.0) (handle_each rs w clean.1)

module _ {E : Type 0} (k : Keeper E) (p : Params) (cb : Bytes → M E Unit)
    (x : IsExecutor k p cb) where
  -- For a defined type, stored params, keys that split, a height that fits in 64 bits together with
  -- the epoch length, and a callback that changes neither the height nor the stored params: the end
  -- blocker's run of the due tasks with the default handler returns without a panic, whatever the
  -- callback returns, and leaves the state that `ExecScheduledTasks` leaves.
  pub rsp_handler-exec_scheduled_tasks :
      (tp : SchedulerTaskType) (epoch : ℕ) (w : World E)
      → tp ≢ task_undefined
      → HasParams k.sdk p w.store
      → w.height + epoch < 2 ^ 64
      → Splits (schedule tp w.store)
      → rsp_handler default_execution_response_handler (exec_scheduled_tasks k tp epoch cb) w
        ≡ (ok tt, (exec_scheduled_tasks k tp epoch cb w).1)
  unfolding rsp_handler
  rsp_handler-exec_scheduled_tasks tp epoch w d hp fits sp =
      let (rs, done, order, clean) = exec_scheduled_tasks-due k p cb x tp epoch w d hp fits sp in
      rw done (handle_each rs (exec_scheduled_tasks k tp epoch cb w).1 clean)
