-- ===== src/Keeper/Scheduler/Due.antt =====
-- The execution of one due task of `ExecScheduledTasks`, as an equation.
pub mod Isolation
pub mod Order
pub mod Cleared
use research_cosmos.Prelude.{
  ℕ, ◌+◌, ◌%◌, ◌^◌, ◌<◌, ◌≤◌, ◌≡◌, ◌≢◌, refl, sym, ap, ◌∙◌, ◌⊎◌, inl, inr, Bool, true, false, not,
  ◌&&◌, Option, none, some, List, [], ◌∷◌, ◌++◌, map, append_assoc, ltb, ◌==◌, arith, All,
  if◌then◌else◌,
}
use research_cosmos.Bytes.{Bytes, equal}
use research_cosmos.Bytes.Order.{equal_refl, not_equal}
use research_cosmos.KvStore.{KvStore, get, set, delete, entries}
use research_cosmos.KvStore.Laws.{get-set, get-delete}
use research_cosmos.Types.{
  Outcome, ok, err, panic, Error, Params, SchedulerTaskType, task_undefined, scheduler_execution,
}
use research_cosmos.Ctx.{World, Env, M}
use research_cosmos.Keys.{build_scheduler_type_key_prefix}
use research_cosmos.Keys.Scheduler.{task_key, build_scheduler_contract_key_lem}
use research_cosmos.Keeper.{Keeper}
use research_cosmos.Keeper.Params.Stored.{
  HasParams, HasParams-set, HasParams-delete, get_max_sudo_gas_ok,
}
use research_cosmos.Keeper.Scheduler.{
  is_repeat, split_task_key, iterate_tasks, iterate_scheduled_tasks, schedule_repeating_task,
}
use research_cosmos.Keeper.Scheduler.Register.{
  registered, delete_scheduled_task_ok, schedule_repeating_task_branches,
}
use research_cosmos.Keeper.Scheduler.Lookup.{schedule}
use research_cosmos.Keeper.Scheduler.Exec.{
  ExecResult, recovered, safe_exec, run_cached, reschedule, exec_task, append_result,
  exec_scheduled_tasks, with_gas_meter, commit,
}

-- A callback of the scheduler never changes the block height, and keeps the stored params.
pub record IsExecutor {E : Type 0} (k : Keeper E) (p : Params) (cb : Bytes → M E Unit)
    : Type 0 where
  pub keeps_height : (c : Bytes) (w : World E) → (cb c w).1.height ≡ w.height
  pub keeps_params :
      (c : Bytes) (w : World E) → HasParams k.sdk p w.store → HasParams k.sdk p (cb c w).1.store

-- Is a task that is due now registered again, and for which block?
abbrev pub repeats : ℕ → Bool → Bool
repeats epoch repeat = repeat && not (epoch == 0)

abbrev pub next_run : ℕ → ℕ → ℕ
next_run height epoch = (height + epoch) % 2 ^ 64

-- The state that the callback leaves: its own, under the caller's gas meter, or the state before the
-- call if it failed.
abbrev pub after_callback : {E : Type 0} → World E → Option Error × World E → World E
after_callback w (none, c) = record c {
  env = record c.env { gas_used = w.env.gas_used; gas_limit = w.env.gas_limit };
}
after_callback w (some e, c) = w

-- The state behind the callback, the event, the new registration and the removal of the task.
abbrev pub with_event : {E : Type 0} → Bytes → Option Error → World E → World E
with_event c e w = record w { events = w.events ++ scheduler_execution c e ∷ [] }

abbrev pub after_reschedule :
    {E : Type 0} → SchedulerTaskType → ℕ → Bytes → Bool → World E → World E
after_reschedule tp epoch c repeat w =
    if repeats epoch repeat
    then registered (task_key tp (next_run w.height epoch) c) c (next_run w.height epoch) true w
    else w

abbrev pub after_task :
    {E : Type 0}
    → SchedulerTaskType
    → ℕ
    → Bytes
    → ℕ
    → Bool
    → World E
    → Option Error × World E
    → World E
after_task tp epoch c h repeat w r =
    let v = after_reschedule tp epoch c repeat (with_event c r.0 (after_callback w r)) in
    record v { store = delete (task_key tp h c) v.store }

module _ {E : Type 0} (k : Keeper E) (p : Params) (cb : Bytes → M E Unit)
    (x : IsExecutor k p cb) where
  reschedule_ok :
      (tp : SchedulerTaskType) (epoch : ℕ) (c : Bytes) (repeat : Bool) (w : World E)
      → tp ≢ task_undefined
      → w.height + epoch < 2 ^ 64
      → reschedule tp epoch c repeat w ≡ (
        ok ((if repeats epoch repeat then next_run w.height epoch else 0), none),
        after_reschedule tp epoch c repeat w,
      )
  unfolding reschedule
  reschedule_ok tp epoch c repeat w d fits =
      ground (arith, schedule_repeating_task_branches tp c (next_run w.height epoch) w d)

  -- The result that is recorded for a task.
  abbrev pub result_of : ℕ → Bytes → Bool → ℕ → Option Error × World E → ExecResult
  result_of epoch c repeat height r = record {
    contract = c;
    exec_err = r.0;
    reschedule_err = none;
    delete_task_err = none;
    gas_used = r.1.env.gas_used;
    gas_limit = p.max_gas_end_blocker;
    next_run_height = if repeats epoch repeat then next_run height epoch else 0;
  }

  -- The callback for `c` in its own context.
  abbrev pub callback : Bytes → World E → Option Error × World E
  callback c w = safe_exec (cb c) (with_gas_meter p.max_gas_end_blocker w)

  pub height-after_callback :
      (c : Bytes) (w : World E) → (after_callback w (callback c w)).height ≡ w.height
  unfolding safe_exec
  height-after_callback c w =
      ground (arith, x.keeps_height c (with_gas_meter p.max_gas_end_blocker w))

  committed :
      (w : World E) (r : Option Error × World E)
      → commit w r w ≡ (ok (r.0, r.1.env.gas_used), after_callback w r)
  committed w (none, c) = refl
  committed w (some e, c) = refl

  -- One due task: the callback's own changes are kept if it succeeds, and dropped if it fails; the
  -- task is registered again if it repeats, and removed.
  pub exec_task_lem :
      (tp : SchedulerTaskType) (epoch : ℕ) (c : Bytes) (h : ℕ) (repeat : Bool) (w : World E)
      → tp ≢ task_undefined
      → HasParams k.sdk p w.store
      → w.height + epoch < 2 ^ 64
      → exec_task k tp epoch cb c h repeat w ≡ (
        ok (result_of epoch c repeat w.height (callback c w)),
        after_task tp epoch c h repeat w (callback c w),
      )
  unfolding exec_task run_cached
  exec_task_lem tp epoch c h repeat w d hp fits =
      let r = callback c w in
      let v = with_event c r.0 (after_callback w r) in
      let same : v.height ≡ w.height = height-after_callback c w in
      rw (get_max_sudo_gas_ok k p w hp) (
        rw (committed w r) (
          rw (reschedule_ok tp epoch c repeat v d (rw same fits)) (
            rw (delete_scheduled_task_ok tp c h (after_reschedule tp epoch c repeat v) d) (
              ap
                (λ (n : ℕ). (ok (result_of epoch c repeat n r), after_task tp epoch c h repeat w r))
                same))))
