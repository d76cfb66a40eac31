-- ===== src/Keeper/Scheduler/Due/Order.antt =====
-- `ExecScheduledTasks` as a whole: the loop over the schedule.
use research_cosmos.Prelude.{
  ℕ, ◌+◌, ◌^◌, ◌<◌, ◌≡◌, ◌≢◌, refl, sym, ◌∙◌, inl, inr, Bool, true, none, some, List, [], ◌∷◌, ◌++◌,
  map, append_assoc, ltb, arith, All, Bool-cases, if_cases, if◌then◌else◌,
}
use mathlib.Core.List.{append-nil, map-append}
use research_cosmos.Bytes.{Bytes, equal}
use research_cosmos.KvStore.{KvStore}
use research_cosmos.Types.{Outcome, ok, err, panic, Params, SchedulerTaskType, task_undefined}
use research_cosmos.Ctx.{World, M}
use research_cosmos.Keys.{build_scheduler_type_key_prefix}
use research_cosmos.Keys.Scheduler.{task_key}
use research_cosmos.Keeper.{Keeper}
use research_cosmos.Keeper.Params.Stored.{HasParams, HasParams-set, HasParams-delete}
use research_cosmos.Keeper.Scheduler.{
  is_repeat, split_task_key, iterate_tasks, iterate_scheduled_tasks, to_byte,
}
use research_cosmos.Keeper.Scheduler.Lookup.{schedule, iterate_tasks_step}
use research_cosmos.Keeper.Scheduler.Register.{registered}
use research_cosmos.Sdk.{Sdk}
use research_cosmos.Keeper.Scheduler.Exec.{
  ExecResult, safe_exec, append_result, exec_scheduled_tasks, with_gas_meter, recovered,
}
use research_cosmos.Keeper.Scheduler.Due.{
  IsExecutor, after_callback, with_event, after_reschedule, after_task, result_of, callback,
  exec_task_lem, height-after_callback, repeats, next_run,
}

-- Every key behind the prefix splits into a height and a contract.
abbrev pub Splits : KvStore → Type 0
Splits s = All (λ (e : Bytes × Bytes). (h : ℕ) × (a : Bytes) × (split_task_key e.0 ≡ some (h, a))) s

-- The contracts of the entries up to the first one beyond the height.
abbrev pub due : ℕ → KvStore → List Bytes
due height [] = []
due height ((key, value) ∷ s) =
    let rest = due height s in
    elim (split_task_key key) [ none ↦ [] | some (h, a) ↦ if ltb height h then [] else a ∷ rest ]

params-recovered :
    {E : Type 0} (sdk : Sdk) (p : Params) (w : World E) (o : Outcome Unit × World E)
    → HasParams sdk p w.store
    → HasParams sdk p o.1.store
    → HasParams sdk p (after_callback w (recovered o)).store
params-recovered sdk p w (ok u, c) hw hc = hc
params-recovered sdk p w (err e, c) hw hc = hw
params-recovered sdk p w (panic, c) hw hc = hw

params-after_reschedule :
    {E : Type 0} (sdk : Sdk) (p : Params) (tp epoch : ℕ) (c : Bytes) (repeat : Bool) (v : World E)
    → HasParams sdk p v.store
    → HasParams sdk p (after_reschedule tp epoch c repeat v).store
params-after_reschedule sdk p tp epoch c repeat v hp =
    if_cases (λ (u : World _). HasParams sdk p u.store) (repeats epoch repeat)
      (registered (task_key tp (next_run v.height epoch) c) c (next_run v.height epoch) true v) v
      (λ _.
        HasParams-set sdk p (task_key tp (next_run v.height epoch) c) (to_byte true ∷ []) v.store
          (unfold equal in refl) hp)
      (λ _. hp)

-- The loop ends at the first entry beyond the height.
pub iterate_tasks_stop :
    {E S : Type 0} (max ht : ℕ) (a key value : Bytes) (cb : S → Bytes → ℕ → Bool → M E (S × Bool))
    (x : S) (s : KvStore) (w : World E)
    → split_task_key key ≡ some (ht, a)
    → ltb max ht ≡ true
    → iterate_tasks max cb x ((key, value) ∷ s) w ≡ (ok x, w)
unfolding iterate_tasks
iterate_tasks_stop max ht a key value cb x s w sp later = rw (sp, later) refl

-- No error of the re-scheduling or of the removal of the task is recorded.
abbrev pub IsScheduled : ExecResult → Type 0
IsScheduled e = (e.reschedule_err ≡ none) × (e.delete_task_err ≡ none)

All-snoc :
    (es : List ExecResult) (e : ExecResult)
    → All IsScheduled es
    → IsScheduled e
    → All IsScheduled (es ++ e ∷ [])
All-snoc [] e all last = (last, tt)
All-snoc (x ∷ es) e all last = (all.0, All-snoc es e all.1 last)

module _ {E : Type 0} (k : Keeper E) (p : Params) (cb : Bytes → M E Unit)
    (x : IsExecutor k p cb) where
  pub height-after_task :
      (tp epoch : ℕ) (c : Bytes) (h : ℕ) (repeat : Bool) (w : World E)
      → (after_task tp epoch c h repeat w (callback k p cb x c w)).height ≡ w.height
  height-after_task tp epoch c h repeat w = ground (arith, height-after_callback k p cb x c w)

  params-after_callback :
      (c : Bytes) (w : World E)
      → HasParams k.sdk p w.store
      → HasParams k.sdk p (after_callback w (callback k p cb x c w)).store
  unfolding safe_exec
  params-after_callback c w hp =
      params-recovered k.sdk p w (cb c (with_gas_meter p.max_gas_end_blocker w)) hp
        (x.keeps_params c (with_gas_meter p.max_gas_end_blocker w) hp)

  pub params-after_task :
      (tp epoch : ℕ) (c : Bytes) (h : ℕ) (repeat : Bool) (w : World E)
      → HasParams k.sdk p w.store
      → HasParams k.sdk p (after_task tp epoch c h repeat w (callback k p cb x c w)).store
  params-after_task tp epoch c h repeat w hp =
      let v = with_event c (callback k p cb x c w).0 (after_callback w (callback k p cb x c w)) in
      HasParams-delete k.sdk p (task_key tp h c) (after_reschedule tp epoch c repeat v).store
        (unfold equal in refl)
        (params-after_reschedule k.sdk p tp epoch c repeat v (params-after_callback c w hp))

  -- What the loop has returned: results, one for each due task, without errors of the scheduler.
  abbrev Executed : List Bytes → List ExecResult → Outcome (List ExecResult) × World E → Type 0
  Executed todo before r =
      (rs : List ExecResult) × (r.0 ≡ ok rs)
      × (map (λ (e : ExecResult). e.contract) rs
          ≡ map (λ (e : ExecResult). e.contract) before ++ todo)
      × (All IsScheduled before → All IsScheduled rs)

  loop_executes :
      (tp epoch height : ℕ) (before : List ExecResult) (s : KvStore) (w : World E)
      → tp ≢ task_undefined
      → HasParams k.sdk p w.store
      → w.height ≡ height
      → height + epoch < 2 ^ 64
      → Splits s
      → Executed
          (due height s)
          before
          (iterate_tasks height (append_result k tp epoch cb) before s w)
  loop_executes tp epoch height before [] w d hp eh fits sp =
      unfold iterate_tasks in (before, refl, sym (append-nil _), λ clean. clean)
  loop_executes tp epoch height before ((key, value) ∷ s) w d hp eh fits ((h, a, split), sp) =
      elim (Bool-cases (ltb height h)) [
        | inl later ↦
            rw
              (
                iterate_tasks_stop height h a key value (append_result k tp epoch cb) before s w
                    split later,
                due,
                split,
                later,
              )
              (before, refl, sym (append-nil _), λ clean. clean)
        | inr now ↦
            let res =
              result_of k p cb x epoch a (is_repeat value) w.height (callback k p cb x a w) in
            let w' = after_task tp epoch a h (is_repeat value) w (callback k p cb x a w) in
            let (rs, done, order, clean) =
              loop_executes tp epoch height (before ++ res ∷ []) s w' d
                (params-after_task tp epoch a h (is_repeat value) w hp)
                (height-after_task tp epoch a h (is_repeat value) w ∙ eh) fits sp in
            rw
              (
                iterate_tasks_step height h a key value (append_result k tp epoch cb) before s w
                    split (ground arith),
                due,
                split,
                now,
                exec_task_lem k p cb x tp epoch a h (is_repeat value) w d hp (rw eh fits),
              )
              (
                rs,
                done,
                order ∙ simp (map-append, append_assoc),
                λ all. clean (All-snoc before res all (refl, refl)),
              )
      ]

  -- For a defined type, stored params, keys that split, a height that fits in 64 bits together
  -- with the epoch length, and a callback that changes neither the height nor the stored params:
  -- `ExecScheduledTasks` succeeds whatever the callback returns, and has one result for each
  -- entry of the schedule before the first one beyond the current height, in the order of the
  -- keys, none of which records an error of the re-scheduling or of the removal of the task.
  pub exec_scheduled_tasks-due :
      (tp : SchedulerTaskType) (epoch : ℕ) (w : World E)
      → tp ≢ task_undefined
      → HasParams k.sdk p w.store
      → w.height + epoch < 2 ^ 64
      → Splits (schedule tp w.store)
      → (rs : List ExecResult) × ((exec_scheduled_tasks k tp epoch cb w).0 ≡ ok rs)
        × (map (λ (e : ExecResult). e.contract) rs ≡ due w.height (schedule tp w.store))
        × All IsScheduled rs
  unfolding exec_scheduled_tasks iterate_scheduled_tasks build_scheduler_type_key_prefix
  exec_scheduled_tasks-due tp epoch w d hp fits sp =
      let (rs, done, order, clean) =
        loop_executes tp epoch w.height [] (schedule tp w.store) w d hp refl fits sp in
      (rs, ground (arith, done), order, clean tt)
