-- ===== src/Keeper/Scheduler/Due/Isolation.antt =====
-- One due task of `ExecScheduledTasks`: its callback's changes, and its own entry.
use research_cosmos.Prelude.{
  ℕ, ◌+◌, ◌^◌, ◌<◌, ◌≤◌, ◌≡◌, ◌≢◌, refl, sym, ap, ◌∙◌, Bool, true, Option, none, some, [], ◌∷◌,
  arith,
}
use research_cosmos.Bytes.{Bytes}
use research_cosmos.Bytes.Order.{equal_refl, not_equal}
use research_cosmos.KvStore.{get}
use research_cosmos.KvStore.Laws.{get-set, get-delete}
use research_cosmos.Types.{
  Outcome, ok, err, panic, Error, Params, SchedulerTaskType, task_undefined,
}
use research_cosmos.Ctx.{World, M}
use research_cosmos.Keys.Scheduler.{task_key, task_key-ne}
use research_cosmos.Keeper.{Keeper}
use research_cosmos.Keeper.Params.Stored.{HasParams}
use research_cosmos.Keeper.Scheduler.{to_byte}
use research_cosmos.Keeper.Scheduler.Exec.{
  ExecResult, recovered, safe_exec, exec_task, with_gas_meter,
}
use research_cosmos.Keeper.Scheduler.Due.{
  IsExecutor, repeats, next_run, after_callback, with_event, after_reschedule, result_of, callback,
  exec_task_lem, height-after_callback,
}

module _ {E : Type 0} (tp : SchedulerTaskType) (epoch : ℕ) (c : Bytes) (repeat : Bool)
    (v : World E) where
  env-after_reschedule : (after_reschedule tp epoch c repeat v).env ≡ v.env
  env-after_reschedule = ground arith

  mem-after_reschedule : (after_reschedule tp epoch c repeat v).mem ≡ v.mem
  mem-after_reschedule = ground arith

  get-after_reschedule :
      (j : Bytes)
      → j ≢ task_key tp (next_run v.height epoch) c
      → get j (after_reschedule tp epoch c repeat v).store ≡ get j v.store
  get-after_reschedule j ne =
      let key = task_key tp (next_run v.height epoch) c in
      ground
        (arith, get-set key j (to_byte true ∷ []) v.store, not_equal key j (λ same. ne (sym same)))

  get-after_reschedule_self :
      repeats epoch repeat ≡ true
      → get (task_key tp (next_run v.height epoch) c) (after_reschedule tp epoch c repeat v).store
        ≡ some (to_byte true ∷ [])
  get-after_reschedule_self yes_repeats =
      let key = task_key tp (next_run v.height epoch) c in
      rw (yes_repeats, get-set key key (to_byte true ∷ []) v.store, equal_refl key) refl

error_of :
    {E : Type 0} (o : Outcome Unit × World E)
    → o.0 ≢ ok tt
    → (e : Error) × ((recovered o).0 ≡ some e)
error_of (ok u, w) h = absurd (h refl)
error_of (err e, w) h = (e, refl)
error_of (panic, w) h = (Error.recovered_panic, refl)

dropped :
    {E : Type 0} (w : World E) (r : Option Error × World E) (e : Error)
    → r.0 ≡ some e
    → after_callback w r ≡ w
dropped w (none, c) e h = cc
dropped w (some x, c) e h = refl

module _ {E : Type 0} (k : Keeper E) (p : Params) (cb : Bytes → M E Unit)
    (x : IsExecutor k p cb) where
  failed_callback :
      (c : Bytes) (w : World E)
      → (cb c (with_gas_meter p.max_gas_end_blocker w)).0 ≢ ok tt
      → (e : Error) × ((callback k p cb x c w).0 ≡ some e)
  unfolding safe_exec
  failed_callback c w h = error_of (cb c (with_gas_meter p.max_gas_end_blocker w)) h

  -- For a defined type, stored params, a height that fits in 64 bits together with the epoch
  -- length, and a callback that changes neither the height nor the stored params: a task whose
  -- callback does not succeed is executed without an error of its own and records one, the other
  -- modules' state and the memory store are as before, and so is every entry of the store but the
  -- task's and that of its next run.
  pub exec_task_failure :
      (tp : SchedulerTaskType) (epoch : ℕ) (c : Bytes) (h : ℕ) (repeat : Bool) (w : World E)
      → tp ≢ task_undefined
      → HasParams k.sdk p w.store
      → w.height + epoch < 2 ^ 64
      → (cb c (with_gas_meter p.max_gas_end_blocker w)).0 ≢ ok tt
      → let r = exec_task k tp epoch cb c h repeat w in
        ((res : ExecResult) × (r.0 ≡ ok res) × (res.exec_err ≢ none))
        × (r.1.env ≡ w.env)
        × (r.1.mem ≡ w.mem)
        × ((j : Bytes)
            → j ≢ task_key tp h c
            → j ≢ task_key tp (next_run w.height epoch) c
            → get j r.1.store ≡ get j w.store)
  exec_task_failure tp epoch c h repeat w d hp fits failed =
      let (e, fail) = failed_callback c w failed in
      let r = callback k p cb x c w in
      let v = with_event c r.0 (after_callback w r) in
      let drop = dropped w r e fail in
      rw (exec_task_lem k p cb x tp epoch c h repeat w d hp fits) (
        (result_of k p cb x epoch c repeat w.height r, refl, λ no_error. cc),
        env-after_reschedule tp epoch c repeat v ∙ ap (λ (u : World E). u.env) drop,
        mem-after_reschedule tp epoch c repeat v ∙ ap (λ (u : World E). u.mem) drop,
        λ j ne ne'.
            get-delete (task_key tp h c) j (after_reschedule tp epoch c repeat v).store
            ∙ rw (not_equal (task_key tp h c) j (λ same. ne (sym same))) (
                get-after_reschedule tp epoch c repeat v j
                  (rw (height-after_callback k p cb x c w) ne')
                ∙ ap (λ (u : World E). get j u.store) drop),
      )

  -- For a defined type, stored params, a height that fits in 64 bits together with the epoch
  -- length, and a callback that changes neither the height nor the stored params: whatever the
  -- callback returns, a task that is due is gone afterwards, and if it repeats with an epoch
  -- length above zero, it is stored with the repeat flag at the current height plus the epoch
  -- length.
  pub exec_task_reschedules :
      (tp : SchedulerTaskType) (epoch : ℕ) (c : Bytes) (h : ℕ) (repeat : Bool) (w : World E)
      → tp ≢ task_undefined
      → HasParams k.sdk p w.store
      → w.height + epoch < 2 ^ 64
      → h ≤ w.height
      → let r = exec_task k tp epoch cb c h repeat w in
        (get (task_key tp h c) r.1.store ≡ none)
        × (repeat ≡ true
            → 0 < epoch
            → get (task_key tp (w.height + epoch) c) r.1.store ≡ some (to_byte true ∷ []))
  exec_task_reschedules tp epoch c h repeat w d hp fits due =
      let r = callback k p cb x c w in
      let v = with_event c r.0 (after_callback w r) in
      let same : v.height ≡ w.height = height-after_callback k p cb x c w in
      rw (exec_task_lem k p cb x tp epoch c h repeat w d hp fits) (
        rw
            (
              get-delete (task_key tp h c) (task_key tp h c)
                  (after_reschedule tp epoch c repeat v).store,
              equal_refl (task_key tp h c),
            )
            refl,
        λ flag positive.
            let next : next_run v.height epoch ≡ w.height + epoch = rw same (omega arith) in
            get-delete (task_key tp h c) (task_key tp (w.height + epoch) c)
              (after_reschedule tp epoch c repeat v).store
            ∙ rw
                (not_equal (task_key tp h c) (task_key tp (w.height + epoch) c)
                  (task_key-ne tp h (w.height + epoch) c (omega arith) fits (omega arith)))
                (rw (← next) (get-after_reschedule_self tp epoch c repeat v (ground arith))),
      )
