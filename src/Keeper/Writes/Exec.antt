-- ===== src/Keeper/Writes/Exec.antt =====
-- The writes of `ExecScheduledTasks`, with a callback that keeps the predicate.
use research_cosmos.Prelude.{
  ℕ, ◌+◌, ◌%◌, ◌^◌, ◌≢◌, Bool, not, ◌&&◌, ◌==◌, false, Option, none, List, [], ◌∷◌, ◌++◌,
}
use research_cosmos.Bytes.{Bytes}
use research_cosmos.KvStore.{entries}
use research_cosmos.Types.{
  Outcome, ok, err, panic, Error, SchedulerTaskType, task_undefined, scheduler_execution,
}
use research_cosmos.Ctx.{World, M, ◌>>=◌, pure, lift, gets, emit}
use research_cosmos.Ctx.Keeps.{Keeps, Keeps-bind, Keeps-if}
use research_cosmos.Keys.{build_scheduler_type_key_prefix}
use research_cosmos.Keeper.{Keeper}
use research_cosmos.Keeper.Writes.{IsTaskClosed}
use research_cosmos.Keeper.Writes.Caps.{Keeps-get_params}
use research_cosmos.Keeper.Writes.Tasks.{Keeps-repeating, Keeps-delete, Keeps-tasks}
use research_cosmos.Keeper.Params.{get_params, get_max_sudo_gas}
use research_cosmos.Keeper.Scheduler.{
  iterate_tasks, iterate_scheduled_tasks, schedule_repeating_task, delete_scheduled_task,
}
use research_cosmos.Keeper.Scheduler.Exec.{
  ExecResult, recovered, safe_exec, with_gas_meter, commit, run_cached, record_error, attempt,
  reschedule, exec_task, append_result, exec_scheduled_tasks,
}

module _ {E : Type 0} (k : Keeper E) (P : World E → Type 0) (closed : IsTaskClosed P) where
  Keeps-run_cached : (limit : ℕ) (cb : M E Unit) → Keeps P cb → Keeps P (run_cached limit cb)
  unfolding run_cached safe_exec
  Keeps-run_cached limit cb hcb w h =
      let inner = with_gas_meter limit w in
      committed (cb inner).0 (cb inner).1 (hcb inner (closed.env w inner.env h))
    where
      committed : (r : Outcome Unit) (v : World E) → P v → P (commit w (recovered (r, v)) w).1
      committed (ok u) v i = closed.env v _ i
      committed (err e) v i = h
      committed panic v i = h

  Keeps-attempt : (m : M E Unit) → Keeps P m → Keeps P (attempt m)
  Keeps-attempt m hm w h = go (m w).0 (m w).1 (hm w h)
    where
      go : (r : Outcome Unit) (v : World E) → P v → P (record_error (r, v)).1
      go (ok u) v i = i
      go (err e) v i = i
      go panic v i = i

  Keeps-reschedule :
      (tp : SchedulerTaskType) (epoch : ℕ) (c : Bytes) (repeat : Bool)
      → tp ≢ task_undefined
      → Keeps P (reschedule tp epoch c repeat)
  unfolding reschedule
  Keeps-reschedule tp epoch c repeat d =
      let again : ℕ → M E (ℕ × Option Error) = λ height.
        let next = (height + epoch) % 2 ^ 64 in
        attempt (schedule_repeating_task tp c next) >>= λ e. pure (next, e) in
      Keeps-if P (repeat && not (epoch == 0)) (gets (λ w. w.height) >>= again) (pure (0, none))
        (Keeps-bind P (gets (λ w. w.height)) again (λ w h. h)
          (λ height.
            let next = (height + epoch) % 2 ^ 64 in
            Keeps-bind P (attempt (schedule_repeating_task tp c next)) (λ e. pure (next, e))
              (Keeps-attempt (schedule_repeating_task tp c next)
                (Keeps-repeating k P closed tp c next d))
              (λ e w h. h)))
        (λ w h. h)

  Keeps-gas : Keeps P (get_max_sudo_gas k)
  unfolding get_max_sudo_gas
  Keeps-gas =
      Keeps-bind P (get_params k) (λ p. pure p.max_gas_end_blocker) (Keeps-get_params k P)
        (λ p w h. h)

  module _ (tp : SchedulerTaskType) (epoch : ℕ) (cb : Bytes → M E Unit) (d : tp ≢ task_undefined)
      (hcb : (c : Bytes) → Keeps P (cb c)) where
    Keeps-exec_task :
        (c : Bytes) (height : ℕ) (repeat : Bool) → Keeps P (exec_task k tp epoch cb c height repeat)
    unfolding exec_task
    Keeps-exec_task c height repeat =
        let Ran = Option Error × ℕ in
        let remove = attempt {E = E} (delete_scheduled_task tp c height) in
        let done : ℕ → Ran → ℕ × Option Error → Option Error → M E ExecResult = λ limit ran next e.
          pure (record {
            contract = c;
            exec_err = ran.0;
            reschedule_err = next.1;
            delete_task_err = e;
            gas_used = ran.1;
            gas_limit = limit;
            next_run_height = next.0;
          }) in
        let next : ℕ → Ran → ℕ × Option Error → M E ExecResult =
          λ limit ran n. remove >>= done limit ran n in
        let told : ℕ → Ran → Unit → M E ExecResult =
          λ limit ran _. reschedule tp epoch c repeat >>= next limit ran in
        let event : ℕ → Ran → M E ExecResult =
          λ limit ran. emit (scheduler_execution c ran.0) >>= told limit ran in
        let start : ℕ → M E ExecResult = λ limit. run_cached limit (cb c) >>= event limit in
        Keeps-bind P (get_max_sudo_gas k) start Keeps-gas (λ limit.
          Keeps-bind P (run_cached limit (cb c)) (event limit)
            (Keeps-run_cached limit (cb c) (hcb c))
            (λ ran.
              Keeps-bind P (emit (scheduler_execution c ran.0)) (told limit ran)
                (λ w h. closed.events w _ h)
                (λ _.
                  Keeps-bind P (reschedule tp epoch c repeat) (next limit ran)
                    (Keeps-reschedule tp epoch c repeat d)
                    (λ n.
                      Keeps-bind P remove (done limit ran n)
                        (Keeps-attempt (delete_scheduled_task tp c height)
                          (Keeps-delete k P closed tp c height d))
                        (λ e w h. h)))))

    pub Keeps-exec_scheduled_tasks : Keeps P (exec_scheduled_tasks k tp epoch cb)
    unfolding exec_scheduled_tasks iterate_scheduled_tasks
    Keeps-exec_scheduled_tasks w h =
        let body : Bytes → M E (List ExecResult) = λ key_prefix v.
          iterate_tasks w.height (append_result k tp epoch cb) [] (entries key_prefix v.store) v in
        Keeps-bind P (lift (build_scheduler_type_key_prefix tp)) body (λ v i. i)
          (λ key_prefix v i.
            Keeps-tasks k P closed w.height (append_result k tp epoch cb)
              (entries key_prefix v.store) [] Keeps-append v i)
          w h
      where
        Keeps-append :
            (rs : List ExecResult) (a : Bytes) (ht : ℕ) (r : Bool)
            → Keeps P (append_result k tp epoch cb rs a ht r)
        Keeps-append rs a ht r =
            Keeps-bind P (exec_task k tp epoch cb a ht r) (λ res. pure (rs ++ res ∷ [], false))
              (Keeps-exec_task a ht r) (λ res v i. i)
