-- ===== src/Keeper/Writes/Tasks.antt =====
-- The writes of x/meshsecurity/keeper/scheduler.go.
use research_cosmos.Prelude.{
  ℕ, ◌≢◌, Bool, true, false, inl, inr, [], ◌∷◌, arith, if◌then◌else◌, ltb, not, ◌+◌, ◌%◌, ◌^◌,
}
use research_cosmos.Bytes.{Bytes, equal}
use research_cosmos.KvStore.{KvStore, entries}
use research_cosmos.Types.{
  Outcome, ok, err, panic, SchedulerTaskType, task_undefined, task_handle_epoch, unknown,
}
use research_cosmos.Ctx.{World, M, ◌>>=◌, pure, lift, gets, or_panic, fail_if}
use research_cosmos.Ctx.Keeps.{Keeps, Keeps-bind, Keeps-or_panic, Keeps-if, Keeps-fail_if}
use research_cosmos.Keys.{build_scheduler_type_key_prefix}
use research_cosmos.Keeper.{Keeper}
use research_cosmos.Keeper.Params.{get_params, get_rebalance_epoch_length}
use research_cosmos.Keeper.Writes.{IsTaskClosed}
use research_cosmos.Keeper.Writes.Caps.{Keeps-get_params}
use research_cosmos.Keeper.Scheduler.{
  max_uint, is_repeat, split_task_key, iterate_tasks, only_contract, match_repeat, delete_task,
  iterate_scheduled_tasks, iterate_scheduled_contract_tasks, ignore_error, has_scheduled_task,
  schedule_one_shot_task, schedule_repeating_task, delete_scheduled_task,
  delete_all_scheduled_tasks, schedule_regular_rebalance_task,
}
use research_cosmos.Keeper.Scheduler.Register.{
  schedule_one_shot_task_branches, schedule_repeating_task_branches, delete_scheduled_task_ok,
}

module _ {E : Type 0} (k : Keeper E) (P : World E → Type 0) (closed : IsTaskClosed P) where
  pub Keeps-one_shot :
      (tp : SchedulerTaskType) (c : Bytes) (h : ℕ)
      → tp ≢ task_undefined
      → Keeps P (schedule_one_shot_task tp c h)
  Keeps-one_shot tp c h d w inv = elim (schedule_one_shot_task_branches tp c h w d) [
    | inl (past, e) ↦ rw e inv
    | inr (inl (now, known, e)) ↦ rw e inv
    | inr (inr (now, new, e)) ↦ rw e (closed.events _ _ (closed.set_task w tp h c false inv))
  ]

  pub Keeps-repeating :
      (tp : SchedulerTaskType) (c : Bytes) (h : ℕ)
      → tp ≢ task_undefined
      → Keeps P (schedule_repeating_task tp c h)
  Keeps-repeating tp c h d w inv = elim (schedule_repeating_task_branches tp c h w d) [
    | inl (past, e) ↦ rw e inv
    | inr (now, e) ↦ rw e (closed.events _ _ (closed.set_task w tp h c true inv))
  ]

  pub Keeps-delete :
      (tp : SchedulerTaskType) (c : Bytes) (h : ℕ)
      → tp ≢ task_undefined
      → Keeps P (delete_scheduled_task tp c h)
  Keeps-delete tp c h d w inv =
      rw (delete_scheduled_task_ok tp c h w d) (closed.delete_task w tp h c inv)

  -- A loop keeps what its callback keeps.
  pub Keeps-tasks :
      {S : Type 0} (max : ℕ) (cb : S → Bytes → ℕ → Bool → M E (S × Bool)) (s : KvStore) (x : S)
      → ((x : S) (a : Bytes) (h : ℕ) (r : Bool) → Keeps P (cb x a h r))
      → Keeps P (iterate_tasks max cb x s)
  unfolding iterate_tasks
  Keeps-tasks max cb [] x hc = λ w inv. inv
  Keeps-tasks {S} max cb ((key, value) ∷ s) x hc =
      let next : S × Bool → M E S = λ r. if r.1 then pure r.0 else iterate_tasks max cb r.0 s in
      let body : ℕ × Bytes → M E S =
        λ q. if ltb max q.0 then pure x else cb x q.1 q.0 (is_repeat value) >>= next in
      Keeps-bind P (or_panic (split_task_key key)) body (Keeps-or_panic P (split_task_key key))
        (λ q.
          Keeps-if P (ltb max q.0) (pure x) (cb x q.1 q.0 (is_repeat value) >>= next) (λ w h. h)
            (Keeps-bind P (cb x q.1 q.0 (is_repeat value)) next (hc x q.1 q.0 (is_repeat value))
              (λ r.
                Keeps-if P r.1 (pure r.0) (iterate_tasks max cb r.0 s) (λ w h. h)
                  (Keeps-tasks max cb s r.0 hc))))

  Keeps-iterate :
      {S : Type 0} (tp : SchedulerTaskType) (c : Bytes) (max : ℕ)
      (cb : S → ℕ → Bool → M E (S × Bool)) (x : S)
      → ((x : S) (h : ℕ) (r : Bool) → Keeps P (cb x h r))
      → Keeps P (iterate_scheduled_contract_tasks tp c max cb x)
  unfolding iterate_scheduled_contract_tasks iterate_scheduled_tasks
  Keeps-iterate {S} tp c max cb x hc =
      let run : Bytes → M E S =
        λ key_prefix w. iterate_tasks max (only_contract c cb) x (entries key_prefix w.store) w in
      Keeps-bind P (lift (build_scheduler_type_key_prefix tp)) run (λ w h. h)
        (λ key_prefix w h.
          Keeps-tasks max (only_contract c cb) (entries key_prefix w.store) x
            (λ y a ht r.
              Keeps-if P (equal a c) (cb y ht r) (pure (y, false)) (hc y ht r) (λ v i. i))
            w h)

  Keeps-ignore : {A : Type 0} (d : A) (m : M E A) → Keeps P m → Keeps P (λ w. ignore_error d (m w))
  Keeps-ignore {A} d m hm w h = go (m w).0 (m w).1 (hm w h)
    where
      go : (r : Outcome A) (v : World E) → P v → P (ignore_error d (r, v)).1
      go (ok a) v i = i
      go (err e) v i = i
      go panic v i = i

  pub Keeps-has_scheduled_task :
      (c : Bytes) (repeat : Bool) → Keeps P (has_scheduled_task task_handle_epoch c repeat)
  unfolding has_scheduled_task
  Keeps-has_scheduled_task c repeat =
      Keeps-ignore false
        (iterate_scheduled_contract_tasks task_handle_epoch c max_uint (match_repeat repeat) false)
        (Keeps-iterate task_handle_epoch c max_uint (match_repeat repeat) false (λ x h r w i. i))

  pub Keeps-delete_all : (c : Bytes) → Keeps P (delete_all_scheduled_tasks task_handle_epoch c)
  unfolding delete_all_scheduled_tasks
  Keeps-delete_all c =
      Keeps-iterate task_handle_epoch c max_uint (delete_task task_handle_epoch c) tt (λ x h r.
        Keeps-bind P (delete_scheduled_task task_handle_epoch c h) (λ _. pure (tt, false))
          (Keeps-delete task_handle_epoch c h (omega arith)) (λ _ w i. i))

  pub Keeps-epoch_length : Keeps P (get_rebalance_epoch_length k)
  unfolding get_rebalance_epoch_length
  Keeps-epoch_length =
      Keeps-bind P (get_params k) (λ p. pure p.epoch_length) (Keeps-get_params k P) (λ p w h. h)

  pub Keeps-regular : (c : Bytes) → Keeps P (schedule_regular_rebalance_task k c)
  unfolding schedule_regular_rebalance_task
  Keeps-regular c =
      let schedule : ℕ → ℕ → M E Unit =
        λ epoch height. schedule_repeating_task task_handle_epoch c ((height + epoch) % 2 ^ 64) in
      let next : ℕ → M E Unit = λ epoch. gets (λ w. w.height) >>= schedule epoch in
      let length : Unit → M E Unit = λ _. get_rebalance_epoch_length k >>= next in
      let test : Bool → M E Unit = λ known. fail_if (not known) unknown >>= length in
      Keeps-bind P (gets (λ w. k.wasm.has_contract_info w.env c)) test (λ w h. h)
        (λ known.
          Keeps-bind P (fail_if (not known) unknown) length (Keeps-fail_if P (not known) unknown)
            (λ _. Keeps-bind P (get_rebalance_epoch_length k) next Keeps-epoch_length (λ epoch.
              Keeps-bind P (gets (λ w. w.height)) (schedule epoch) (λ w h. h)
                (λ height.
                  Keeps-repeating task_handle_epoch c ((height + epoch) % 2 ^ 64) (omega arith)))))
