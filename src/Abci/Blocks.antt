-- ===== src/Abci/Blocks.antt =====
-- Blocks: the calls within a block, the end blocker of x/meshsecurity/abci.go, and the next block.
use research_cosmos.Prelude.{ℕ, ◌+◌, ◌^◌, ◌<◌, ◌≡◌, ◌≢◌, refl, ◌∙◌, [], ◌∷◌, arith, All}
use research_cosmos.Prelude.Int.{ℤ}
use research_cosmos.Bytes.{Bytes}
use research_cosmos.KvStore.{KvStore}
use research_cosmos.Types.{
  ok, Params, SchedulerTaskType, task_undefined, task_handle_epoch, task_valset_update,
}
use research_cosmos.Sdk.{Laws}
use research_cosmos.Ctx.{World, M}
use research_cosmos.Ctx.Keeps.{Keeps}
use research_cosmos.Keeper.{Keeper}
use research_cosmos.Keeper.Params.{get_rebalance_epoch_length}
use research_cosmos.Keeper.Params.Stored.{HasParams, get_params_ok}
use research_cosmos.Keeper.Adapter.{SlashingTarget}
use research_cosmos.Keeper.Safe.{
  IsSafe, height-IsWriteClosed, params-IsWriteClosed, IsSafe-IsWriteClosed,
}
use research_cosmos.Keeper.Writes.{IsWriteClosed}
use research_cosmos.Keeper.Steps.{Step, SudoReaches, Step-keeps, Keeps-sudo}
use research_cosmos.Keeper.Writes.Exec.{Keeps-exec_scheduled_tasks}
use research_cosmos.Keeper.Valset.{clear_piped_valset_operations}
use research_cosmos.Keeper.Messages.{send_handle_epoch}
use research_cosmos.Keeper.Scheduler.Lookup.{schedule}
use research_cosmos.Keeper.Scheduler.Tasks.{IsTaskEntry, split-task_key}
use research_cosmos.Keeper.Scheduler.Exec.{ExecResult, exec_scheduled_tasks}
use research_cosmos.Keeper.Scheduler.Due.{IsExecutor}
use research_cosmos.Keeper.Scheduler.Due.Order.{Splits}
use research_cosmos.Abci.{
  ResponseHandler, default_execution_response_handler, rsp_handler, report_valset_update,
  end_blocker,
}
use research_cosmos.Abci.Failures.{rsp_handler-exec_scheduled_tasks}
use research_cosmos.Abci.Writes.{
  Keeps-send_handle_epoch, Keeps-report_valset_update, Keeps-end_blocker,
}

entries-Splits : (s : KvStore) → All IsTaskEntry s → Splits s
entries-Splits [] h = tt
entries-Splits ((key, v) ∷ s) ((ht, c, fits, e), h) =
    ((ht, c, rw e (split-task_key ht c fits)), entries-Splits s h)

module _ {E : Type 0} (k : Keeper E) (p : Params) (s : SlashingTarget E) where
  -- A callback all of whose writes are writes of the module.
  Keeps-IsExecutor :
      (cb : Bytes → M E Unit)
      → ((n : ℕ) (c : Bytes) → Keeps (λ w. w.height ≡ n) (cb c))
      → ((c : Bytes) → Keeps (λ w. HasParams k.sdk p w.store) (cb c))
      → IsExecutor k p cb
  Keeps-IsExecutor cb height params = record {
    keeps_height = λ c w. height w.height c w refl;
    keeps_params = params;
  }

  module _ (laws : Laws k.sdk) (reaches : SudoReaches k s) where
    abbrev Safe : World E → Type 0
    Safe w = IsSafe k.sdk p w.store

    sudo-Safe : (c bz : Bytes) → Keeps Safe (k.wasm.sudo c bz)
    sudo-Safe = Keeps-sudo k s Safe (IsSafe-IsWriteClosed k laws p) reaches

    sudo-height : (n : ℕ) (c bz : Bytes) → Keeps (λ w. w.height ≡ n) (k.wasm.sudo c bz)
    sudo-height n = Keeps-sudo k s (λ w. w.height ≡ n) (height-IsWriteClosed k n) reaches

    sudo-params : (c bz : Bytes) → Keeps (λ w. HasParams k.sdk p w.store) (k.wasm.sudo c bz)
    sudo-params = Keeps-sudo k s (λ w. HasParams k.sdk p w.store) (params-IsWriteClosed k p) reaches

    update-IsExecutor : IsExecutor k p (report_valset_update k)
    update-IsExecutor =
        Keeps-IsExecutor (report_valset_update k)
          (λ n. Keeps-report_valset_update k (λ w. w.height ≡ n) (sudo-height n))
          (Keeps-report_valset_update k (λ w. HasParams k.sdk p w.store) sudo-params)

    epoch-IsExecutor : IsExecutor k p (send_handle_epoch k)
    epoch-IsExecutor =
        Keeps-IsExecutor (send_handle_epoch k)
          (λ n. Keeps-send_handle_epoch k (λ w. w.height ≡ n) (sudo-height n))
          (Keeps-send_handle_epoch k (λ w. HasParams k.sdk p w.store) sudo-params)

    -- A run that the scheduler finishes, with what it keeps.
    abbrev Finishes : SchedulerTaskType → (Bytes → M E Unit) → World E → Type 0
    Finishes tp cb w =
        let ran = exec_scheduled_tasks k tp p.epoch_length cb in
        (rsp_handler default_execution_response_handler ran w ≡ (ok tt, (ran w).1))
        × Safe (ran w).1
        × ((ran w).1.height ≡ w.height)

    finishes :
        (tp : SchedulerTaskType) (cb : Bytes → M E Unit) (w : World E)
        → tp ≢ task_undefined
        → IsExecutor k p cb
        → ((c : Bytes) → Keeps Safe (cb c))
        → ((n : ℕ) (c : Bytes) → Keeps (λ w. w.height ≡ n) (cb c))
        → Safe w
        → w.height + p.epoch_length < 2 ^ 64
        → Finishes tp cb w
    finishes tp cb w d x safe height h fits = (
      rsp_handler-exec_scheduled_tasks k p cb x tp p.epoch_length w d h.caps.params fits
          (entries-Splits (schedule tp w.store) (h.tasks.tasks tp)),
      Keeps-exec_scheduled_tasks k Safe (IsSafe-IsWriteClosed k laws p).tasks tp p.epoch_length cb d
          safe w h,
      Keeps-exec_scheduled_tasks k (λ v. v.height ≡ w.height)
          (height-IsWriteClosed k w.height).tasks tp p.epoch_length cb d (height w.height) w refl,
    )

    -- With the laws of the SDK, contracts that call this module only in the modelled ways, a safe
    -- store, and a height that fits in 64 bits together with the epoch length: the end blocker with
    -- the default handler returns without an error and without a panic, whatever the contracts do,
    -- and leaves a safe store and the same height.
    pub end_blocker-returns :
        (w : World E)
        → IsSafe k.sdk p w.store
        → w.height + p.epoch_length < 2 ^ 64
        → (v : World E) × (end_blocker k default_execution_response_handler w ≡ (ok tt, v))
          × IsSafe k.sdk p v.store
          × (v.height ≡ w.height)
    unfolding end_blocker get_rebalance_epoch_length clear_piped_valset_operations
    end_blocker-returns w h fits =
        let updates =
          exec_scheduled_tasks k task_valset_update p.epoch_length (report_valset_update k) in
        let epochs =
          exec_scheduled_tasks k task_handle_epoch p.epoch_length (send_handle_epoch k) in
        let first =
          finishes task_valset_update (report_valset_update k) w (omega arith) update-IsExecutor
            (Keeps-report_valset_update k Safe sudo-Safe)
            (λ n. Keeps-report_valset_update k (λ w. w.height ≡ n) (sudo-height n)) h fits in
        let cleared = (clear_piped_valset_operations (updates w).1).1 in
        let second =
          finishes task_handle_epoch (send_handle_epoch k) cleared (omega arith) epoch-IsExecutor
            (Keeps-send_handle_epoch k Safe sudo-Safe)
            (λ n. Keeps-send_handle_epoch k (λ w. w.height ≡ n) (sudo-height n)) first.1
            (rw first.2 fits) in
        (
          (epochs cleared).1,
          rw (get_params_ok k p w h.caps.params, first.0) second.0,
          second.1,
          second.2 ∙ first.2,
        )

module _ {E : Type 0} (k : Keeper E) (s : SlashingTarget E) (handler : ResponseHandler E) where
  -- The states of a chain: calls, ends of blocks and new blocks in any order.
  pub data Chain (w : World E) : World E → Type 0 where
    start : Chain w w
    step : {u v : World E} → Chain w u → Step k s u v → Chain w v
    at_end : {u : World E} → Chain w u → Chain w (end_blocker k handler u).1
    at_begin :
        {u : World E} (time : ℤ)
        → Chain w u
        → Chain w (record u { height = u.height + 1; time = time; events = [] })

module _ {E : Type 0} (k : Keeper E) (s : SlashingTarget E) (reaches : SudoReaches k s)
    (handler : ResponseHandler E) (silent : (r : ExecResult) (u : World E) → (handler r u).1 ≡ u)
    (P : World E → Type 0) (closed : IsWriteClosed k P)
    (next_block : (u : World E) (time : ℤ)
      → P u
      → P (record u { height = u.height + 1; time = time; events = [] })) where
  pub Chain-keeps : {w v : World E} → Chain k s handler w v → P w → P v
  Chain-keeps start h = h
  Chain-keeps (step c st) h = Step-keeps k s P closed st (Chain-keeps c h)
  Chain-keeps (at_end {u} c) h =
      Keeps-end_blocker k P closed.tasks (Keeps-sudo k s P closed reaches) handler
        (λ r v i. rw (silent r v) i) u (Chain-keeps c h)
  Chain-keeps (at_begin {u} time c) h = next_block u time (Chain-keeps c h)

module _ {E : Type 0} (k : Keeper E) (p : Params) (s : SlashingTarget E) (laws : Laws k.sdk)
    (reaches : SudoReaches k s) (handler : ResponseHandler E) where
  -- With the laws of the SDK, contracts that call this module only in the modelled ways, and a
  -- response handler that leaves the state alone: every state that a chain reaches from a safe
  -- store has a safe store, by any calls of the message server, the message handler, the hooks
  -- and the slashing adapter, and any end blockers and new blocks.
  pub Chain-IsSafe :
      {w v : World E}
      → ((r : ExecResult) (u : World E) → (handler r u).1 ≡ u)
      → IsSafe k.sdk p w.store
      → Chain k s handler w v
      → IsSafe k.sdk p v.store
  Chain-IsSafe silent h c =
      Chain-keeps k s reaches handler silent (λ w. IsSafe k.sdk p w.store)
        (IsSafe-IsWriteClosed k laws p) (λ u time i. i) c h
