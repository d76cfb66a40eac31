-- ===== src/Keeper/Scheduler.antt =====
-- x/meshsecurity/keeper/scheduler.go: tasks under the keys (type, height, contract). An iterator is
-- read as a snapshot of the store at the start of the loop.
pub mod Exec
pub mod Register
pub mod Lookup
pub mod Tasks
pub mod Removal
pub mod Refines
pub mod Due
use research_cosmos.Prelude.{
  ℕ, ◌+◌, ◌-◌, ◌%◌, ◌^◌, Bool, true, false, not, ◌&&◌, Option, none, some, List, [], ◌∷◌, ◌==◌, ltb,
  length, take, drop, if◌then◌else◌,
}
use research_cosmos.Bytes.{Bytes, equal, from_big_endian}
use research_cosmos.KvStore.{KvStore, has, set, delete, entries}
use research_cosmos.Types.{
  Outcome, ok, err, panic, Error, invalid, unknown, SchedulerTaskType, task_handle_epoch,
  scheduler_registered,
}
use research_cosmos.Ctx.{World, M, ◌>>=◌, ◌>>◌, pure, lift, gets, modify, or_panic, fail_if, emit}
use research_cosmos.Keys.{build_scheduler_type_key_prefix, build_scheduler_contract_key}
use research_cosmos.Keeper.{Keeper}
use research_cosmos.Keeper.Params.{get_rebalance_epoch_length}

abbrev pub max_uint : ℕ
max_uint = 2 ^ 64 - 1

abbrev pub to_byte : Bool → ℕ
to_byte true = 1
to_byte false = 0

unfoldable pub is_repeat : Bytes → Bool
is_repeat bz = equal bz (to_byte true ∷ [])

-- The scheduled height and the contract of an iterator's key; slicing a short key panics.
unfoldable pub split_task_key : Bytes → Option (ℕ × Bytes)
split_task_key key =
    if ltb (length key) 8 then none else some (from_big_endian 0 (take 8 key), drop 8 key)

module _ {E : Type 0} where
  -- The loop of `IterateScheduledTasks`. The callback's captured variables are the accumulator.
  unfoldable pub iterate_tasks :
      {S : Type 0} → ℕ → (S → Bytes → ℕ → Bool → M E (S × Bool)) → S → KvStore → M E S
  unfolding split_task_key is_repeat
  iterate_tasks max_height cb s [] = pure s
  iterate_tasks max_height cb s ((key, value) ∷ rest) = do
    (scheduled_height, addr) ← or_panic (split_task_key key)
    if ltb max_height scheduled_height then pure s else do
      (s', stop) ← cb s addr scheduled_height (is_repeat value)
      if stop then pure s' else iterate_tasks max_height cb s' rest

  unfoldable pub iterate_scheduled_tasks :
      {S : Type 0} → SchedulerTaskType → ℕ → (S → Bytes → ℕ → Bool → M E (S × Bool)) → S → M E S
  unfolding iterate_tasks
  iterate_scheduled_tasks tp max_height cb s = do
    key_prefix ← lift (build_scheduler_type_key_prefix tp)
    λ w. iterate_tasks max_height cb s (entries key_prefix w.store) w

  -- `addr.Equals(contract) && cb(height, repeat)`
  abbrev pub only_contract :
      {S : Type 0} → Bytes → (S → ℕ → Bool → M E (S × Bool)) → S → Bytes → ℕ → Bool → M E (S × Bool)
  only_contract contract cb s addr height repeat =
      if equal addr contract then cb s height repeat else pure (s, false)

  unfoldable pub iterate_scheduled_contract_tasks :
      {S : Type 0} → SchedulerTaskType → Bytes → ℕ → (S → ℕ → Bool → M E (S × Bool)) → S → M E S
  unfolding iterate_scheduled_tasks
  iterate_scheduled_contract_tasks tp contract max_height cb s =
      iterate_scheduled_tasks tp max_height (only_contract contract cb) s

  -- `err == nil && found`: an error counts as not found.
  abbrev pub ignore_error : {A : Type 0} → A → Outcome A × World E → Outcome A × World E
  ignore_error d (ok a, w) = (ok a, w)
  ignore_error d (err e, w) = (ok d, w)
  ignore_error d (panic, w) = (panic, w)

  abbrev pub match_repeat : Bool → Bool → ℕ → Bool → M E (Bool × Bool)
  match_repeat repeat result height is_rep =
      let same = if repeat then is_rep else not is_rep in pure (same, same)

  unfoldable pub has_scheduled_task : SchedulerTaskType → Bytes → Bool → M E Bool
  unfolding iterate_scheduled_contract_tasks
  has_scheduled_task tp contract repeat w =
      ignore_error false
        (iterate_scheduled_contract_tasks tp contract max_uint (match_repeat repeat) false w)

  abbrev pub first_height : Option ℕ → ℕ → Bool → M E (Option ℕ × Bool)
  first_height found at_height is_rep = pure (some at_height, true)

  -- The height and `found` as an option.
  unfoldable pub get_next_scheduled_task_height : SchedulerTaskType → Bytes → M E (Option ℕ)
  unfolding iterate_scheduled_contract_tasks
  get_next_scheduled_task_height tp contract w =
      ignore_error none (iterate_scheduled_contract_tasks tp contract max_uint first_height none w)

  -- `store.Set(storeKey, []byte{toByte(repeat)})` and the event
  abbrev pub register : Bytes → Bytes → ℕ → Bool → M E Unit
  register store_key contract exec_block_height repeat = do
    modify (λ w. record w { store = set store_key (to_byte repeat ∷ []) w.store })
    emit (scheduler_registered contract exec_block_height repeat)

  unfoldable pub schedule_one_shot_task : SchedulerTaskType → Bytes → ℕ → M E Unit
  schedule_one_shot_task tp contract exec_block_height = do
    height ← gets (λ w. w.height)
    fail_if (ltb exec_block_height height) invalid
    store_key ← lift (build_scheduler_contract_key tp exec_block_height contract)
    known ← gets (λ w. has store_key w.store)
    if known then pure tt else register store_key contract exec_block_height false

  unfoldable pub schedule_repeating_task : SchedulerTaskType → Bytes → ℕ → M E Unit
  schedule_repeating_task tp contract exec_block_height = do
    height ← gets (λ w. w.height)
    fail_if (ltb exec_block_height height) invalid
    store_key ← lift (build_scheduler_contract_key tp exec_block_height contract)
    register store_key contract exec_block_height true

  unfoldable pub delete_scheduled_task : SchedulerTaskType → Bytes → ℕ → M E Unit
  delete_scheduled_task tp contract exec_block_height = do
    store_key ← lift (build_scheduler_contract_key tp exec_block_height contract)
    modify (λ w. record w { store = delete store_key w.store })

  abbrev pub delete_task : SchedulerTaskType → Bytes → Unit {0} → ℕ → Bool → M E (Unit {0} × Bool)
  delete_task tp contract u height is_rep = do
    delete_scheduled_task tp contract height
    pure (tt, false)

  -- An error of a delete stops the loop and is returned, wrapped, as is one of the iteration.
  unfoldable pub delete_all_scheduled_tasks : SchedulerTaskType → Bytes → M E Unit
  unfolding iterate_scheduled_contract_tasks delete_scheduled_task
  delete_all_scheduled_tasks tp contract =
      iterate_scheduled_contract_tasks tp contract max_uint (delete_task tp contract) tt

  unfoldable pub schedule_regular_rebalance_task : Keeper E → Bytes → M E Unit
  unfolding schedule_repeating_task
  schedule_regular_rebalance_task k contract = do
    known ← gets (λ w. k.wasm.has_contract_info w.env contract)
    fail_if (not known) unknown
    epoch_length ← get_rebalance_epoch_length k
    height ← gets (λ w. w.height)
    schedule_repeating_task task_handle_epoch contract ((height + epoch_length) % 2 ^ 64)
