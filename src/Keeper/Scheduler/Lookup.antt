-- ===== src/Keeper/Scheduler/Lookup.antt =====
-- Looking tasks up in x/meshsecurity/keeper/scheduler.go, and a plain search of the schedule.
use research_cosmos.Prelude.{
  ℕ, ◌≤◌, ◌≡◌, ◌≢◌, refl, ◌∙◌, Bool, true, false, not, ◌&&◌, ◌||◌, Option, none, some, [], ◌∷◌, ltb,
  arith, All, if◌then◌else◌,
}
use research_cosmos.Bytes.{Bytes, equal}
use research_cosmos.KvStore.{KvStore, entries}
use research_cosmos.Types.{ok, SchedulerTaskType, task_undefined}
use research_cosmos.Ctx.{World, M, ◌>>=◌, pure}
use research_cosmos.Keys.{build_scheduler_type_key_prefix}
use research_cosmos.Keeper.Scheduler.{
  max_uint, is_repeat, split_task_key, iterate_tasks, only_contract, match_repeat, first_height,
  iterate_scheduled_contract_tasks, iterate_scheduled_tasks, has_scheduled_task,
  get_next_scheduled_task_height,
}

-- An entry of the schedule, behind the prefix of its type: a key that splits, at a height up to a maximum.
abbrev pub IsTask : ℕ → Bytes × Bytes → Type 0
IsTask max e = (h : ℕ) × (a : Bytes) × (split_task_key e.0 ≡ some (h, a)) × (h ≤ max)

abbrev pub IsSchedule : KvStore → Type 0
IsSchedule s = All (IsTask max_uint) s

-- The entries of a type.
abbrev pub schedule : SchedulerTaskType → KvStore → KvStore
schedule tp s = entries (0x4 ∷ tp ∷ []) s

-- Does the key belong to the contract?
abbrev pub is_of : Bytes → Option (ℕ × Bytes) → Bool
is_of contract none = false
is_of contract (some (h, a)) = equal a contract

-- Some entry is the contract's and has the repeat flag.
abbrev pub any_task : Bytes → Bool → KvStore → Bool
any_task contract repeat [] = false
any_task contract repeat ((key, value) ∷ s) =
    let same = if repeat then is_repeat value else not (is_repeat value) in
    (is_of contract (split_task_key key) && same) || any_task contract repeat s

-- The height of the first entry that is the contract's.
abbrev pub first_task : Bytes → KvStore → Option ℕ
first_task contract [] = none
first_task contract ((key, value) ∷ s) =
    let rest = first_task contract s in
    elim (split_task_key key) [
      | none ↦ rest
      | some (h, a) ↦ if equal a contract then some h else rest
    ]

-- Below the maximum height the loop calls back, and goes on unless it is told to stop.
pub iterate_tasks_step :
    {E S : Type 0} (max ht : ℕ) (a key value : Bytes) (cb : S → Bytes → ℕ → Bool → M E (S × Bool))
    (x : S) (s : KvStore) (w : World E)
    → split_task_key key ≡ some (ht, a)
    → ht ≤ max
    → iterate_tasks max cb x ((key, value) ∷ s) w
      ≡ (cb x a ht (is_repeat value) >>= λ r. if r.1 then pure r.0 else iterate_tasks max cb r.0 s)
          w
unfolding iterate_tasks
iterate_tasks_step max ht a key value cb x s w sp le =
    let below : ltb max ht ≡ false = ground arith in rw (sp, below) refl

module _ {E : Type 0} (contract : Bytes) (w : World E) where
  loop_any :
      (max : ℕ) (repeat : Bool) (s : KvStore)
      → All (IsTask max) s
      → iterate_tasks max (only_contract contract (match_repeat repeat)) false s w
        ≡ (ok (any_task contract repeat s), w)
  loop_any max repeat [] h = unfold iterate_tasks in refl
  loop_any max repeat ((key, value) ∷ s) ((ht, a, sp, le), h) =
      iterate_tasks_step max ht a key value (only_contract contract (match_repeat repeat)) false s w
        sp le
      ∙ rw sp (
          found (equal a contract) (if repeat then is_repeat value else not (is_repeat value))
            (loop_any max repeat s h))
    where
      rest : Bool × Bool → M E Bool
      rest r =
          if r.1
          then pure r.0
          else iterate_tasks max (only_contract contract (match_repeat repeat)) r.0 s

      found :
          (mine same : Bool)
          → iterate_tasks max (only_contract contract (match_repeat repeat)) false s w
            ≡ (ok (any_task contract repeat s), w)
          → ((if mine then pure (same, same) else pure (false, false)) >>= rest) w
            ≡ (ok ((mine && same) || any_task contract repeat s), w)
      found true true ih = refl
      found true false ih = ih
      found false same ih = ih

  loop_first :
      (max : ℕ) (s : KvStore)
      → All (IsTask max) s
      → iterate_tasks max (only_contract contract first_height) none s w
        ≡ (ok (first_task contract s), w)
  loop_first max [] h = unfold iterate_tasks in refl
  loop_first max ((key, value) ∷ s) ((ht, a, sp, le), h) =
      iterate_tasks_step max ht a key value (only_contract contract first_height) none s w sp le
      ∙ rw (sp, first_task) (ground (arith, loop_first max s h))

  -- For a defined type and a schedule whose keys split, with heights of 64 bits,
  -- `HasScheduledTask` changes nothing and holds exactly if some entry of the schedule is the
  -- contract's and has the asked repeat setting.
  pub has_scheduled_task_lem :
      (tp : SchedulerTaskType) (repeat : Bool)
      → tp ≢ task_undefined
      → IsSchedule (schedule tp w.store)
      → has_scheduled_task tp contract repeat w
        ≡ (ok (any_task contract repeat (schedule tp w.store)), w)
  unfolding has_scheduled_task iterate_scheduled_contract_tasks iterate_scheduled_tasks
      build_scheduler_type_key_prefix
  has_scheduled_task_lem tp repeat d h =
      ground (arith, loop_any max_uint repeat (schedule tp w.store) h)

  -- For an undefined type the error is swallowed, and there is no task.
  pub has_scheduled_task_undefined :
      (repeat : Bool) → has_scheduled_task task_undefined contract repeat w ≡ (ok false, w)
  unfolding has_scheduled_task build_scheduler_type_key_prefix
  has_scheduled_task_undefined repeat = refl

  -- For a defined type and a schedule whose keys split, with heights of 64 bits,
  -- `GetNextScheduledTaskHeight` changes nothing and returns the height of the contract's first
  -- entry in key order, if there is one.
  pub get_next_scheduled_task_height_lem :
      (tp : SchedulerTaskType)
      → tp ≢ task_undefined
      → IsSchedule (schedule tp w.store)
      → get_next_scheduled_task_height tp contract w
        ≡ (ok (first_task contract (schedule tp w.store)), w)
  unfolding get_next_scheduled_task_height iterate_scheduled_contract_tasks iterate_scheduled_tasks
      build_scheduler_type_key_prefix
  get_next_scheduled_task_height_lem tp d h =
      ground (arith, loop_first max_uint (schedule tp w.store) h)
